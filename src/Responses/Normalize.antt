-- ===== src/Responses/Normalize.antt =====
-- `normalize_responses_request` (media_bridge/openai_responses.py).
use media_bridge.Base.{
  String, Bool, true, false, not, ◌&&◌, ◌||◌, Option, none, some, List, [], ◌∷◌, ◌++◌, any,
  is_blank, ◌==◌, string_eq, if◌then◌else◌,
}
use media_bridge.Base.{Result, ok, ◌>>=◌, ◌>>◌}
use media_bridge.Json.{Json, null, text, object}
use media_bridge.Json.{Fields, end, field, get, find}
use media_bridge.Contracts.{
  image, pdf, ContentPart, text_part, media_part, document, error_screenshot, PrepareRequest,
  request_accepted,
}
use media_bridge.Capability.{is_media}
use media_bridge.State.Gateway.{GatewayStateRecord}
use media_bridge.Responses.References.{
  Web, NormalizationError, reject, invalid, user_required, reject_if, is_null, contains_reference,
}
use media_bridge.Responses.Parts.{Current, current_content}
use media_bridge.Responses.Select.{select_current_input}

pub record NormalizedRequest : Type 0 where
  pub request : PrepareRequest
  pub current_user_text : String
  pub input_had_media : Bool
  pub previous_state : Option GatewayStateRecord

abbrev no_state : Result NormalizationError (Unit {0})
no_state = reject "state_unavailable" "Responses state is unavailable."

-- The state is that of the identifier that the request names, and there is none without one.
unfoldable pub check_previous :
    Json → Option GatewayStateRecord → Result NormalizationError (Unit {0})
check_previous null none = ok tt
check_previous null (some s) = no_state
check_previous (text id) none = no_state
check_previous (text id) (some s) = if s.response_id == id then ok tt else no_state
check_previous _ state = invalid "Previous response identifier is invalid."

-- `isinstance(part, MediaPart) and part.media_type == "pdf"`
abbrev pub is_pdf : ContentPart → Bool
is_pdf (text_part _) = false
is_pdf (media_part p) = elim p.media_type [ pdf ↦ true | image ↦ false ]

-- The text of the prior state stands before the current parts.
unfoldable pub prior_parts : Option GatewayStateRecord → List ContentPart
prior_parts none = []
prior_parts (some s) = if is_blank s.sanitized_text then [] else text_part s.sanitized_text ∷ []

unfoldable pub request_of : String → Option GatewayStateRecord → List ContentPart → PrepareRequest
unfolding prior_parts
request_of model state parts = record {
  content = prior_parts state ++ parts;
  target = model;
  profile = if any is_pdf parts then document else error_screenshot;
}

unfoldable pub build_request :
    Json → Option GatewayStateRecord → Current → Result NormalizationError NormalizedRequest
build_request (text model) state current =
    if request_accepted (request_of model state current.parts)
    then ok (record {
      request = request_of model state current.parts;
      current_user_text = current.user_text;
      input_had_media = any is_media current.parts;
      previous_state = state;
    })
    else invalid "Responses request fields are invalid."
build_request _ state current = invalid "Target model identifier is invalid."

unfoldable pub input_of : Option Json → Result NormalizationError Json
input_of none = user_required
input_of (some value) = ok value

module _ (w : Web) where
  -- A field other than `input` holds a reference.
  unfoldable pub outside_reference : Fields → Bool
  outside_reference end = false
  outside_reference (field key value fs) =
      (not (key == "input") && contains_reference w value) || outside_reference fs

  -- The normalization of a JSON object.
  unfoldable pub normalize_fields :
      Fields → Option GatewayStateRecord → Result NormalizationError NormalizedRequest
  normalize_fields fs state = do
    reject_if (not (is_null (get "conversation" fs)))
        (reject "conversation_unsupported" "Server-side conversation state is not supported.")
    check_previous (get "previous_response_id" fs) state
    reject_if (outside_reference fs)
        (reject "unsafe_media_reference" "Media outside current input is not permitted.")
    input ← input_of (find "input" fs)
    selected ← select_current_input w input
    current ← current_content w selected.0
    build_request (get "model" fs) state current

  -- `normalize_responses_request`
  unfoldable pub normalize_responses_request :
      Json → Option GatewayStateRecord → Result NormalizationError NormalizedRequest
  normalize_responses_request (object fs) state = normalize_fields fs state
  normalize_responses_request _ state = invalid "Responses request must be a JSON object."
