-- ===== src/Responses/Accepted.antt =====
-- What a request that is normalized is known to be.
use media_bridge.Base.{
  String, Bool, true, false, not, Option, none, some, List, ◌++◌, ◌≡◌, refl, arith, any, string_eq,
  eq_iff,
}
use media_bridge.Base.{ok, >>=-eq-ok}
use media_bridge.Json.{Json, null, bool, int, number, text, array, object, Items, nil}
use media_bridge.Json.{Fields, get, find}
use media_bridge.Contracts.{ContentPart, request_accepted}
use media_bridge.Capability.{is_media}
use media_bridge.State.Gateway.{GatewayStateRecord}
use media_bridge.Responses.References.{Web, reject, reject_if, is_null, some_reference}
use media_bridge.Responses.Nested.{
  AllFree, nested_items, nested_outside, some_reference-AllFree, outside_reference-AllFree,
}
use media_bridge.Responses.Parts.{Current, current_content}
use media_bridge.Responses.Select.{
  select_current_input, select_message, split_last_user, check_message, message_content,
}
use media_bridge.Responses.Normalize.{
  NormalizedRequest, check_previous, prior_parts, request_of, build_request, input_of,
  outside_reference, normalize_fields, normalize_responses_request,
}

-- The request names the response of the state, or neither is there.
abbrev pub Follows : Fields → Option GatewayStateRecord → Type 0
Follows fs none = get "previous_response_id" fs ≡ null
Follows fs (some s) = get "previous_response_id" fs ≡ text s.response_id

-- What is known of the fields of a request and of what it was normalized to.
pub record IsNormal (w : Web) (fs : Fields) (state : Option GatewayStateRecord)
    (n : NormalizedRequest) : Type 0 where
  pub history : Items
  pub message : Json
  pub input : Json
  pub current : Current
  pub accepted : request_accepted n.request ≡ true
  pub model : get "model" fs ≡ text n.request.target
  pub follows : Follows fs state
  pub previous : n.previous_state ≡ state
  pub outside : AllFree w (nested_outside fs)
  pub given : find "input" fs ≡ some input
  pub selected : select_current_input w input ≡ ok (message, history)
  pub unread : AllFree w (nested_items history)
  pub read : current_content w message ≡ ok current
  pub content : n.request.content ≡ prior_parts state ++ current.parts
  pub media : n.input_had_media ≡ any is_media n.request.content

reject_if-ok :
    (b : Bool) (code message : String) (u : Unit {0})
    → reject_if b (reject code message) ≡ ok u
    → b ≡ false
reject_if-ok true code message u h = absurd (cc h)
reject_if-ok false code message u h = refl

check_previous-Follows :
    (fs : Fields) (previous : Json) (state : Option GatewayStateRecord) (u : Unit {0})
    → get "previous_response_id" fs ≡ previous
    → check_previous previous state ≡ ok u
    → Follows fs state
unfolding check_previous
check_previous-Follows fs null none u e h = e
check_previous-Follows fs null (some s) u e h = absurd (cc h)
check_previous-Follows fs (text id) none u e h = absurd (cc h)
check_previous-Follows fs (text id) (some s) u e h = ground (arith, e, h, eq_iff s.response_id id)
check_previous-Follows fs (bool b) state u e h = absurd (cc h)
check_previous-Follows fs (int n) state u e h = absurd (cc h)
check_previous-Follows fs (number n) state u e h = absurd (cc h)
check_previous-Follows fs (array xs) state u e h = absurd (cc h)
check_previous-Follows fs (object gs) state u e h = absurd (cc h)

any-prior_parts :
    (state : Option GatewayStateRecord) (parts : List ContentPart)
    → any is_media (prior_parts state ++ parts) ≡ any is_media parts
unfolding prior_parts is_media
any-prior_parts none parts = refl
any-prior_parts (some s) parts = ground arith

build_request-parts :
    (model : Json) (state : Option GatewayStateRecord) (current : Current) (n : NormalizedRequest)
    → build_request model state current ≡ ok n
    → (request_accepted n.request ≡ true)
      × (model ≡ text n.request.target)
      × (n.previous_state ≡ state)
      × (n.request.content ≡ prior_parts state ++ current.parts)
      × (n.input_had_media ≡ any is_media current.parts)
unfolding build_request request_of
build_request-parts (text m) state current n h = ground (arith, h)
build_request-parts null state current n h = absurd (cc h)
build_request-parts (bool b) state current n h = absurd (cc h)
build_request-parts (int i) state current n h = absurd (cc h)
build_request-parts (number i) state current n h = absurd (cc h)
build_request-parts (array xs) state current n h = absurd (cc h)
build_request-parts (object gs) state current n h = absurd (cc h)

select_message-unread :
    (w : Web) (picked : Option (Fields × Items)) (message : Json) (history : Items)
    → select_message w picked ≡ ok (message, history)
    → some_reference w history ≡ false
unfolding select_message
select_message-unread w none message history h = absurd (cc h)
select_message-unread w (some (current, others)) message history h =
    let (u, tests, rest) =
      >>=-eq-ok
        (reject_if (some_reference w others)
          (reject "unsafe_history_media" "Media in Responses history is not permitted."))
        _ h in
    let (v, checked, rest') = >>=-eq-ok (check_message current) _ rest in
    let (content, found, last) = >>=-eq-ok (message_content (find "content" current)) _ rest' in
    let same : others ≡ history = ground arith in
    rw (← same) (reject_if-ok (some_reference w others) _ _ u tests)

select_current_input-unread :
    (w : Web) (input message : Json) (history : Items)
    → select_current_input w input ≡ ok (message, history)
    → some_reference w history ≡ false
unfolding select_current_input some_reference
select_current_input-unread w (text s) message history h =
    let same : nil ≡ history = ground arith in rw (← same) refl
select_current_input-unread w (array xs) message history h =
    select_message-unread w (split_last_user xs) message history h
select_current_input-unread w null message history h = absurd (cc h)
select_current_input-unread w (bool b) message history h = absurd (cc h)
select_current_input-unread w (int n) message history h = absurd (cc h)
select_current_input-unread w (number n) message history h = absurd (cc h)
select_current_input-unread w (object gs) message history h = absurd (cc h)

input_of-some :
    (found : Option Json) (input : Json) → input_of found ≡ ok input → found ≡ some input
unfolding input_of
input_of-some none input h = absurd (cc h)
input_of-some (some v) input h = ground arith

pub normalize_responses_request-IsNormal :
    (w : Web) (fs : Fields) (state : Option GatewayStateRecord) (n : NormalizedRequest)
    → normalize_responses_request w (object fs) state ≡ ok n
    → IsNormal w fs state n
unfolding normalize_responses_request normalize_fields
normalize_responses_request-IsNormal w fs state n h =
    let (u, conversation, h1) =
      >>=-eq-ok
        (reject_if (not (is_null (get "conversation" fs)))
          (reject "conversation_unsupported" "Server-side conversation state is not supported."))
        _ h in
    let (v, previous, h2) = >>=-eq-ok (check_previous (get "previous_response_id" fs) state) _ h1 in
    let (x, outside, h3) =
      >>=-eq-ok
        (reject_if (outside_reference w fs)
          (reject "unsafe_media_reference" "Media outside current input is not permitted."))
        _ h2 in
    let (input, given, h4) = >>=-eq-ok (input_of (find "input" fs)) _ h3 in
    let ((message, history), selected, h5) = >>=-eq-ok (select_current_input w input) _ h4 in
    let (current, read, h6) = >>=-eq-ok (current_content w message) _ h5 in
    let (accepted, model, prior, content, media) =
      build_request-parts (get "model" fs) state current n h6 in
    record {
      history = history;
      message = message;
      input = input;
      current = current;
      accepted = accepted;
      model = model;
      follows = check_previous-Follows fs (get "previous_response_id" fs) state v refl previous;
      previous = prior;
      outside =
          outside_reference-AllFree w fs (reject_if-ok (outside_reference w fs) _ _ x outside);
      given = input_of-some (find "input" fs) input given;
      selected = selected;
      unread =
          some_reference-AllFree w history
            (select_current_input-unread w input message history selected);
      read = read;
      content = content;
      media = rw (content, any-prior_parts state current.parts) media;
    }
