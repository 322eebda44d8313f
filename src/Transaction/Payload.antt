-- ===== src/Transaction/Payload.antt =====
-- The payload for the provider (media_bridge_gateway/transaction.py).
use media_bridge.Base.{
  String, not, ◌&&◌, Option, none, some, List, [], ◌∷◌, is_some, is_blank, concat, string_eq,
  if◌then◌else◌,
}
use media_bridge.Base.{Result, ok, err, ◌>>=◌}
use media_bridge.Json.{Json, text, array, object, Items, nil, cons}
use media_bridge.Json.{Fields, end, field, remove, insert}
use media_bridge.Contracts.{
  MediaType, image, pdf, base64_source, MediaPart, ContentPart, text_part, media_part,
}
use media_bridge.Gate.{DownstreamPayload}
use media_bridge.Responses.Normalize.{NormalizedRequest}

-- Whatever makes the sealing fail is one failure to its caller.
pub data SealError : Type 0 where
  sealing_failed : SealError

-- `part.declared_mime or "image/png"`
abbrev image_mime : Option String → String
image_mime none = "image/png"
image_mime (some mime) = if is_blank mime then "image/png" else mime

unfoldable pub encoded_media : MediaType → Option String → String → Json
encoded_media image mime encoded = object (
    field "type" (text "input_image") (
      field "image_url"
        (text (concat "data:" (concat (image_mime mime) (concat ";base64," encoded)))) end))
encoded_media pdf mime encoded = object (
    field "type" (text "input_file")
      (field "file_data" (text (concat "data:application/pdf;base64," encoded)) end))

-- `_media_part_to_response`
unfoldable pub media_part_to_response : MediaPart → Result SealError Json
unfolding encoded_media
media_part_to_response p = elim p.source [
  | base64_source encoded ↦ ok (encoded_media p.media_type p.declared_mime encoded)
  | _ ↦ err sealing_failed
]

unfoldable pub part_to_response : ContentPart → Result SealError Json
part_to_response (text_part s) =
    ok (object (field "type" (text "input_text") (field "text" (text s) end)))
part_to_response (media_part p) = media_part_to_response p

unfoldable pub parts_to_response : List ContentPart → Result SealError Items
parts_to_response [] = ok nil
parts_to_response (p ∷ ps) = do
  first ← part_to_response p
  rest ← parts_to_response ps
  ok (cons first rest)

abbrev user_message : Items → Json
user_message content = array (
    cons
      (object (
        field "type" (text "message")
          (field "role" (text "user") (field "content" (array content) end))))
      nil)

unfoldable pub nonempty_input : Items → Result SealError Json
nonempty_input nil = err sealing_failed
nonempty_input (cons x xs) = ok (user_message (cons x xs))

-- `_rebuilt_input`
unfoldable pub rebuilt_input : List ContentPart → Result SealError Json
rebuilt_input parts = do content ← parts_to_response parts; nonempty_input content

-- The request as it came, without the names of its conversation.
unfoldable pub unchanged_payload : Fields → String → Fields
unchanged_payload raw target =
    insert "model" (text target) (remove "conversation" (remove "previous_response_id" raw))

-- The request with its input replaced by what the gate prepared.
unfoldable pub replaced_payload : Fields → String → Json → Fields
replaced_payload raw target input = insert "input" input (
    insert "model" (text target)
      (remove "conversation" (remove "previous_response_id" (remove "input" (remove "model" raw)))))

-- `_build_downstream_payload`
unfoldable pub build_downstream_payload :
    Fields → NormalizedRequest → DownstreamPayload → Result SealError Fields
build_downstream_payload raw n p =
    if not n.input_had_media && not (is_some n.previous_state)
    then ok (unchanged_payload raw p.target_id)
    else (do input ← rebuilt_input p.content; ok (replaced_payload raw p.target_id input))
