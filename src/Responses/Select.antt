-- ===== src/Responses/Select.antt =====
-- The current user message of a request, and the history before and after it
-- (media_bridge/openai_responses.py).
use media_bridge.Base.{not, ◌&&◌, Option, none, some, [], ◌∷◌, string_eq, if◌then◌else◌}
use media_bridge.Base.{Result, ok, ◌>>=◌, ◌>>◌}
use media_bridge.Json.{Json, text, array, object, Items, nil, cons}
use media_bridge.Json.{Fields, get, find}
use media_bridge.Responses.References.{
  Web, NormalizationError, reject, invalid, user_required, reject_if, is_null, text_in,
  some_reference,
}
use media_bridge.Responses.Parts.{keys_within, hashable, is_text}

-- `isinstance(item, dict) and item.get("role") == "user"`
unfoldable pub user_message : Json → Option Fields
user_message (object fs) = if text_in ("user" ∷ []) (get "role" fs) then some fs else none
user_message _ = none

-- The last user message, and the other items in their order.
unfoldable pub split_last_user : Items → Option (Fields × Items)
unfolding user_message
split_last_user nil = none
split_last_user (cons x xs) = elim (split_last_user xs) [
  | some (current, history) ↦ some (current, cons x history)
  | none ↦ elim (user_message x) [ some fs ↦ some (fs, xs) | none ↦ none ]
]

abbrev malformed_message : Result NormalizationError (Unit {0})
malformed_message = invalid "Current user message is malformed."

-- The tests of `_select_current_input` on the message that it has picked.
unfoldable pub check_message : Fields → Result NormalizationError (Unit {0})
check_message current = do
  reject_if (not (keys_within ("id" ∷ "type" ∷ "status" ∷ "role" ∷ "content" ∷ []) current))
      malformed_message
  hashable (get "type" current)
  reject_if
      (not (is_null (get "type" current)) && not (text_in ("message" ∷ []) (get "type" current)))
      malformed_message
  reject_if (not (is_null (get "id" current)) && not (is_text (get "id" current))) malformed_message
  hashable (get "status" current)
  reject_if
      (not (is_null (get "status" current))
        && not (text_in ("in_progress" ∷ "completed" ∷ []) (get "status" current)))
      malformed_message

unfoldable pub message_content : Option Json → Result NormalizationError Json
message_content none = user_required
message_content (some content) = ok content

module _ (w : Web) where
  unfoldable pub select_message : Option (Fields × Items) → Result NormalizationError (Json × Items)
  select_message none = user_required
  select_message (some (current, history)) = do
    reject_if (some_reference w history)
        (reject "unsafe_history_media" "Media in Responses history is not permitted.")
    check_message current
    content ← message_content (find "content" current)
    ok (content, history)

  -- `_select_current_input`: the content of the current message, and the history.
  unfoldable pub select_current_input : Json → Result NormalizationError (Json × Items)
  select_current_input (text s) = ok (text s, nil)
  select_current_input (array xs) = select_message (split_last_user xs)
  select_current_input _ = user_required
