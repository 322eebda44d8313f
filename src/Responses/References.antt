-- ===== src/Responses/References.antt =====
-- Media references in JSON, and what normalization raises (media_bridge/openai_responses.py).
use media_bridge.Base.{
  ℕ, String, Bool, true, false, not, ◌||◌, Option, List, [], ◌∷◌, any, contains, is_blank,
  string_eq, starts_with,
}
use media_bridge.Base.{Result, ok, err}
use media_bridge.Json.{Json, null, bool, int, number, text, array, object, Items, nil, cons}
use media_bridge.Json.{Fields, end, field, get}
use media_bridge.Contracts.{SafeError}

-- What `urlsplit` finds in a locator.
pub record SplitUrl : Type 0 where
  pub scheme : String
  pub hostname : Option String
  pub username : Option String
  pub password : Option String
  pub fragment : String

-- The standard library's part: `str.lower`, `urlsplit`, which may raise a `ValueError`, and
-- `b64decode(..., validate=True)`.
pub record Web : Type 0 where
  pub lower : String → String
  pub urlsplit : String → Option SplitUrl
  pub b64decode : String → Option (List ℕ)

-- A `ResponsesNormalizationError`, or any other exception: no handler of the caller takes it.
pub data NormalizationError : Type 0 where
  rejected : SafeError → NormalizationError
  escaped : NormalizationError

-- `_raise`
abbrev pub reject : {A : Type 0} → String → String → Result NormalizationError A
reject code message = err (rejected (record { code = code; message = message }))

abbrev pub unsupported : {A : Type 0} → String → Result NormalizationError A
unsupported message = reject "unsupported_media_locator" message

abbrev pub invalid : {A : Type 0} → String → Result NormalizationError A
invalid message = reject "invalid_request" message

abbrev pub user_required : {A : Type 0} → Result NormalizationError A
user_required = reject "current_user_required" "Current user input is required."

-- `if test: _raise(...)`
abbrev pub reject_if :
    Bool → Result NormalizationError (Unit {0}) → Result NormalizationError (Unit {0})
reject_if true e = e
reject_if false e = ok tt

abbrev pub is_null : Json → Bool
is_null null = true
is_null _ = false

-- `isinstance(value, str) and value`
abbrev pub nonempty_text : Json → Bool
nonempty_text (text s) = not (is_blank s)
nonempty_text _ = false

-- `isinstance(value, str) and value in options`
abbrev pub text_in : List String → Json → Bool
text_in options (text s) = contains s options
text_in options _ = false

abbrev pub media_types : List String
media_types = "input_image" ∷ "input_file" ∷ "image_url" ∷ []

abbrev locator_keys : List String
locator_keys = "image_url" ∷ "file_data" ∷ "file_id" ∷ "file_url" ∷ "asset_id" ∷ []

-- The text is a data URI of media.
abbrev pub media_uri : Web → String → Bool
media_uri w s =
    starts_with "data:image/" (w.lower s) || starts_with "data:application/pdf" (w.lower s)

-- An object that is, or locates, media itself.
unfoldable pub locates : Fields → Bool
locates fs =
    text_in media_types (get "type" fs) || any (λ key. nonempty_text (get key fs)) locator_keys

-- `_contains_media_reference`
unfoldable mutual
  pub contains_reference : Web → Json → Bool
  contains_reference w null = false
  contains_reference w (bool b) = false
  contains_reference w (int n) = false
  contains_reference w (number s) = false
  contains_reference w (text s) = media_uri w s
  contains_reference w (array xs) = some_reference w xs
  contains_reference w (object fs) = locates fs || field_reference w fs

  pub some_reference : Web → Items → Bool
  some_reference w nil = false
  some_reference w (cons x xs) = contains_reference w x || some_reference w xs

  pub field_reference : Web → Fields → Bool
  field_reference w end = false
  field_reference w (field key value fs) = contains_reference w value || field_reference w fs
