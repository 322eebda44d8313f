-- ===== src/Responses/Parts.antt =====
-- The content of one user message (media_bridge/openai_responses.py).
use media_bridge.Base.{
  ℕ, String, Bool, true, false, not, ◌&&◌, ◌||◌, Option, none, some, List, [], ◌∷◌, all, contains,
  length, ltb, is_blank, is_some, concat, join, strip, ◌==◌, string_eq, if◌then◌else◌, starts_with,
  contains_text, remove_prefix, remove_suffix, split_once,
}
use media_bridge.Base.{Result, ok, err, ◌>>=◌, ◌>>◌}
use media_bridge.Json.{Json, null, text, array, object, Items, nil, cons}
use media_bridge.Json.{Fields, get, has_key, keys}
use media_bridge.Contracts.{
  MediaType, image, pdf, MediaSource, base64_source, asset_source, url_source, ContentPart,
  text_part, media_part, source_accepted, part_accepted,
}
use media_bridge.Responses.References.{
  Web, SplitUrl, NormalizationError, escaped, unsupported, invalid, user_required, reject_if,
  is_null, text_in,
}

abbrev image_mimes : List String
image_mimes = "image/png" ∷ "image/jpeg" ∷ "image/webp" ∷ []

abbrev pub pdf_mime : String
pdf_mime = "application/pdf"

abbrev max_media_bytes : ℕ
max_media_bytes = 2097152

-- `set(item).issubset(allowed)`
abbrev pub keys_within : List String → Fields → Bool
keys_within allowed fs = all (λ key. contains key allowed) (keys fs)

-- A part that its constructor accepts; its `ValidationError` is not caught.
abbrev pub validated : ContentPart → Result NormalizationError ContentPart
validated part = if part_accepted part then ok part else err escaped

-- The end of `_decode_data_uri`.
unfoldable pub check_bytes : Option (List ℕ) → Result NormalizationError (Unit {0})
check_bytes none = invalid "Media data is not valid base64."
check_bytes (some bytes) =
    reject_if (ltb (length bytes) 1 || ltb max_media_bytes (length bytes))
      (invalid "Media data is empty or oversized.")

abbrev pub locator_error : Result NormalizationError (Unit {0})
locator_error = unsupported "Media locator is not supported."

abbrev pub header_of : String → String
header_of mime = concat "data:" (concat mime ";base64")

-- `_decode_data_uri` once the locator has been split: the mime type and the encoded bytes.
unfoldable pub read_data_uri :
    Web → List String → String → String → Result NormalizationError (String × String)
read_data_uri w allowed header encoded = do
  let mime = remove_suffix ";base64" (remove_prefix "data:" header)
  reject_if (not (header == header_of mime) || (not (contains mime allowed) || is_blank encoded))
      locator_error
  check_bytes (w.b64decode encoded)
  ok (mime, encoded)

-- `_decode_data_uri`; a locator with `;base64,` has a comma.
unfoldable pub decode_data_uri :
    Web → List String → String → Result NormalizationError (String × String)
decode_data_uri w allowed value = do
  reject_if (not (starts_with "data:" value) || not (contains_text ";base64," value)) locator_error
  elim (split_once "," value) [
    | none ↦ err escaped
    | some (header, encoded) ↦ read_data_uri w allowed header encoded
  ]

-- `_asset_source`
unfoldable pub asset_of : String → Result NormalizationError MediaSource
asset_of value =
    if source_accepted (asset_source value)
    then ok (asset_source value)
    else unsupported "Asset identifier is not supported."

abbrev pub as_optional_text : Json → Option String
as_optional_text (text s) = some s
as_optional_text _ = none

abbrev pub is_text : Json → Bool
is_text (text _) = true
is_text _ = false

-- `value not in {...}` for a value that is hashed first: an array or an object raises a `TypeError`.
abbrev pub hashable : Json → Result NormalizationError (Unit {0})
hashable (array _) = err escaped
hashable (object _) = err escaped
hashable _ = ok tt

-- The locator of an image that is no data URI.
unfoldable pub url_image : String → Option SplitUrl → Result NormalizationError ContentPart
url_image locator none = err escaped
url_image locator (some u) = do
  reject_if
      (not (u.scheme == "https")
        || (not (is_some u.hostname)
            || (is_some u.username || (is_some u.password || not (is_blank u.fragment)))))
      (unsupported "Image locator is not supported.")
  validated (
      media_part (record {
        media_type = image;
        source = url_source locator;
        filename = none;
        declared_mime = none;
      }))

-- The parts of the current message, and the text of its user.
pub record Current : Type 0 where
  pub parts : List ContentPart
  pub user_text : String

-- The text sections that the loop of `_current_content` collects.
unfoldable pub sections_of : List ContentPart → List String
sections_of [] = []
sections_of (text_part s ∷ parts) = s ∷ sections_of parts
sections_of (media_part _ ∷ parts) = sections_of parts

module _ (w : Web) where
  abbrev data_part :
      MediaType → Option String → String × String → Result NormalizationError ContentPart
  data_part media_type filename (mime, encoded) = validated (
      media_part (record {
        media_type = media_type;
        source = base64_source encoded;
        filename = filename;
        declared_mime = some mime;
      }))

  unfoldable pub data_image : String → Result NormalizationError ContentPart
  data_image locator = do
    decoded ← decode_data_uri w image_mimes locator
    data_part image none decoded

  -- `_image_part` where there is no asset identifier.
  unfoldable pub located_image : Json → Result NormalizationError ContentPart
  located_image (text locator) =
      if starts_with "data:" locator
      then data_image locator
      else url_image locator (w.urlsplit locator)
  located_image _ = unsupported "Image locator is not supported."

  unfoldable pub asset_image : Json → Json → Result NormalizationError ContentPart
  asset_image (text value) null = do
    source ← asset_of value
    validated (
        media_part
          (record { media_type = image; source = source; filename = none; declared_mime = none }))
  asset_image _ _ = unsupported "Image locator is not supported."

  abbrev image_keys : List String
  image_keys = "type" ∷ "image_url" ∷ "asset_id" ∷ "detail" ∷ "file_id" ∷ "file_url" ∷ []

  -- `_image_part`
  unfoldable pub image_part : Fields → Result NormalizationError ContentPart
  image_part item = do
    reject_if (not (is_null (get "file_id" item)) || not (is_null (get "file_url" item)))
        (unsupported "Provider media identifiers are not supported.")
    reject_if (not (keys_within image_keys item))
        (invalid "Image input contains unsupported fields.")
    hashable (get "detail" item)
    reject_if
        (not (is_null (get "detail" item))
          && not (text_in ("auto" ∷ "low" ∷ "high" ∷ []) (get "detail" item)))
        (invalid "Image detail value is invalid.")
    if is_null (get "asset_id" item)
        then located_image (get "image_url" item)
        else asset_image (get "asset_id" item) (get "image_url" item)

  abbrev check_filename : Json → Result NormalizationError (Unit {0})
  check_filename name =
      reject_if (not (is_null name) && not (is_text name)) (invalid "File name is invalid.")

  unfoldable pub located_pdf : Json → Json → Result NormalizationError ContentPart
  located_pdf (text locator) name = do
    decoded ← decode_data_uri w (pdf_mime ∷ []) locator
    check_filename name
    data_part pdf (as_optional_text name) decoded
  located_pdf _ name = unsupported "File locator is not supported."

  unfoldable pub asset_pdf : Json → Json → Json → Result NormalizationError ContentPart
  asset_pdf (text value) null name = do
    check_filename name
    source ← asset_of value
    validated (
        media_part (record {
          media_type = pdf;
          source = source;
          filename = as_optional_text name;
          declared_mime = some pdf_mime;
        }))
  asset_pdf _ _ name = unsupported "File locator is not supported."

  abbrev pdf_keys : List String
  pdf_keys = "type" ∷ "file_data" ∷ "asset_id" ∷ "filename" ∷ "file_id" ∷ "file_url" ∷ []

  -- `_pdf_part`
  unfoldable pub pdf_part : Fields → Result NormalizationError ContentPart
  pdf_part item = do
    reject_if (not (is_null (get "file_id" item)) || not (is_null (get "file_url" item)))
        (unsupported "Provider file identifiers are not supported.")
    reject_if (not (keys_within pdf_keys item)) (invalid "File input contains unsupported fields.")
    if is_null (get "asset_id" item)
        then located_pdf (get "file_data" item) (get "filename" item)
        else asset_pdf (get "asset_id" item) (get "file_data" item) (get "filename" item)

  -- `part_type == name`
  abbrev typed : String → Fields → Bool
  typed name item = text_in (name ∷ []) (get "type" item)

  unfoldable pub input_text : Fields → Json → Result NormalizationError ContentPart
  input_text item (text s) =
      if keys_within ("type" ∷ "text" ∷ []) item && has_key "type" item
      then validated (text_part s)
      else invalid "Text input is malformed."
  input_text item _ = invalid "Text input is malformed."

  -- The body of the loop of `_current_content`.
  unfoldable pub read_part : Json → Result NormalizationError ContentPart
  read_part (object item) =
      if typed "input_text" item
      then input_text item (get "text" item)
      else if typed "input_image" item
      then image_part item
      else if typed "input_file" item
      then pdf_part item
      else invalid "Current user content type is not supported."
  read_part _ = invalid "Current user content is malformed."

  unfoldable pub read_parts : Items → Result NormalizationError (List ContentPart)
  read_parts nil = ok []
  read_parts (cons x xs) = do part ← read_part x; parts ← read_parts xs; ok (part ∷ parts)

  -- `_current_content`
  unfoldable pub current_content : Json → Result NormalizationError Current
  current_content (text s) = do
    reject_if (is_blank s) user_required
    part ← validated (text_part s)
    ok (record { parts = part ∷ []; user_text = s })
  current_content (array (cons x xs)) = do
    parts ← read_parts (cons x xs)
    ok (record { parts = parts; user_text = strip (join "\n" (sections_of parts)) })
  current_content _ = user_required
