-- ===== src/Responses/Locators.antt =====
-- What a data URI that is read is made of.
use media_bridge.Base.{
  ℕ, ◌≤◌, String, true, not, ◌||◌, Option, none, some, List, ◌≡◌, refl, ap, ◌∙◌, remove_prefix,
  remove_suffix, arith, length, contains, is_blank, concat, ◌==◌, string_eq, eq_iff, starts_with,
  contains_text, split_once, split_once-parts,
}
use media_bridge.Base.{Result, ok, err, >>=-eq-ok}
use media_bridge.Responses.References.{Web, NormalizationError, escaped, reject_if}
use media_bridge.Responses.Parts.{
  decode_data_uri, read_data_uri, check_bytes, header_of, locator_error,
}

-- The locator of a mime type and of encoded bytes.
abbrev pub data_uri : String → String → String
data_uri mime encoded = concat (header_of mime) (concat "," encoded)

-- A bounded number of bytes.
pub record Decoded (w : Web) (allowed : List String) (value mime encoded : String) : Type 0 where
  pub bytes : List ℕ
  pub locator : value ≡ data_uri mime encoded
  pub permitted : contains mime allowed ≡ true
  pub decoded : w.b64decode encoded ≡ some bytes
  pub nonempty : 1 ≤ length bytes
  pub bounded : length bytes ≤ 2097152

check_bytes-ok :
    (found : Option (List ℕ)) (u : Unit {0})
    → check_bytes found ≡ ok u
    → (bytes : List ℕ) × (found ≡ some bytes) × (1 ≤ length bytes) × (length bytes ≤ 2097152)
unfolding check_bytes
check_bytes-ok none u h = absurd (cc h)
check_bytes-ok (some bytes) u h = (bytes, refl, ground arith, ground arith)

read_data_uri-Decoded :
    (w : Web) (allowed : List String) (header encoded mime code : String)
    → read_data_uri w allowed header encoded ≡ ok (mime, code)
    → (header ≡ header_of mime)
      × (encoded ≡ code)
      × (contains mime allowed ≡ true)
      × ((bytes : List ℕ) × (w.b64decode code ≡ some bytes)
          × (1 ≤ length bytes)
          × (length bytes ≤ 2097152))
unfolding read_data_uri
read_data_uri-Decoded w allowed header encoded mime code h =
    let found = remove_suffix ";base64" (remove_prefix "data:" header) in
    let (u, tests, rest) =
      >>=-eq-ok
        (reject_if
          (not (header == header_of found) || (not (contains found allowed) || is_blank encoded))
          locator_error)
        _ h in
    let (v, checked, last) = >>=-eq-ok (check_bytes (w.b64decode encoded)) _ rest in
    let (bytes, decoded, least, most) = check_bytes-ok (w.b64decode encoded) v checked in
    let same : found ≡ mime = ground arith in
    let code' : encoded ≡ code = ground arith in
    let header' : header ≡ header_of found =
      ground (arith, tests, eq_iff header (header_of found)) in
    (
      header' ∙ ap header_of same,
      code',
      rw (← same) (ground (arith, tests)),
      (bytes, rw (← code') decoded, least, most),
    )

-- A data URI that is read is exactly the locator of the mime type and the encoding that come out, its
-- mime type is permitted, and the encoding is that of between 1 and 2 097 152 bytes.
pub decode_data_uri-Decoded :
    (w : Web) (allowed : List String) (value mime encoded : String)
    → decode_data_uri w allowed value ≡ ok (mime, encoded)
    → Decoded w allowed value mime encoded
unfolding decode_data_uri
decode_data_uri-Decoded w allowed value mime encoded h =
    let (u, tests, rest) =
      >>=-eq-ok
        (reject_if (not (starts_with "data:" value) || not (contains_text ";base64," value))
          locator_error)
        _ h in
    from_split (split_once "," value) refl rest
  where
    from_split :
        (parts : Option (String × String))
        → split_once "," value ≡ parts
        → elim parts as (λ x. Result NormalizationError (String × String)) [
          | none ↦ err escaped
          | some (header, code) ↦ read_data_uri w allowed header code
        ]
          ≡ ok (mime, encoded)
        → Decoded w allowed value mime encoded
    from_split none e k = absurd (cc k)
    from_split (some (header, code)) e k =
        let (header', code', permitted, (bytes, decoded, least, most)) =
          read_data_uri-Decoded w allowed header code mime encoded k in
        record {
          bytes = bytes;
          locator = rw (← header', ← code') (split_once-parts "," value header code e);
          permitted = permitted;
          decoded = decoded;
          nonempty = least;
          bounded = most;
        }
