-- ===== src/Auth.antt =====
-- Data-plane authentication from one signed snapshot (media_bridge_gateway/auth.py).
pub mod Accepted
pub mod Subjects
use media_bridge.Base.{
  ℕ, String, Bool, true, false, not, ◌&&◌, ◌||◌, Option, none, some, List, [], ◌∷◌, map, all,
  contains, distinct, length, ltb, leb, codes, text_length, is_blank, is_alnum, is_digit, between,
  full_match, concat, strip, starts_with, contains_text, remove_prefix, split_once, ◌==◌, number_eq,
  string_eq, if◌then◌else◌,
}
use media_bridge.Base.{Result, ok, err, ◌>>=◌, ◌>>◌, raise_if, or_raise}
use media_bridge.Json.{Json}
use media_bridge.Transaction.Contracts.{Subject, subject_accepted}

abbrev allowed_scopes : List String
allowed_scopes = "assets:write" ∷ "mcp:invoke" ∷ "responses:invoke" ∷ []

pub record CredentialEntry : Type 0 where
  pub selector : String
  pub digest : String
  pub scopes : List String
  pub expires_at : Option ℕ
  pub revoked : Bool

-- A `CredentialAuthenticationError` with its code; the `SnapshotVerificationError` and the `ValueError`
-- of the constructor; and `subject_error`, the `ValueError` of `DataPlaneSubject`.
pub data AuthError : Type 0 where
  credential_invalid admin_session_not_allowed : AuthError
  invalid_document duplicate_selectors short_pepper subject_error : AuthError

abbrev is_selector : ℕ → Bool
is_selector c = is_alnum c || c == b'_' || c == b'-'

-- `^[A-Za-z0-9_-]{1,32}$`
unfoldable pub selector_accepted : String → Bool
selector_accepted s = full_match is_selector is_selector 31 (codes s)

-- `^[0-9a-f]{64}$`
unfoldable pub digest_accepted : String → Bool
digest_accepted s = all (λ c. is_digit c || between b'a' b'f' c) (codes s) && text_length s == 64

-- The constraints of `SnapshotCredentialEntry`; a set has every scope once.
unfoldable pub entry_accepted : CredentialEntry → Bool
unfolding selector_accepted digest_accepted
entry_accepted e =
    selector_accepted e.selector
    && (digest_accepted e.digest
        && (distinct e.scopes
            && (leb 1 (length e.scopes) && all (λ s. contains s allowed_scopes) e.scopes)))

-- What the libraries do: pydantic's reading of a document before its constraints, UTF-8, and HMAC-SHA256
-- in hexadecimal digits.
pub record AuthParts : Type 0 where
  pub read_document : Json → Option (List CredentialEntry)
  pub encode : String → List ℕ
  pub hmac_hex : List ℕ → List ℕ → String

pub record Verifier : Type 0 where
  pub entries : List CredentialEntry
  pub pepper : List ℕ

-- `SnapshotAuthDocument.model_validate`
unfoldable pub validate_document : AuthParts → Json → Result AuthError (List CredentialEntry)
validate_document p document = do
  entries ← or_raise (p.read_document document) invalid_document
  raise_if (ltb 10000 (length entries) || not (all entry_accepted entries)) invalid_document
  ok entries

unfoldable pub document_entries : AuthParts → Option Json → Result AuthError (List CredentialEntry)
document_entries p none = ok []
document_entries p (some document) = validate_document p document

-- `SnapshotCredentialVerifier.__init__`, on the snapshot's `data_plane_auth`.
unfoldable pub make_verifier : AuthParts → Option Json → List ℕ → Result AuthError Verifier
make_verifier p document pepper = do
  raise_if (ltb (length pepper) 32) short_pepper
  entries ← document_entries p document
  raise_if (not (distinct (map (λ e. e.selector) entries))) duplicate_selectors
  ok (record { entries = entries; pepper = pepper })

-- `self._entries.get(selector)`
unfoldable pub find_entry : String → List CredentialEntry → Option CredentialEntry
find_entry selector [] = none
find_entry selector (e ∷ es) = if e.selector == selector then some e else find_entry selector es

-- `_bearer`
unfoldable pub bearer_token : String → Result AuthError String
bearer_token authorization = do
  raise_if (not (starts_with "Bearer " authorization)) credential_invalid
  let raw = remove_prefix "Bearer " authorization
  raise_if
      (is_blank raw
        || (not (strip raw == raw) || (contains_text " " raw || ltb 160 (text_length raw))))
      credential_invalid
  ok raw

unfoldable pub bearer : Option String → Result AuthError String
bearer none = err credential_invalid
bearer (some authorization) = bearer_token authorization

unfoldable pub split_selector : Option (String × String) → Option String
split_selector none = none
split_selector (some (selector, secret)) =
    if not (selector_accepted selector) || (is_blank secret || ltb 64 (text_length secret))
    then none
    else some selector

-- `_selector`; a text with a dot is split at it.
unfoldable pub selector_of : String → Option String
selector_of raw =
    if not (starts_with "mbc_" raw) || not (contains_text "." raw)
    then none
    else split_selector (split_once "." (remove_prefix "mbc_" raw))

-- `_digest`; the two texts are joined by one zero character.
unfoldable pub digest_of : AuthParts → List ℕ → String → String
digest_of p pepper raw = p.hmac_hex pepper (p.encode (concat "client_credential" (concat "\0" raw)))

abbrev expired : ℕ → Option ℕ → Bool
expired now none = false
expired now (some t) = leb t now

-- The tests of an entry that was found.
unfoldable pub entry_grants : AuthParts → List ℕ → ℕ → String → String → CredentialEntry → Bool
entry_grants p pepper now required_scope raw e = not (
    e.revoked
    || (expired now e.expires_at
        || (not (contains required_scope e.scopes) || not (digest_of p pepper raw == e.digest))))

abbrev pub subject_of : CredentialEntry → Subject
subject_of e = record {
  credential_selector = e.selector;
  tenant_id = concat "client-" e.selector;
  scopes = e.scopes;
}

unfoldable pub make_subject : CredentialEntry → Result AuthError Subject
make_subject e = if subject_accepted (subject_of e) then ok (subject_of e) else err subject_error

unfoldable pub grant :
    AuthParts → List ℕ → ℕ → String → String → Option CredentialEntry → Result AuthError Subject
grant p pepper now required_scope raw none = err credential_invalid
grant p pepper now required_scope raw (some e) =
    if entry_grants p pepper now required_scope raw e
    then make_subject e
    else err credential_invalid

unfoldable pub entry_of_raw : Verifier → Option String → Option CredentialEntry
entry_of_raw v none = none
entry_of_raw v (some selector) = find_entry selector v.entries

-- A cookie header that holds more than space.
abbrev pub has_cookie : Option String → Bool
has_cookie none = false
has_cookie (some cookie) = not (is_blank (strip cookie))

-- `authenticate`; the clock's reading is none where it has no time zone.
unfoldable pub authenticate :
    AuthParts
    → Verifier
    → Option ℕ
    → Option String
    → String
    → Option String
    → Result AuthError Subject
authenticate p v clock authorization required_scope cookie_header = do
  raise_if (has_cookie cookie_header) admin_session_not_allowed
  raise_if (not (contains required_scope allowed_scopes)) credential_invalid
  raw ← bearer authorization
  now ← or_raise clock credential_invalid
  grant p v.pepper now required_scope raw (entry_of_raw v (selector_of raw))
