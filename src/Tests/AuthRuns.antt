-- ===== src/Tests/AuthRuns.antt =====
-- A credential of the snapshot at the data plane, and one whose selector begins with a dash.
use media_bridge.Base.{
  String, Option, none, some, true, false, [], ◌∷◌, ◌≡◌, ◌↔◌, refl, starts_with, contains_text,
  remove_prefix, split_once,
}
use media_bridge.Base.{ok, err}
use media_bridge.Auth.{
  CredentialEntry, AuthParts, Verifier, subject_error, selector_accepted, digest_accepted,
  entry_accepted, find_entry, bearer_token, bearer, split_selector, selector_of, digest_of,
  subject_of, make_subject, authenticate,
}
use media_bridge.Auth.Accepted.{InOrder, authenticate_iff}
use media_bridge.Auth.Subjects.{authenticate-subject}

program : Unit {0}
unfolding starts_with contains_text remove_prefix split_once media_bridge.Base.strip
    selector_accepted digest_accepted entry_accepted find_entry bearer_token bearer split_selector
    selector_of digest_of
program = tt

abbrev hex : String
hex = "aaaaaaaaaaaaaaaaaaaaaaaaaaaaaaaaaaaaaaaaaaaaaaaaaaaaaaaaaaaaaaaa"

abbrev parts : AuthParts
parts = record { read_document = λ document. none; encode = λ s. []; hmac_hex = λ key message. hex }

abbrev entry_for : String → CredentialEntry
entry_for selector = record {
  selector = selector;
  digest = hex;
  scopes = "responses:invoke" ∷ [];
  expires_at = some 100;
  revoked = false;
}

abbrev verifier : Verifier
verifier = record { entries = entry_for "abc" ∷ entry_for "-bc" ∷ []; pepper = [] }

order :
    InOrder parts verifier
      (some 50)
      (some "Bearer mbc_abc.key")
      "responses:invoke"
      none
      (entry_for "abc")
unfolding program
order = record {
  raw = "mbc_abc.key";
  now = 50;
  no_cookie = refl;
  known_scope = refl;
  bearer_of = refl;
  clocked = refl;
  named = refl;
  listed = refl;
  not_revoked = refl;
  live = refl;
  scoped = refl;
  digest = refl;
}

dash_order :
    InOrder parts verifier
      (some 50)
      (some "Bearer mbc_-bc.key")
      "responses:invoke"
      none
      (entry_for "-bc")
unfolding program
dash_order = record {
  raw = "mbc_-bc.key";
  now = 50;
  no_cookie = refl;
  known_scope = refl;
  bearer_of = refl;
  clocked = refl;
  named = refl;
  listed = refl;
  not_revoked = refl;
  live = refl;
  scoped = refl;
  digest = refl;
}

authenticate_iff_example :
    (authenticate parts verifier (some 50) (some "Bearer mbc_abc.key") "responses:invoke" none
      ≡ ok (subject_of (entry_for "abc")))
    ↔ ((e : CredentialEntry) × InOrder parts verifier
          (some 50)
          (some "Bearer mbc_abc.key")
          "responses:invoke"
          none
          e
        × (make_subject e ≡ ok (subject_of (entry_for "abc"))))
authenticate_iff_example =
    authenticate_iff parts verifier (some 50) (some "Bearer mbc_abc.key") "responses:invoke" none
      (subject_of (entry_for "abc"))

dash_accepted : entry_accepted (entry_for "-bc") ≡ true
unfolding program
dash_accepted = refl

authenticate-subject_example :
    authenticate parts verifier (some 50) (some "Bearer mbc_-bc.key") "responses:invoke" none
    ≡ err subject_error
authenticate-subject_example =
    authenticate-subject parts verifier (some 50) (some "Bearer mbc_-bc.key") "responses:invoke"
      none (entry_for "-bc") dash_accepted dash_order
