-- ===== src/Auth/Accepted.antt =====
-- Who is authenticated.
use media_bridge.Base.{
  ℕ, String, true, false, not, Option, none, some, List, [], ◌∷◌, ◌≡◌, refl, sym, ap, ◌∙◌, ◌↔◌,
  arith, contains, ◌==◌, string_eq, eq_iff,
}
use mathlib.Core.Path.{subst}
use media_bridge.Base.{ok, >>=-eq-ok, raise_if, or_raise, raise_if-ok, or_raise-ok}
use media_bridge.Transaction.Contracts.{Subject}
use media_bridge.Auth.{
  admin_session_not_allowed, credential_invalid, CredentialEntry, AuthParts, Verifier,
  allowed_scopes, find_entry, bearer, selector_of, digest_of, expired, entry_grants, make_subject,
  grant, entry_of_raw, has_cookie, authenticate,
}

-- A credential that is in order: it names an entry of the snapshot that is neither revoked nor expired,
-- has the scope, and holds the token's digest.
pub record InOrder (p : AuthParts) (v : Verifier) (clock : Option ℕ) (authorization : Option String)
    (required_scope : String) (cookie_header : Option String) (e : CredentialEntry) : Type 0 where
  pub raw : String
  pub now : ℕ
  pub no_cookie : has_cookie cookie_header ≡ false
  pub known_scope : contains required_scope allowed_scopes ≡ true
  pub bearer_of : bearer authorization ≡ ok raw
  pub clocked : clock ≡ some now
  pub named : selector_of raw ≡ some e.selector
  pub listed : find_entry e.selector v.entries ≡ some e
  pub not_revoked : e.revoked ≡ false
  pub live : expired now e.expires_at ≡ false
  pub scoped : contains required_scope e.scopes ≡ true
  pub digest : digest_of p v.pepper raw ≡ e.digest

find_entry-selector :
    (selector : String) (es : List CredentialEntry) (e : CredentialEntry)
    → find_entry selector es ≡ some e
    → e.selector ≡ selector
unfolding find_entry
find_entry-selector selector [] e h = absurd (cc h)
find_entry-selector selector (x ∷ es) e h =
    ground (arith, eq_iff x.selector selector, find_entry-selector selector es e)

grant-ok :
    (p : AuthParts) (pepper : List ℕ) (now : ℕ) (required_scope raw : String)
    (found : Option CredentialEntry) (s : Subject)
    → grant p pepper now required_scope raw found ≡ ok s
    → (e : CredentialEntry) × (found ≡ some e)
      × (make_subject e ≡ ok s)
      × (e.revoked ≡ false)
      × (expired now e.expires_at ≡ false)
      × (contains required_scope e.scopes ≡ true)
      × (digest_of p pepper raw ≡ e.digest)
unfolding grant entry_grants
grant-ok p pepper now required_scope raw none s h = absurd (cc h)
grant-ok p pepper now required_scope raw (some e) s h = (
  e,
  refl,
  ground (arith, h),
  ground (arith, h),
  ground (arith, h),
  ground (arith, h),
  ground (arith, h, eq_iff (digest_of p pepper raw) e.digest),
)

entry_of_raw-some :
    (v : Verifier) (named : Option String) (e : CredentialEntry)
    → entry_of_raw v named ≡ some e
    → (named ≡ some e.selector) × (find_entry e.selector v.entries ≡ some e)
unfolding entry_of_raw
entry_of_raw-some v none e h = absurd (cc h)
entry_of_raw-some v (some selector) e h =
    let same = find_entry-selector selector v.entries e h in
    (ap some (sym same), subst (λ q. find_entry q v.entries ≡ some e) (sym same) h)

module _ (p : AuthParts) (v : Verifier) (clock : Option ℕ) (authorization : Option String)
    (required_scope : String) (cookie_header : Option String) where
  authenticate-InOrder :
      (s : Subject)
      → authenticate p v clock authorization required_scope cookie_header ≡ ok s
      → (e : CredentialEntry) × InOrder p v clock authorization required_scope cookie_header e
        × (make_subject e ≡ ok s)
  unfolding authenticate
  authenticate-InOrder s h =
      let (u, cookie, h1) =
        >>=-eq-ok (raise_if (has_cookie cookie_header) admin_session_not_allowed) _ h in
      let (u', scope, h2) =
        >>=-eq-ok (raise_if (not (contains required_scope allowed_scopes)) credential_invalid) _
          h1 in
      let (raw, given, h3) = >>=-eq-ok (bearer authorization) _ h2 in
      let (now, read, h4) = >>=-eq-ok (or_raise clock credential_invalid) _ h3 in
      let (e, found, made, not_revoked, live, scoped, digest) =
        grant-ok p v.pepper now required_scope raw (entry_of_raw v (selector_of raw)) s h4 in
      let (named, listed) = entry_of_raw-some v (selector_of raw) e found in
      (
        e,
        record {
          raw = raw;
          now = now;
          no_cookie = raise_if-ok (has_cookie cookie_header) _ u cookie;
          known_scope =
              ground (arith, raise_if-ok (not (contains required_scope allowed_scopes)) _ u' scope);
          bearer_of = given;
          clocked = or_raise-ok clock _ now read;
          named = named;
          listed = listed;
          not_revoked = not_revoked;
          live = live;
          scoped = scoped;
          digest = digest;
        },
        made,
      )

  pub InOrder-authenticate :
      (e : CredentialEntry)
      → InOrder p v clock authorization required_scope cookie_header e
      → authenticate p v clock authorization required_scope cookie_header ≡ make_subject e
  unfolding authenticate entry_of_raw grant entry_grants
  InOrder-authenticate e o =
      let same : (digest_of p v.pepper o.raw == e.digest) ≡ true =
        (eq_iff (digest_of p v.pepper o.raw) e.digest).1 o.digest in
      rw
        (
          o.no_cookie, o.known_scope, o.bearer_of, o.clocked, o.named, o.listed, o.not_revoked,
          o.live, o.scoped, same,
        )
        refl

  -- A caller is authenticated as a subject exactly if its credential is in order and its entry makes
  -- that subject.
  pub authenticate_iff :
      (s : Subject)
      → (authenticate p v clock authorization required_scope cookie_header ≡ ok s) ↔ (
          (e : CredentialEntry) × InOrder p v clock authorization required_scope cookie_header e
          × (make_subject e ≡ ok s))
  authenticate_iff s =
      (authenticate-InOrder s, λ (e, order, made). InOrder-authenticate e order ∙ made)
