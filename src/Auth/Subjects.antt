-- ===== src/Auth/Subjects.antt =====
-- Which entries of a snapshot make a subject.
use Prim.Native.Char.{code}
use Prim.Native.String.append
use media_bridge.Base.{
  ℕ, String, Bool, true, false, ◌||◌, Option, List, [], ◌∷◌, ◌++◌, ◌≡◌, refl, sym, ap, ◌∙◌, arith,
  all, contains, length, leb, codes, concat, is_alnum, full_match, ◌==◌, number_eq, string_eq,
  eq_iff, split_once, if◌then◌else◌, Bool-cases, inl, inr,
}
use mathlib.Core.Path.{subst}
use media_bridge.Base.{ok, err}
use media_bridge.State.Identifiers.{tenant_accepted, response_id_accepted}
use media_bridge.Transaction.Contracts.{subject_accepted, scope_accepted}
use media_bridge.Auth.{
  subject_error, CredentialEntry, AuthParts, Verifier, allowed_scopes, selector_accepted,
  entry_accepted, subject_of, make_subject, authenticate,
}
use media_bridge.Auth.Accepted.{InOrder, InOrder-authenticate}

codes-concat : (s t : String) → codes (concat s t) ≡ codes s ++ codes t
codes-concat String.[] t = rw (append.nil t) refl
codes-concat (String.◌∷◌ c s) t = rw (append.cons c s t) (ap (λ cs. code c ∷ cs) (codes-concat s t))

all-imp :
    (p q : ℕ → Bool)
    → ((c : ℕ) → p c ≡ true → q c ≡ true)
    → (cs : List ℕ) → all p cs ≡ true
    → all q cs ≡ true
all-imp p q imp [] h = refl
all-imp p q imp (c ∷ cs) h = ground (arith, h, imp c, all-imp p q imp cs)

-- The scopes that an entry may have are well formed.
scope_known : (s : String) → contains s allowed_scopes ≡ true → scope_accepted s ≡ true
unfolding scope_accepted split_once
scope_known s h = elim (Bool-cases (s == "assets:write")) [
  | inl e ↦ subst Accepted (sym ((eq_iff s "assets:write").0 e)) refl
  | inr n ↦ elim (Bool-cases (s == "mcp:invoke")) [
    | inl e ↦ subst Accepted (sym ((eq_iff s "mcp:invoke").0 e)) refl
    | inr n' ↦
        let e : (s == "responses:invoke") ≡ true = ground (arith, h, n, n') in
        subst Accepted (sym ((eq_iff s "responses:invoke").0 e)) refl
  ]
]
  where
    Accepted : String → Type 0
    Accepted q = scope_accepted q ≡ true

scopes_known :
    (scopes : List String)
    → all (λ s. contains s allowed_scopes) scopes ≡ true
    → all scope_accepted scopes ≡ true
scopes_known [] h = refl
scopes_known (s ∷ ss) h = ground (arith, h, scope_known s, scopes_known ss)

abbrev is_selector : ℕ → Bool
is_selector c = is_alnum c || c == b'_' || c == b'-'

abbrev is_tenant : ℕ → Bool
is_tenant c = is_alnum c || c == b'.' || c == b'_' || c == b'-'

abbrev is_id : ℕ → Bool
is_id c = is_alnum c || c == b'.' || c == b'_' || c == b':' || c == b'-'

abbrev pub first_alnum : List ℕ → Bool
first_alnum [] = false
first_alnum (c ∷ cs) = is_alnum c

full_match_id :
    (cs : List ℕ)
    → full_match is_selector is_selector 31 cs ≡ true
    → full_match is_alnum is_id 127 cs ≡ first_alnum cs
full_match_id [] h = refl
full_match_id (c ∷ cs) h =
    let rest : all is_id cs ≡ true =
      all-imp is_selector is_id (λ x e. ground (arith, e)) cs (ground (arith, h)) in
    let short : leb (length cs) 127 ≡ true = ground (arith, h) in rw (rest, short) (ground arith)

full_match_tenant :
    (cs : List ℕ)
    → full_match is_selector is_selector 31 cs ≡ true
    → full_match is_alnum is_tenant 127 (codes "client-" ++ cs) ≡ true
full_match_tenant [] h = absurd (cc h)
full_match_tenant (c ∷ cs) h =
    let rest : all is_tenant cs ≡ true =
      all-imp is_selector is_tenant (λ x e. ground (arith, e)) cs (ground (arith, h)) in
    ground (arith, h, rest)

-- The subject of an accepted entry is accepted exactly if its selector begins with a letter or a digit.
pub subject_accepted-subject_of :
    (e : CredentialEntry)
    → entry_accepted e ≡ true
    → subject_accepted (subject_of e) ≡ first_alnum (codes e.selector)
unfolding subject_accepted entry_accepted selector_accepted response_id_accepted tenant_accepted
subject_accepted-subject_of e h =
    let selector : full_match is_selector is_selector 31 (codes e.selector) ≡ true =
      ground (arith, h) in
    let tenant : full_match is_alnum is_tenant 127 (codes (concat "client-" e.selector)) ≡ true =
      rw (codes-concat "client-" e.selector) (full_match_tenant (codes e.selector) selector) in
    let scopes : all scope_accepted e.scopes ≡ true = scopes_known e.scopes (ground (arith, h)) in
    let some_scope : leb 1 (length e.scopes) ≡ true = ground (arith, h) in
    rw (tenant, scopes, some_scope, full_match_id (codes e.selector) selector) (ground arith)

-- A credential that is in order authenticates its holder, unless its selector begins with `-` or `_`:
-- then the call raises the `ValueError` of `DataPlaneSubject`.
pub authenticate-subject :
    (p : AuthParts) (v : Verifier) (clock : Option ℕ) (authorization : Option String)
    (required_scope : String) (cookie_header : Option String) (e : CredentialEntry)
    → entry_accepted e ≡ true
    → InOrder p v clock authorization required_scope cookie_header e
    → authenticate p v clock authorization required_scope cookie_header
      ≡ (if first_alnum (codes e.selector) then ok (subject_of e) else err subject_error)
unfolding make_subject
authenticate-subject p v clock authorization required_scope cookie_header e h order =
    InOrder-authenticate p v clock authorization required_scope cookie_header e order
    ∙ ap (λ b. if b then ok (subject_of e) else err subject_error) (subject_accepted-subject_of e h)
