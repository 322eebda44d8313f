-- ===== src/State/Entries.antt =====
-- The `OrderedDict` of a state store, oldest entry first, under keys of a tenant and a response.
use media_bridge.Base.{
  ℕ, ◌≤◌, ◌<◌, String, Bool, false, not, ◌&&◌, Option, none, some, List, [], ◌∷◌, ◌++◌, ◌≡◌, refl,
  arith, length, keep, length-append, length-keep-le, ltb, ◌==◌, string_eq, eq_iff, if◌then◌else◌,
  Bool-cases, inl, inr,
}

pub record Entry (V : Type 0) : Type 0 where
  pub tenant : String
  pub response : String
  pub value : V

module _ {V : Type 0} where
  abbrev pub has_key : String → String → Entry V → Bool
  has_key tenant response e = e.tenant == tenant && e.response == response

  -- `records.get((tenant, response))`
  unfoldable pub lookup : String → String → List (Entry V) → Option V
  lookup tenant response [] = none
  lookup tenant response (e ∷ es) =
      if has_key tenant response e then some e.value else lookup tenant response es

  -- `records.pop((tenant, response), None)`
  unfoldable pub pop : String → String → List (Entry V) → List (Entry V)
  pop tenant response = keep (λ e. not (has_key tenant response e))

  -- `_purge_expired`, over the expiry of a value.
  unfoldable pub purge : (V → ℕ) → ℕ → List (Entry V) → List (Entry V)
  purge expires_at now = keep (λ e. ltb now (expires_at e.value))

  -- `while len(records) > max_entries: records.popitem(last=False)`
  unfoldable pub evict : ℕ → List (Entry V) → List (Entry V)
  evict most [] = []
  evict most (e ∷ es) =
      let rest = evict most es in if ltb most (length (e ∷ es)) then rest else e ∷ es

  -- The write of `put`: the key goes to the end, and the oldest entries make room.
  unfoldable pub store : ℕ → Entry V → List (Entry V) → List (Entry V)
  store most e es = evict most (pop e.tenant e.response es ++ e ∷ [])

  pub length-evict-le : (most : ℕ) (es : List (Entry V)) → length (evict most es) ≤ most
  unfolding evict
  length-evict-le most [] = omega arith
  length-evict-le most (e ∷ es) = ground (arith, length-evict-le most es)

  pub length-store-le :
      (most : ℕ) (e : Entry V) (es : List (Entry V)) → length (store most e es) ≤ most
  unfolding store
  length-store-le most e es = length-evict-le most (pop e.tenant e.response es ++ e ∷ [])

  -- A predicate of every entry.
  abbrev pub All : (Entry V → Type 0) → List (Entry V) → Type 0
  All P [] = Unit
  All P (e ∷ es) = P e × All P es

  pub All-keep :
      (P : Entry V → Type 0) (p : Entry V → Bool) (es : List (Entry V))
      → All P es
      → All P (keep p es)
  All-keep P p [] h = tt
  All-keep P p (e ∷ es) h = ground (arith, All-keep P p es)

  pub All-evict :
      (P : Entry V → Type 0) (most : ℕ) (es : List (Entry V)) → All P es → All P (evict most es)
  unfolding evict
  All-evict P most [] h = tt
  All-evict P most (e ∷ es) h = ground (arith, All-evict P most es)

  pub All-snoc :
      (P : Entry V → Type 0) (es : List (Entry V)) (e : Entry V)
      → All P es
      → P e
      → All P (es ++ e ∷ [])
  All-snoc P [] e h k = (k, tt)
  All-snoc P (x ∷ es) e h k = (h.0, All-snoc P es e h.1 k)

  pub All-store :
      (P : Entry V → Type 0) (most : ℕ) (e : Entry V) (es : List (Entry V))
      → All P es
      → P e
      → All P (store most e es)
  unfolding store pop
  All-store P most e es h k = All-evict P most _ (
      All-snoc P (keep (λ x. not (has_key e.tenant e.response x)) es) e
        (All-keep P (λ x. not (has_key e.tenant e.response x)) es h) k)

  -- What a lookup finds has the predicate.
  pub All-lookup :
      (P : Entry V → Type 0) (tenant response : String) (es : List (Entry V)) (v : V)
      → All P es
      → lookup tenant response es ≡ some v
      → (e : Entry V) × P e × (e.tenant ≡ tenant) × (e.response ≡ response) × (e.value ≡ v)
  unfolding lookup
  All-lookup P tenant response [] v h k = absurd (cc k)
  All-lookup P tenant response (e ∷ es) v h k = elim (Bool-cases (has_key tenant response e)) [
    | inl here ↦ (
      e,
      h.0,
      ground (arith, eq_iff e.tenant tenant),
      ground (arith, eq_iff e.response response),
      ground arith,
    )
    | inr later ↦ All-lookup P tenant response es v h.1 (ground arith)
  ]

  pub lookup-pop :
      (tenant response : String) (es : List (Entry V))
      → lookup tenant response (pop tenant response es) ≡ none
  unfolding lookup pop
  lookup-pop tenant response [] = refl
  lookup-pop tenant response (e ∷ es) = ground (arith, lookup-pop tenant response es)

  pub lookup-snoc :
      (es : List (Entry V)) (e : Entry V)
      → lookup e.tenant e.response es ≡ none
      → lookup e.tenant e.response (es ++ e ∷ []) ≡ some e.value
  unfolding lookup
  lookup-snoc [] e h = ground (arith, eq_iff e.tenant e.tenant, eq_iff e.response e.response)
  lookup-snoc (x ∷ es) e h = ground (arith, lookup-snoc es e)

  -- The newest entry is the last that eviction takes.
  lookup-evict_snoc :
      (most : ℕ) (es : List (Entry V)) (e : Entry V)
      → 1 ≤ most
      → lookup e.tenant e.response es ≡ none
      → lookup e.tenant e.response (evict most (es ++ e ∷ [])) ≡ some e.value
  unfolding evict lookup
  lookup-evict_snoc most [] e h k =
      ground (arith, eq_iff e.tenant e.tenant, eq_iff e.response e.response)
  lookup-evict_snoc most (x ∷ es) e h k =
      ground (arith, lookup-evict_snoc most es e, lookup-snoc es e)

  pub lookup-store_self :
      (most : ℕ) (e : Entry V) (es : List (Entry V))
      → 1 ≤ most
      → lookup e.tenant e.response (store most e es) ≡ some e.value
  unfolding store
  lookup-store_self most e es h =
      lookup-evict_snoc most (pop e.tenant e.response es) e h (lookup-pop e.tenant e.response es)

  length-pop-le :
      (tenant response : String) (es : List (Entry V)) → length (pop tenant response es) ≤ length es
  unfolding pop
  length-pop-le tenant response es = length-keep-le (λ e. not (has_key tenant response e)) es

  evict_of_length-le : (most : ℕ) (es : List (Entry V)) → length es ≤ most → evict most es ≡ es
  unfolding evict
  evict_of_length-le most [] h = refl
  evict_of_length-le most (e ∷ es) h = ground arith

  lookup-snoc_ne :
      (tenant response : String) (es : List (Entry V)) (e : Entry V)
      → has_key tenant response e ≡ false
      → lookup tenant response (pop e.tenant e.response es ++ e ∷ []) ≡ lookup tenant response es
  unfolding lookup pop
  lookup-snoc_ne tenant response [] e h = ground arith
  lookup-snoc_ne tenant response (x ∷ es) e h = ground (
    arith,
    eq_iff x.tenant tenant,
    eq_iff x.response response,
    eq_iff x.tenant e.tenant,
    eq_iff x.response e.response,
    eq_iff e.tenant tenant,
    eq_iff e.response response,
    lookup-snoc_ne tenant response es e,
  )

  -- While there is room, a write leaves the entries under other keys as they are.
  pub lookup-store_ne :
      (most : ℕ) (tenant response : String) (e : Entry V) (es : List (Entry V))
      → length es < most
      → has_key tenant response e ≡ false
      → lookup tenant response (store most e es) ≡ lookup tenant response es
  unfolding store
  lookup-store_ne most tenant response e es room other =
      rw
        (evict_of_length-le most (pop e.tenant e.response es ++ e ∷ []) (
          omega (
            arith,
            length-append (pop e.tenant e.response es) (e ∷ []),
            length-pop-le e.tenant e.response es,
          )))
        (lookup-snoc_ne tenant response es e other)

  -- A live entry survives the purge.
  pub lookup-purge :
      (expires_at : V → ℕ) (now : ℕ) (tenant response : String) (es : List (Entry V)) (v : V)
      → lookup tenant response es ≡ some v
      → now < expires_at v
      → lookup tenant response (purge expires_at now es) ≡ some v
  unfolding lookup purge
  lookup-purge expires_at now tenant response [] v h live = cc
  lookup-purge expires_at now tenant response (e ∷ es) v h live =
      ground (arith, lookup-purge expires_at now tenant response es v)

  -- An entry that is over does not survive it.
  pub lookup-purge_over :
      (expires_at : V → ℕ) (now : ℕ) (es : List (Entry V)) (e : Entry V)
      → lookup e.tenant e.response es ≡ none
      → expires_at e.value ≤ now
      → lookup e.tenant e.response (purge expires_at now (es ++ e ∷ [])) ≡ none
  unfolding lookup purge
  lookup-purge_over expires_at now [] e h over = ground arith
  lookup-purge_over expires_at now (x ∷ es) e h over =
      ground (arith, lookup-purge_over expires_at now es e)

  -- After the purge every entry is live.
  pub All-purge :
      (expires_at : V → ℕ) (now : ℕ) (es : List (Entry V))
      → All (λ e. now < expires_at e.value) (purge expires_at now es)
  unfolding purge
  All-purge expires_at now [] = tt
  All-purge expires_at now (e ∷ es) = ground (arith, All-purge expires_at now es)
