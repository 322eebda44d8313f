-- ===== src/RateLimit/Grants.antt =====
-- What a call takes from the balance of its key.
use media_bridge.Base.{
  ℕ, ◌+◌, ◌-◌, ◌*◌, String, Bool, true, false, Option, none, some, List, [], ◌∷◌, ◌++◌, ◌≡◌, refl,
  inl, inr, arith, length, ltb, leb, if◌then◌else◌, Bool-cases,
}
use media_bridge.State.Entries.{
  Entry, lookup, pop, lookup-pop, lookup-purge, lookup-purge_over, lookup-snoc,
}
use mathlib.Core.Path.{subst}
use media_bridge.RateLimit.{
  Bucket, Limiter, idle_at, purge_idle, full_bucket, refilled, write_bucket, spend, take,
  call_accepted, allow,
}
use media_bridge.RateLimit.Spends.{HasRoom}

-- The smaller of two numbers.
abbrev pub smaller : ℕ → ℕ → ℕ
smaller a b = if leb a b then a else b

-- What a balance of `n` tokens has grown to: `rate` for every unit of time, up to the capacity.
abbrev pub grown : ℕ → ℕ → ℕ → ℕ → ℕ
grown capacity rate since n = smaller capacity (n + since * rate)

-- A key without a bucket has the capacity.
abbrev pub balance : ℕ → Limiter → Option Bucket → ℕ
balance now l none = l.capacity
balance now l (some b) = grown l.capacity l.refill (now - b.updated_at) b.tokens

-- What a key may spend at an instant.
unfoldable pub available : String → String → ℕ → Limiter → ℕ
available selector route now l = balance now l (lookup selector route (purge_idle now l))

-- A call that was granted took its cost, and one that was not took nothing.
abbrev pub after : ℕ → ℕ → ℕ
after cost n = if leb cost n then n - cost else n

-- The balance at a later instant: the capacity once the key has been idle, and else what was left, grown
-- since.
abbrev pub later_balance : Limiter → ℕ → ℕ → ℕ → ℕ
later_balance l now later n =
    if leb (now + l.idle_ttl) later then l.capacity else grown l.capacity l.refill (later - now) n

-- The code's refill is that of the balance.
refilled-balance :
    (now : ℕ) (l : Limiter) (b : Bucket) → (refilled now l b).tokens ≡ balance now l (some b)
unfolding refilled
refilled-balance now l b = ground arith

available-write_bucket :
    (selector route : String) (now later n : ℕ) (es : List (Entry Bucket)) (l : Limiter)
    → available selector route later (record l {
      buckets =
          write_bucket selector route
            (record { tokens = n; updated_at = now; last_seen_at = now })
            es;
    })
      ≡ later_balance l now later n
unfolding available write_bucket purge_idle
available-write_bucket selector route now later n es l =
    let b : Bucket = record { tokens = n; updated_at = now; last_seen_at = now } in
    let e : Entry Bucket = record { tenant = selector; response = route; value = b } in
    let unlisted = lookup-pop selector route es in
    elim (Bool-cases (leb (now + l.idle_ttl) later)) [
      | inl over ↦
          rw
            (
              lookup-purge_over (idle_at l.idle_ttl) later (pop selector route es) e unlisted
                  (ground (arith, over)),
              over,
            )
            refl
      | inr live ↦
          rw
            (
              lookup-purge (idle_at l.idle_ttl) later selector route
                  (pop selector route es ++ e ∷ []) b
                  (lookup-snoc (pop selector route es) e unlisted) (ground (arith, live)),
              live,
            )
            refl
    ]

-- The answer, and the balance at a later instant, of a call at `now` on a balance of `n`.
abbrev pub Grants : String → String → ℕ → ℕ → ℕ → ℕ → Limiter → Bool × Limiter → Type 0
Grants selector route cost now later n l (granted, l') =
    (granted ≡ leb cost n)
    × (available selector route later l' ≡ later_balance l now later (after cost n))

spend-Grants :
    (selector route : String) (cost now later n : ℕ) (es : List (Entry Bucket)) (l : Limiter)
    → Grants selector route cost now later n l (
        spend selector route cost
          (record { tokens = n; updated_at = now; last_seen_at = now })
          es
          l)
unfolding spend
spend-Grants selector route cost now later n es l = elim (Bool-cases (ltb n cost)) [
  | inl short ↦
      let low : leb cost n ≡ false = ground (arith, short) in
      rw (short, low) (refl, available-write_bucket selector route now later n es l)
  | inr enough ↦
      let high : leb cost n ≡ true = ground (arith, enough) in
      rw (enough, high) (refl, available-write_bucket selector route now later (n - cost) es l)
]

take-Grants :
    (selector route : String) (cost now later : ℕ) (found : Option Bucket)
    (es : List (Entry Bucket)) (l : Limiter)
    → lookup selector route es ≡ found
    → HasRoom selector route es l
    → Grants selector route cost now later
        (balance now l found)
        l
        (take selector route cost now found es l)
unfolding take full_bucket refilled
take-Grants selector route cost now later (some b) es l known room =
    subst
      (λ n. Grants selector route cost now later n l (take selector route cost now (some b) es l))
      (refilled-balance now l b)
      (spend-Grants selector route cost now later (refilled now l b).tokens es l)
take-Grants selector route cost now later none es l known (inl (b, found)) = absurd (cc)
take-Grants selector route cost now later none es l known (inr room) =
    let open_key : leb l.max_keys (length es) ≡ false = ground (arith, room) in
    rw open_key (spend-Grants selector route cost now later l.capacity es l)

-- An accepted call at `now` on a key that has a bucket, or room for one, is granted exactly if the
-- balance of its key covers its cost, and at any instant the balance behind it is what the call left (all
-- but the cost if it was granted, else all), grown by the refill for the time since then up to the
-- capacity, no time if the clock went back; and the capacity once the key has been idle for its lifetime.
pub allow-Grants :
    (selector route : String) (cost now later : ℕ) (l : Limiter)
    → call_accepted selector route cost l ≡ true
    → HasRoom selector route (purge_idle now l) l
    → Grants selector route cost now later
        (available selector route now l)
        l
        (allow selector route cost now l)
unfolding allow available
allow-Grants selector route cost now later l accepted room = rw accepted (
    take-Grants selector route cost now later (lookup selector route (purge_idle now l))
      (purge_idle now l) l refl room)
