-- ===== src/RateLimit/Spends.antt =====
-- What the limiter keeps, and what a call takes from its bucket.
use media_bridge.Base.{
  ℕ, ◌-◌, ◌≤◌, ◌<◌, String, Option, none, some, List, [], ◌∷◌, ◌≡◌, refl, ◌⊎◌, inl, inr, arith,
  length, keep, not, length-append, length-keep-le, ltb, leb, string_eq, Bool-cases,
}
use media_bridge.Base.{ok}
use media_bridge.State.Entries.{Entry, lookup, pop, purge, has_key, All, All-keep, All-snoc}
use media_bridge.RateLimit.{
  Bucket, Limiter, make_limiter, least, idle_at, purge_idle, full_bucket, refilled, write_bucket,
  spend, take, call_accepted, allow,
}

abbrev pub Within : ℕ → Entry Bucket → Type 0
Within capacity e = e.value.tokens ≤ capacity

pub record IsValid (l : Limiter) : Type 0 where
  pub keys : length l.buckets ≤ l.max_keys
  pub idle : 1 ≤ l.idle_ttl
  pub within : All (Within l.capacity) l.buckets

pub make_limiter-IsValid :
    (capacity refill max_keys idle_ttl : ℕ) (l : Limiter)
    → make_limiter capacity refill max_keys idle_ttl ≡ ok l
    → IsValid l
unfolding make_limiter
make_limiter-IsValid capacity refill max_keys idle_ttl l h = ground arith

length-pop-lt :
    (selector route : String) (es : List (Entry Bucket)) (b : Bucket)
    → lookup selector route es ≡ some b
    → length (pop selector route es) < length es
unfolding lookup pop
length-pop-lt selector route [] b h = absurd (cc h)
length-pop-lt selector route (e ∷ es) b h = ground (
  arith,
  length-pop-lt selector route es b,
  length-keep-le (λ x. not (has_key selector route x)) es,
)

length-pop-le :
    (selector route : String) (es : List (Entry Bucket))
    → length (pop selector route es) ≤ length es
unfolding pop
length-pop-le selector route es = length-keep-le (λ x. not (has_key selector route x)) es

-- There is a bucket, or room for one.
abbrev pub HasRoom : String → String → List (Entry Bucket) → Limiter → Type 0
HasRoom selector route es l =
    ((b : Bucket) × (lookup selector route es ≡ some b)) ⊎ (length es < l.max_keys)

pop-room :
    (selector route : String) (es : List (Entry Bucket)) (l : Limiter)
    → length es ≤ l.max_keys
    → HasRoom selector route es l
    → length (pop selector route es) < l.max_keys
pop-room selector route es l h (inl (b, found)) =
    omega (arith, length-pop-lt selector route es b found)
pop-room selector route es l h (inr room) = omega (arith, length-pop-le selector route es)

write_bucket-IsValid :
    (selector route : String) (b : Bucket) (es : List (Entry Bucket)) (l : Limiter)
    → length (pop selector route es) < l.max_keys
    → 1 ≤ l.idle_ttl
    → All (Within l.capacity) es
    → b.tokens ≤ l.capacity
    → IsValid (record l { buckets = write_bucket selector route b es })
unfolding write_bucket pop
write_bucket-IsValid selector route b es l room idle within least = record {
  keys = omega (
    arith,
    length-append (keep (λ x. not (has_key selector route x)) es)
        (record { tenant = selector; response = route; value = b } ∷ []),
  );
  idle = idle;
  within =
      All-snoc (Within l.capacity) (keep (λ x. not (has_key selector route x)) es)
        (record { tenant = selector; response = route; value = b })
        (All-keep (Within l.capacity) (λ x. not (has_key selector route x)) es within) least;
}

spend-IsValid :
    (selector route : String) (cost : ℕ) (b : Bucket) (es : List (Entry Bucket)) (l : Limiter)
    → length (pop selector route es) < l.max_keys
    → 1 ≤ l.idle_ttl
    → All (Within l.capacity) es
    → b.tokens ≤ l.capacity
    → IsValid (spend selector route cost b es l).1
unfolding spend
spend-IsValid selector route cost b es l room idle within most =
    elim (Bool-cases (ltb b.tokens cost)) [
      | inl short ↦ rw short (write_bucket-IsValid selector route b es l room idle within most)
      | inr enough ↦ rw enough (
          write_bucket-IsValid selector route (record b { tokens = b.tokens - cost }) es l room idle
            within (omega arith))
    ]

pub refilled-le : (now : ℕ) (l : Limiter) (b : Bucket) → (refilled now l b).tokens ≤ l.capacity
unfolding refilled
refilled-le now l b = ground arith

take-IsValid :
    (selector route : String) (cost now : ℕ) (found : Option Bucket) (es : List (Entry Bucket))
    (l : Limiter)
    → lookup selector route es ≡ found
    → length es ≤ l.max_keys
    → 1 ≤ l.idle_ttl
    → All (Within l.capacity) es
    → IsValid (take selector route cost now found es l).1
unfolding take full_bucket
take-IsValid selector route cost now (some b) es l known keys idle within =
    spend-IsValid selector route cost (refilled now l b) es l
      (pop-room selector route es l keys (inl (b, known))) idle within (refilled-le now l b)
take-IsValid selector route cost now none es l known keys idle within =
    elim (Bool-cases (leb l.max_keys (length es))) [
      | inl crowded ↦ rw crowded (record { keys = keys; idle = idle; within = within })
      | inr room ↦ rw room (
          spend-IsValid selector route cost (full_bucket now l) es l
            (pop-room selector route es l keys (inr (ground (arith, room)))) idle within
            (omega arith))
    ]

-- A call keeps the limiter valid, whether it is allowed or not: no more buckets than keys are
-- configured, each with at most the capacity.
pub allow-IsValid :
    (selector route : String) (cost now : ℕ) (l : Limiter)
    → IsValid l
    → IsValid (allow selector route cost now l).1
unfolding allow purge_idle purge
allow-IsValid selector route cost now l v =
    elim (Bool-cases (call_accepted selector route cost l)) [
      | inl accepted ↦ rw accepted (
          take-IsValid selector route cost now (lookup selector route (purge_idle now l))
            (purge_idle now l) l refl
            (omega
              (arith, v.keys, length-keep-le (λ e. ltb now (idle_at l.idle_ttl e.value)) l.buckets))
            v.idle
            (All-keep (Within l.capacity) (λ e. ltb now (idle_at l.idle_ttl e.value)) l.buckets
              v.within))
      | inr refused ↦ rw refused v
    ]
