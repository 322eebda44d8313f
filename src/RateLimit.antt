-- ===== src/RateLimit.antt =====
-- The token buckets of the data plane (media_bridge_gateway/rate_limit.py). Amounts and instants are
-- natural multiples of one unit in place of floats, which leaves out what is not finite.
pub mod Spends
pub mod Grants
use media_bridge.Base.{
  ℕ, ◌+◌, ◌*◌, ◌-◌, String, Bool, true, false, not, ◌||◌, Option, none, some, List, [], ◌∷◌, ◌++◌,
  length, ltb, leb, ◌==◌, number_eq, is_lower, is_digit, is_alnum, codes, full_match, if◌then◌else◌,
}
use media_bridge.Base.{Result, ok, err}
use media_bridge.State.Entries.{Entry, lookup, purge, pop}

pub record Bucket : Type 0 where
  pub tokens : ℕ
  pub updated_at : ℕ
  pub last_seen_at : ℕ

-- An entry's tenant is the selector of its key, and its response the route.
pub record Limiter : Type 0 where
  pub capacity : ℕ
  pub refill : ℕ
  pub max_keys : ℕ
  pub idle_ttl : ℕ
  pub buckets : List (Entry Bucket)

-- A `ValueError`.
pub data LimiterError : Type 0 where
  value_error : LimiterError

-- `__init__`
unfoldable pub make_limiter : ℕ → ℕ → ℕ → ℕ → Result LimiterError Limiter
make_limiter capacity refill max_keys idle_ttl =
    if ltb capacity 1 || leb refill 0 || ltb max_keys 1 || leb idle_ttl 0
    then err value_error
    else ok (record {
      capacity = capacity;
      refill = refill;
      max_keys = max_keys;
      idle_ttl = idle_ttl;
      buckets = [];
    })

abbrev is_selector : ℕ → Bool
is_selector c = is_alnum c || c == b'_' || c == b'-'

-- `^[A-Za-z0-9_-]{1,32}$`
unfoldable pub selector_accepted : String → Bool
selector_accepted selector = full_match is_selector is_selector 31 (codes selector)

abbrev is_route : ℕ → Bool
is_route c = is_lower c || is_digit c || c == b'/' || c == b'_' || c == b'-'

unfoldable pub route_codes_accepted : List ℕ → Bool
route_codes_accepted [] = false
route_codes_accepted (c ∷ cs) = if c == b'/' then full_match is_route is_route 126 cs else false

-- `^/[a-z0-9/_-]{1,127}$`
unfoldable pub route_accepted : String → Bool
unfolding route_codes_accepted
route_accepted route = route_codes_accepted (codes route)

-- `min`
abbrev pub least : ℕ → ℕ → ℕ
least a b = if ltb b a then b else a

-- When a bucket is idle: its last use is no later than the cutoff.
abbrev pub idle_at : ℕ → Bucket → ℕ
idle_at idle_ttl b = b.last_seen_at + idle_ttl

-- `_purge_idle`
unfoldable pub purge_idle : ℕ → Limiter → List (Entry Bucket)
purge_idle now l = purge (idle_at l.idle_ttl) now l.buckets

unfoldable pub full_bucket : ℕ → Limiter → Bucket
full_bucket now l = record { tokens = l.capacity; updated_at = now; last_seen_at = now }

-- The time since the last update is none where the clock has gone back.
unfoldable pub refilled : ℕ → Limiter → Bucket → Bucket
refilled now l b = record {
  tokens = least l.capacity (b.tokens + (now - b.updated_at) * l.refill);
  updated_at = now;
  last_seen_at = now;
}

-- The bucket of a key as the end of the dictionary.
unfoldable pub write_bucket : String → String → Bucket → List (Entry Bucket) → List (Entry Bucket)
write_bucket selector route b es =
    pop selector route es ++ record { tenant = selector; response = route; value = b } ∷ []

-- The end of `allow`.
unfoldable pub spend : String → String → ℕ → Bucket → List (Entry Bucket) → Limiter → Bool × Limiter
spend selector route cost b es l =
    if ltb b.tokens cost
    then (false, record l { buckets = write_bucket selector route b es })
    else (
      true,
      record l { buckets = write_bucket selector route (record b { tokens = b.tokens - cost }) es },
    )

unfoldable pub take :
    String → String → ℕ → ℕ → Option Bucket → List (Entry Bucket) → Limiter → Bool × Limiter
take selector route cost now (some b) es l = spend selector route cost (refilled now l b) es l
take selector route cost now none es l =
    if leb l.max_keys (length es)
    then (false, record l { buckets = es })
    else spend selector route cost (full_bucket now l) es l

-- The first test of `allow`.
unfoldable pub call_accepted : String → String → ℕ → Limiter → Bool
call_accepted selector route cost l = not (
    not (selector_accepted selector)
    || (not (route_accepted route) || (leb cost 0 || ltb l.capacity cost)))

-- `allow`
unfoldable pub allow : String → String → ℕ → ℕ → Limiter → Bool × Limiter
allow selector route cost now l =
    if call_accepted selector route cost l
    then take selector route cost now (lookup selector route (purge_idle now l)) (purge_idle now l)
        l
    else (false, l)
