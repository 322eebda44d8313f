-- ===== src/Tests/RateLimitRuns.antt =====
-- A limiter with one bucket that has been used.
use media_bridge.Base.{true, some, [], ◌∷◌, ◌≡◌, refl, inl, arith}
use media_bridge.State.Entries.{lookup, purge}
use media_bridge.RateLimit.{
  Bucket, Limiter, purge_idle, selector_accepted, route_codes_accepted, route_accepted,
  call_accepted, allow,
}
use media_bridge.RateLimit.Spends.{IsValid, allow-IsValid}
use media_bridge.RateLimit.Grants.{Grants, available, allow-Grants}

abbrev used : Bucket
used = record { tokens = 1; updated_at = 10; last_seen_at = 10 }

abbrev limiter : Limiter
limiter = record {
  capacity = 5;
  refill = 2;
  max_keys = 1;
  idle_ttl = 60;
  buckets = record { tenant = "a"; response = "/v1/responses"; value = used } ∷ [];
}

limiter-IsValid : IsValid limiter
limiter-IsValid = record { keys = omega arith; idle = omega arith; within = (omega arith, tt) }

accepted : call_accepted "a" "/v1/responses" 3 limiter ≡ true
unfolding call_accepted selector_accepted route_accepted route_codes_accepted
accepted = refl

known : lookup "a" "/v1/responses" (purge_idle 11 limiter) ≡ some used
unfolding lookup purge purge_idle
known = refl

allow-IsValid_example : IsValid (allow "a" "/v1/responses" 3 11 limiter).1
allow-IsValid_example = allow-IsValid "a" "/v1/responses" 3 11 limiter limiter-IsValid

-- Two tokens are left over at 11, and two units of time later there are four more, one over the most.
allow-Grants_example :
    Grants "a" "/v1/responses" 3 11 13
      (available "a" "/v1/responses" 11 limiter)
      limiter
      (allow "a" "/v1/responses" 3 11 limiter)
allow-Grants_example = allow-Grants "a" "/v1/responses" 3 11 13 limiter accepted (inl (used, known))
