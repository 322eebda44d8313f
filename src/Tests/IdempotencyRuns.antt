-- ===== src/Tests/IdempotencyRuns.antt =====
-- The idempotency store on small inputs.
use media_bridge.Base.{ℕ, [], ◌∷◌, ◌≡◌, refl, arith, string_eq}
use media_bridge.Base.{ok, err}
use media_bridge.Idempotency.{
  IdempotencyStore, CacheEntry, conflict, run, run_locked, replay, execute, trim, trim_rounds,
  assign, purge, find_entry, mismatch, oldest, delete, set_default,
}
use media_bridge.Idempotency.Once.{IsValid, run-IsValid, run-replays}

-- A store for one value, which has an entry for another key.
abbrev held : CacheEntry ℕ
held = record { key = "a"; fingerprint = "f"; value = 1; expires_at = 305 }

abbrev cache : IdempotencyStore ℕ
cache = record { ttl_seconds = 300; max_entries = 1; entries = held ∷ []; locks = "a" ∷ [] }

cache-IsValid : IsValid 5 cache
cache-IsValid = record { room = omega arith; bounded = omega arith; fresh = (omega arith, tt) }

run-IsValid_example : IsValid 12 (run 10 11 12 "b" "g" (ok 7) cache).after
run-IsValid_example = run-IsValid 10 11 12 "b" "g" (ok 7) cache 5 (omega arith) cache-IsValid

run-replays_example :
    ((run 20 21 22 "b" "h" (ok 8) (run 10 11 12 "b" "g" (ok 7) cache).after).result ≡ err conflict)
    × ((run 20 21 22 "b" "h" (ok 8) (run 10 11 12 "b" "g" (ok 7) cache).after).executions ≡ 0)
unfolding run run_locked replay execute trim trim_rounds assign purge find_entry mismatch oldest
    delete set_default
run-replays_example =
    run-replays 5 10 11 12 "b" "g" (ok 7) cache 7 20 21 22 "h" (ok 8) cache-IsValid (omega arith)
      refl refl (omega arith) (omega arith) refl
