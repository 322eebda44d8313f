-- ===== src/Idempotency/Once.antt =====
-- A key's operation is run once while its entry lives.
use media_bridge.Base.{
  ℕ, ◌+◌, ◌≤◌, ◌<◌, String, false, ◌||◌, Option, none, some, List, [], ◌∷◌, ◌++◌, ◌≡◌, refl, ap,
  ◌∙◌, inl, inr, arith, length, length-keep-le, ltb, ◌==◌, string_eq, eq_iff, if◌then◌else◌,
  Bool-cases,
}
use media_bridge.Base.{Result, ok, err}
use media_bridge.Idempotency.{
  CacheEntry, IdempotencyError, conflict, IdempotencyStore, find_entry, assign, purge, purged, trim,
  set_default, mismatch, execute, replay, run_locked, run,
}
use media_bridge.Idempotency.Trim.{
  ExpireBy, keep-ExpireBy, ExpireBy-le, snoc-ExpireBy, trim_rounds-ExpireBy, length-trim-le,
  assign-snoc, find_entry-trim_rounds,
}

module _ {V : Type 0} where
  -- A bounded store, none of whose entries outlives an entry made now.
  pub record IsValid (now : ℕ) (s : IdempotencyStore V) : Type 0 where
    pub room : 1 ≤ s.max_entries
    pub bounded : length s.entries ≤ s.max_entries
    pub fresh : ExpireBy (now + s.ttl_seconds) s.entries

  find_entry-key :
      (key : String) (es : List (CacheEntry V)) (e : CacheEntry V)
      → find_entry key es ≡ some e
      → e.key ≡ key
  unfolding find_entry
  find_entry-key key [] e h = cc
  find_entry-key key (x ∷ xs) e h = ground (arith, eq_iff x.key key, find_entry-key key xs e)

  find_entry-purge :
      (now : ℕ) (key : String) (es : List (CacheEntry V)) (e : CacheEntry V)
      → find_entry key es ≡ some e
      → now < e.expires_at
      → find_entry key (purge now es) ≡ some e
  unfolding find_entry purge
  find_entry-purge now key [] e h live = cc
  find_entry-purge now key (x ∷ xs) e h live = ground (arith, find_entry-purge now key xs e)

  later-IsValid :
      (now later : ℕ) (s : IdempotencyStore V) → now ≤ later → IsValid now s → IsValid later s
  later-IsValid now later s h v = record {
    room = v.room;
    bounded = v.bounded;
    fresh =
        ExpireBy-le (now + s.ttl_seconds) (later + s.ttl_seconds) s.entries (omega arith) v.fresh;
  }

  purged-IsValid : (now at : ℕ) (s : IdempotencyStore V) → IsValid now s → IsValid now (purged at s)
  unfolding purge
  purged-IsValid now at s v = record {
    room = v.room;
    bounded = omega (arith, v.bounded, length-keep-le (λ e. ltb at e.expires_at) s.entries);
    fresh = keep-ExpireBy (now + s.ttl_seconds) (λ e. ltb at e.expires_at) s.entries v.fresh;
  }

  -- The entry that a run keeps.
  abbrev pub made : ℕ → String → String → V → IdempotencyStore V → CacheEntry V
  made stored key fingerprint v s = record {
    key = key;
    fingerprint = fingerprint;
    value = v;
    expires_at = stored + s.ttl_seconds;
  }

  trim-assign-ExpireBy :
      (most : ℕ) (es : List (CacheEntry V)) (new : CacheEntry V)
      → find_entry new.key es ≡ none
      → ExpireBy new.expires_at es
      → ExpireBy new.expires_at (trim most (assign new es))
  unfolding trim
  trim-assign-ExpireBy most es new absent bound = rw (assign-snoc es new absent) (
      trim_rounds-ExpireBy (length (es ++ new ∷ [])) most new.expires_at (es ++ new ∷ [])
        (snoc-ExpireBy new.expires_at es new bound (omega arith)))

  module _ (stored : ℕ) (key fingerprint : String) where
    execute-IsValid :
        (operation : Result IdempotencyError V) (s : IdempotencyStore V)
        → find_entry key s.entries ≡ none
        → IsValid stored s
        → IsValid stored (execute stored key fingerprint operation s).after
    unfolding execute
    execute-IsValid (err x) s absent valid = valid
    execute-IsValid (ok v) s absent valid =
        let new = made stored key fingerprint v s in
        record {
          room = valid.room;
          bounded = length-trim-le s.max_entries (assign new s.entries);
          fresh = trim-assign-ExpireBy s.max_entries s.entries new absent valid.fresh;
        }

    replay-IsValid :
        (operation : Result IdempotencyError V) (s : IdempotencyStore V)
        (found : Option (CacheEntry V))
        → find_entry key s.entries ≡ found
        → IsValid stored s
        → IsValid stored (replay stored key fingerprint operation s found).after
    unfolding replay
    replay-IsValid operation s none h v = execute-IsValid operation s h v
    replay-IsValid operation s (some e) h v = ground (arith, v)

    replay-made :
        (operation : Result IdempotencyError V) (s : IdempotencyStore V) (v : V)
        (found : Option (CacheEntry V))
        → find_entry key s.entries ≡ found
        → IsValid stored s
        → (replay stored key fingerprint operation s found).executions ≡ 1
        → (replay stored key fingerprint operation s found).result ≡ ok v
        → find_entry key (replay stored key fingerprint operation s found).after.entries
          ≡ some (made stored key fingerprint v s)
    unfolding replay execute trim
    replay-made (err x) s v none absent valid once h = cc
    replay-made (ok w) s v none absent valid once h =
        let new = made stored key fingerprint w s in
        rw (assign-snoc s.entries new absent) (
          find_entry-trim_rounds (length (s.entries ++ new ∷ [])) s.max_entries s.entries new
            valid.room absent valid.fresh
          ∙ ap (λ x. some (made stored key fingerprint x s)) (cc h))
    replay-made operation s v (some e) absent valid once h = ground arith

  module _ (entered checked stored : ℕ) (key fingerprint : String)
      (operation : Result IdempotencyError V) (s : IdempotencyStore V) where
    -- The store under the lock of the key.
    abbrev pub locked : IdempotencyStore V
    locked = purged checked (record (purged entered s) { locks = set_default key s.locks })

    locked-IsValid : IsValid stored s → IsValid stored locked
    locked-IsValid v =
        let w =
          purged-IsValid stored checked (purged entered s) (purged-IsValid stored entered s v) in
        record { room = w.room; bounded = w.bounded; fresh = w.fresh }

    -- A run whose clock does not go back keeps the store valid, whatever it returns or raises: at most the
    -- configured number of entries, none of which outlives one made at its end.
    pub run-IsValid :
        (now : ℕ)
        → now ≤ stored
        → IsValid now s
        → IsValid stored (run entered checked stored key fingerprint operation s).after
    unfolding run run_locked
    run-IsValid now h v =
        let w = later-IsValid now stored s h v in
        elim (Bool-cases (key == "" || fingerprint == "")) [
          | inl bad ↦ rw bad w
          | inr good ↦
              elim (Bool-cases (mismatch fingerprint (find_entry key (purge entered s.entries)))) [
                | inl other ↦ rw (good, other) (purged-IsValid stored entered s w)
                | inr same ↦
                    rw (good, same)
                      (replay-IsValid stored key fingerprint operation locked
                        (find_entry key locked.entries) refl (locked-IsValid w))
              ]
        ]

    run-made :
        (now : ℕ) (v : V)
        → now ≤ stored
        → IsValid now s
        → (run entered checked stored key fingerprint operation s).executions ≡ 1
        → (run entered checked stored key fingerprint operation s).result ≡ ok v
        → (find_entry key (run entered checked stored key fingerprint operation s).after.entries
            ≡ some (made stored key fingerprint v s))
          × ((key == "") ≡ false)
    unfolding run run_locked
    run-made now v h valid once returned =
        let w = locked-IsValid (later-IsValid now stored s h valid) in
        ground (
          arith,
          replay-made stored key fingerprint operation locked v (find_entry key locked.entries) refl
              w,
        )

    -- A run on a key whose entry lives never calls its operation.
    run-found :
        (e : CacheEntry V)
        → find_entry key s.entries ≡ some e
        → (key == "") ≡ false
        → (fingerprint == "") ≡ false
        → entered < e.expires_at
        → checked < e.expires_at
        → ((run entered checked stored key fingerprint operation s).result
            ≡ (if e.fingerprint == fingerprint then ok e.value else err conflict))
          × ((run entered checked stored key fingerprint operation s).executions ≡ 0)
    unfolding run run_locked replay mismatch
    run-found e found k f early late =
        let first = find_entry-purge entered key s.entries e found early in
        let second = find_entry-purge checked key (purge entered s.entries) e first late in
        ground (arith, first, second)

  -- Once an operation has returned in a valid store, a run on its key while the entry lives does not call
  -- its own operation: with the same fingerprint it returns the first value, with another it conflicts.
  pub run-replays :
      (now entered checked stored : ℕ) (key fingerprint : String)
      (operation : Result IdempotencyError V) (s : IdempotencyStore V) (v : V)
      (entered' checked' stored' : ℕ) (fingerprint' : String)
      (operation' : Result IdempotencyError V)
      → IsValid now s
      → now ≤ stored
      → (run entered checked stored key fingerprint operation s).executions ≡ 1
      → (run entered checked stored key fingerprint operation s).result ≡ ok v
      → entered' < stored + s.ttl_seconds
      → checked' < stored + s.ttl_seconds
      → (fingerprint' == "") ≡ false
      → ((run entered' checked' stored' key fingerprint' operation'
            (run entered checked stored key fingerprint operation s).after).result
          ≡ (if fingerprint == fingerprint' then ok v else err conflict))
        × ((run entered' checked' stored' key fingerprint' operation'
              (run entered checked stored key fingerprint operation s).after).executions
            ≡ 0)
  run-replays now entered checked stored key fingerprint operation s v entered' checked' stored'
        fingerprint' operation' valid h once returned early late f =
      let (found, k) =
        run-made entered checked stored key fingerprint operation s now v h valid once returned in
      run-found entered' checked' stored' key fingerprint' operation'
        (run entered checked stored key fingerprint operation s).after
        (made stored key fingerprint v s) found k f early late
