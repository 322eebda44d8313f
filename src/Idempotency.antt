-- ===== src/Idempotency.antt =====
-- The store that runs an operation once for each key (media_bridge/idempotency.py): `run` reads the
-- clock three times, and its operation is what it returns or raises. A run is not interrupted by another.
use media_bridge.Base.{
  ℕ, zero, suc, ◌+◌, String, Bool, true, false, not, ◌||◌, Option, none, some, List, [], ◌∷◌, ◌++◌,
  length, keep, contains, ltb, ◌==◌, string_eq, if◌then◌else◌,
}
use media_bridge.Base.{Result, ok, err}
pub mod Trim
pub mod Once

pub record CacheEntry (V : Type 0) : Type 0 where
  pub key : String
  pub fingerprint : String
  pub value : V
  pub expires_at : ℕ

-- `operation_raised` stands for whatever the operation raised.
pub data IdempotencyError : Type 0 where
  invalid_argument conflict operation_raised : IdempotencyError

-- The entries in the order of the dictionary, and the keys that have a lock.
pub record IdempotencyStore (V : Type 0) : Type 0 where
  pub ttl_seconds : ℕ
  pub max_entries : ℕ
  pub entries : List (CacheEntry V)
  pub locks : List String

-- What a run returns or raises, the store that it leaves, and how often it called its operation.
pub record RunOutcome (V : Type 0) : Type 0 where
  pub result : Result IdempotencyError V
  pub after : IdempotencyStore V
  pub executions : ℕ

-- `_locks.setdefault(key, threading.Lock())`
unfoldable pub set_default : String → List String → List String
set_default key locks = if contains key locks then locks else locks ++ key ∷ []

module _ {V : Type 0} where
  -- `IdempotencyStore.__init__`, which takes any capacity.
  unfoldable pub make_store : ℕ → ℕ → Result IdempotencyError (IdempotencyStore V)
  make_store ttl most =
      if ltb ttl 1 || ltb 86400 ttl
      then err invalid_argument
      else ok (record { ttl_seconds = ttl; max_entries = most; entries = []; locks = [] })

  -- `_entries.get(key)`
  unfoldable pub find_entry : String → List (CacheEntry V) → Option (CacheEntry V)
  find_entry key [] = none
  find_entry key (e ∷ es) = if e.key == key then some e else find_entry key es

  -- `del _entries[key]`
  unfoldable pub delete : String → List (CacheEntry V) → List (CacheEntry V)
  delete key = keep (λ e. not (e.key == key))

  -- `_entries[key] = entry`, in place where the key is there.
  unfoldable pub assign : CacheEntry V → List (CacheEntry V) → List (CacheEntry V)
  assign new [] = new ∷ []
  assign new (e ∷ es) = if e.key == new.key then new ∷ es else e ∷ assign new es

  -- `_purge_locked`
  unfoldable pub purge : ℕ → List (CacheEntry V) → List (CacheEntry V)
  purge now = keep (λ e. ltb now e.expires_at)

  -- `min(_entries, key=...)`: the first entry with the earliest expiry.
  unfoldable pub oldest : CacheEntry V → List (CacheEntry V) → CacheEntry V
  oldest e [] = e
  oldest e (x ∷ xs) = if ltb x.expires_at e.expires_at then oldest x xs else oldest e xs

  -- `_trim_locked`; every round deletes an entry, so their number is fuel enough.
  unfoldable pub trim_rounds : ℕ → ℕ → List (CacheEntry V) → List (CacheEntry V)
  trim_rounds zero most es = es
  trim_rounds (suc n) most [] = []
  trim_rounds (suc n) most (e ∷ es) =
      let rest = trim_rounds n most (delete (oldest e es).key (e ∷ es)) in
      if ltb most (length (e ∷ es)) then rest else e ∷ es

  unfoldable pub trim : ℕ → List (CacheEntry V) → List (CacheEntry V)
  trim most es = trim_rounds (length es) most es

  abbrev pub purged : ℕ → IdempotencyStore V → IdempotencyStore V
  purged now s = record s { entries = purge now s.entries }

  -- The entry of a key was made for another request.
  unfoldable pub mismatch : String → Option (CacheEntry V) → Bool
  mismatch fingerprint none = false
  mismatch fingerprint (some e) = not (e.fingerprint == fingerprint)

  -- The call of the operation, and what is kept of its value at time `now`.
  unfoldable pub execute :
      ℕ → String → String → Result IdempotencyError V → IdempotencyStore V → RunOutcome V
  execute now key fingerprint (err _) s = record {
    result = err operation_raised;
    after = s;
    executions = 1;
  }
  execute now key fingerprint (ok v) s = record {
    result = ok v;
    after = record s {
      entries = trim s.max_entries (
          assign
            (record {
              key = key;
              fingerprint = fingerprint;
              value = v;
              expires_at = now + s.ttl_seconds;
            })
            s.entries);
    };
    executions = 1;
  }

  -- What is done under the lock of the key, by the entry that is there.
  unfoldable pub replay :
      ℕ
      → String
      → String
      → Result IdempotencyError V
      → IdempotencyStore V
      → Option (CacheEntry V)
      → RunOutcome V
  replay now key fingerprint operation s none = execute now key fingerprint operation s
  replay now key fingerprint operation s (some e) =
      if e.fingerprint == fingerprint
      then record { result = ok e.value; after = s; executions = 0 }
      else record { result = err conflict; after = s; executions = 0 }

  module _ (entered checked stored : ℕ) (key fingerprint : String)
      (operation : Result IdempotencyError V) where
    unfoldable pub run_locked : IdempotencyStore V → RunOutcome V
    run_locked s =
        let s' = purged checked (record s { locks = set_default key s.locks }) in
        replay stored key fingerprint operation s' (find_entry key s'.entries)

    -- `run`
    unfoldable pub run : IdempotencyStore V → RunOutcome V
    run s =
        if key == "" || fingerprint == ""
        then record { result = err invalid_argument; after = s; executions = 0 }
        else if mismatch fingerprint (find_entry key (purge entered s.entries))
        then record { result = err conflict; after = purged entered s; executions = 0 }
        else run_locked (purged entered s)
