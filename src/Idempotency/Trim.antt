-- ===== src/Idempotency/Trim.antt =====
-- What `_trim_locked` removes, and what it keeps.
use media_bridge.Base.{
  ℕ, zero, suc, ◌≤◌, String, Bool, false, not, none, some, List, [], ◌∷◌, ◌++◌, ◌≡◌, refl, inl, inr,
  arith, length, length-keep-le, keep, ltb, ◌==◌, string_eq, eq_iff, Bool-cases,
}
use media_bridge.Idempotency.{CacheEntry, find_entry, delete, oldest, trim_rounds, trim, assign}

module _ {V : Type 0} where
  -- No entry lives beyond a time.
  abbrev pub ExpireBy : ℕ → List (CacheEntry V) → Type 0
  ExpireBy t [] = Unit
  ExpireBy t (e ∷ es) = (e.expires_at ≤ t) × ExpireBy t es

  pub keep-ExpireBy :
      (t : ℕ) (p : CacheEntry V → Bool) (es : List (CacheEntry V))
      → ExpireBy t es
      → ExpireBy t (keep p es)
  keep-ExpireBy t p [] h = tt
  keep-ExpireBy t p (e ∷ es) h = ground (arith, keep-ExpireBy t p es)

  delete-ExpireBy :
      (t : ℕ) (key : String) (es : List (CacheEntry V)) → ExpireBy t es → ExpireBy t (delete key es)
  unfolding delete
  delete-ExpireBy t key es = keep-ExpireBy t (λ e. not (e.key == key)) es

  pub ExpireBy-le : (t u : ℕ) (es : List (CacheEntry V)) → t ≤ u → ExpireBy t es → ExpireBy u es
  ExpireBy-le t u [] h k = tt
  ExpireBy-le t u (e ∷ es) h k = (omega (arith, k.0), ExpireBy-le t u es h k.1)

  pub snoc-ExpireBy :
      (t : ℕ) (es : List (CacheEntry V)) (e : CacheEntry V)
      → ExpireBy t es
      → e.expires_at ≤ t
      → ExpireBy t (es ++ e ∷ [])
  snoc-ExpireBy t [] e h k = (k, tt)
  snoc-ExpireBy t (x ∷ es) e h k = (h.0, snoc-ExpireBy t es e h.1 k)

  pub trim_rounds-ExpireBy :
      (n most t : ℕ) (es : List (CacheEntry V)) → ExpireBy t es → ExpireBy t (trim_rounds n most es)
  unfolding trim_rounds
  trim_rounds-ExpireBy zero most t es h = h
  trim_rounds-ExpireBy (suc n) most t [] h = tt
  trim_rounds-ExpireBy (suc n) most t (e ∷ es) h = elim (Bool-cases (ltb most (length (e ∷ es)))) [
    | inl full ↦ rw full (
        trim_rounds-ExpireBy n most t (delete (oldest e es).key (e ∷ es))
          (delete-ExpireBy t (oldest e es).key (e ∷ es) h))
    | inr room ↦ rw room h
  ]

  -- A key of a list is found in it.
  length-delete-le : (key : String) (es : List (CacheEntry V)) → length (delete key es) ≤ length es
  unfolding delete
  length-delete-le key es = length-keep-le (λ e. not (e.key == key)) es

  -- A round of the loop shortens the dictionary.
  length-delete-oldest :
      (e : CacheEntry V) (es : List (CacheEntry V))
      → length (delete (oldest e es).key (e ∷ es)) ≤ length es
  unfolding delete oldest
  length-delete-oldest e [] = ground (arith, eq_iff e.key e.key)
  length-delete-oldest e (x ∷ xs) = ground (
    arith,
    length-delete-oldest e xs,
    length-delete-oldest x xs,
    length-delete-le (oldest e xs).key xs,
  )

  pub length-trim_rounds-le :
      (n most : ℕ) (es : List (CacheEntry V))
      → length es ≤ n
      → length (trim_rounds n most es) ≤ most
  unfolding trim_rounds
  length-trim_rounds-le zero most [] h = omega arith
  length-trim_rounds-le zero most (e ∷ es) h = elim h [ ]
  length-trim_rounds-le (suc n) most [] h = omega arith
  length-trim_rounds-le (suc n) most (e ∷ es) h = ground (
    arith,
    length-delete-oldest e es,
    length-trim_rounds-le n most (delete (oldest e es).key (e ∷ es)),
  )

  -- The fuel of `trim` is enough.
  pub length-trim-le : (most : ℕ) (es : List (CacheEntry V)) → length (trim most es) ≤ most
  unfolding trim
  length-trim-le most es = length-trim_rounds-le (length es) most es (omega arith)

  -- The newest entry, at the end, is never the oldest of several.
  oldest-snoc :
      (e : CacheEntry V) (es : List (CacheEntry V)) (new : CacheEntry V)
      → e.expires_at ≤ new.expires_at
      → oldest e (es ++ new ∷ []) ≡ oldest e es
  unfolding oldest
  oldest-snoc e [] new h = ground arith
  oldest-snoc e (x ∷ xs) new h = ground (arith, oldest-snoc e xs new, oldest-snoc x xs new)

  oldest-found :
      (e : CacheEntry V) (es : List (CacheEntry V)) (key : String)
      → find_entry key (e ∷ es) ≡ none
      → (oldest e es).key == key ≡ false
  unfolding oldest find_entry
  oldest-found e [] key h = ground arith
  oldest-found e (x ∷ xs) key h = ground (arith, oldest-found e xs key, oldest-found x xs key)

  delete-snoc :
      (key : String) (es : List (CacheEntry V)) (new : CacheEntry V)
      → key == new.key ≡ false
      → delete key (es ++ new ∷ []) ≡ delete key es ++ new ∷ []
  unfolding delete
  delete-snoc key [] new h = ground (arith, eq_iff key new.key, eq_iff new.key key)
  delete-snoc key (e ∷ es) new h = ground (arith, delete-snoc key es new)

  pub find_entry-keep :
      (key : String) (p : CacheEntry V → Bool) (es : List (CacheEntry V))
      → find_entry key es ≡ none
      → find_entry key (keep p es) ≡ none
  unfolding find_entry
  find_entry-keep key p [] h = refl
  find_entry-keep key p (e ∷ es) h = ground (arith, find_entry-keep key p es)

  find_entry-snoc :
      (es : List (CacheEntry V)) (new : CacheEntry V)
      → find_entry new.key es ≡ none
      → find_entry new.key (es ++ new ∷ []) ≡ some new
  unfolding find_entry
  find_entry-snoc [] new h = ground (arith, eq_iff new.key new.key)
  find_entry-snoc (e ∷ es) new h = ground (arith, find_entry-snoc es new)

  pub assign-snoc :
      (es : List (CacheEntry V)) (new : CacheEntry V)
      → find_entry new.key es ≡ none
      → assign new es ≡ es ++ new ∷ []
  unfolding assign find_entry
  assign-snoc [] new h = refl
  assign-snoc (e ∷ es) new h = ground (arith, assign-snoc es new)

  -- A new entry that no other outlives stays, as long as there is room for one.
  pub find_entry-trim_rounds :
      (n most : ℕ) (es : List (CacheEntry V)) (new : CacheEntry V)
      → 1 ≤ most
      → find_entry new.key es ≡ none
      → ExpireBy new.expires_at es
      → find_entry new.key (trim_rounds n most (es ++ new ∷ [])) ≡ some new
  unfolding trim_rounds find_entry delete
  find_entry-trim_rounds zero most es new room absent bound = find_entry-snoc es new absent
  find_entry-trim_rounds (suc n) most [] new room absent bound =
      ground (arith, eq_iff new.key new.key)
  find_entry-trim_rounds (suc n) most (e ∷ es) new room absent bound =
      elim (Bool-cases (ltb most (length (e ∷ es ++ new ∷ [])))) [
        | inl full ↦
            rw
              (
                full,
                oldest-snoc e es new bound.0,
                delete-snoc (oldest e es).key (e ∷ es) new (oldest-found e es new.key absent),
              )
              (find_entry-trim_rounds n most (delete (oldest e es).key (e ∷ es)) new room
                (find_entry-keep new.key (λ x. not (x.key == (oldest e es).key)) (e ∷ es) absent)
                (delete-ExpireBy new.expires_at (oldest e es).key (e ∷ es) bound))
        | inr small ↦ rw small (find_entry-snoc (e ∷ es) new absent)
      ]
