-- ===== src/Interop/Barrier.antt =====
-- When the cleanup barrier opens.
use media_bridge.Base.{
  String, Bool, true, false, ◌&&◌, ◌||◌, List, [], ◌∷◌, ◌≡◌, refl, sym, ap, ◌∙◌, ◌↔◌, inl, inr,
  arith, all, contains, ◌==◌, string_eq, eq_iff, if◌then◌else◌, Bool-cases,
}
use mathlib.Core.Path.{subst}
use media_bridge.Base.{Result, ok, ◌>>=◌, >>=-eq-ok}
use media_bridge.Interop.Receipts.{
  ReceiptError, CleanupBarrier, make_barrier, add_verified, mark_deleted, within, finalize,
}

-- The calls of `mark_deleted`, in order, each with whether the deletion was verified.
abbrev pub Marks : Type 0
Marks = List (String × Bool)

unfoldable pub mark_all : Marks → CleanupBarrier → Result ReceiptError CleanupBarrier
mark_all [] b = ok b
mark_all ((asset_id, verified) ∷ marks) b = mark_deleted asset_id verified b >>= mark_all marks

-- A call said that the deletion of an asset is verified.
abbrev pub was_verified : Marks → String → Bool
was_verified [] asset_id = false
was_verified ((marked, verified) ∷ marks) asset_id =
    (verified && asset_id == marked) || was_verified marks asset_id

mark_deleted-lem :
    (asset_id : String) (verified : Bool) (b b' : CleanupBarrier)
    → mark_deleted asset_id verified b ≡ ok b'
    → (contains asset_id b.expected ≡ true)
      × ((if verified then add_verified asset_id b else b) ≡ b')
unfolding mark_deleted
mark_deleted-lem asset_id verified b b' h = (ground (arith, h), ground (arith, h))

contains-add_verified :
    (x asset_id : String) (b : CleanupBarrier)
    → contains x (add_verified asset_id b).verified ≡ (x == asset_id || contains x b.verified)
contains-add_verified x asset_id b = elim (Bool-cases (contains asset_id b.verified)) [
  | inl old ↦ elim (Bool-cases (x == asset_id)) [
    | inl same ↦ rw (old, same) (rw ((eq_iff x asset_id).0 same) old)
    | inr other ↦ rw (old, other) refl
  ]
  | inr new ↦ rw new refl
]

abbrev pub marked : String → Bool → CleanupBarrier → CleanupBarrier
marked asset_id verified b = if verified then add_verified asset_id b else b

contains-marked :
    (x asset_id : String) (verified : Bool) (b : CleanupBarrier)
    → contains x (marked asset_id verified b).verified
      ≡ ((verified && x == asset_id) || contains x b.verified)
contains-marked x asset_id true b = contains-add_verified x asset_id b
contains-marked x asset_id false b = refl

expected-marked :
    (asset_id : String) (verified : Bool) (b : CleanupBarrier)
    → (marked asset_id verified b).expected ≡ b.expected
expected-marked asset_id true b = ground arith
expected-marked asset_id false b = refl

within-marked :
    (asset_id : String) (verified : Bool) (b : CleanupBarrier)
    → contains asset_id b.expected ≡ true
    → within b.verified b.expected ≡ true
    → within (marked asset_id verified b).verified b.expected ≡ true
within-marked asset_id true b known h = ground (arith, known, h)
within-marked asset_id false b known h = h

pub record Follows (marks : Marks) (b b' : CleanupBarrier) : Type 0 where
  pub expected : b'.expected ≡ b.expected
  pub verified :
      (x : String) → contains x b'.verified ≡ (was_verified marks x || contains x b.verified)
  pub inside : within b.verified b.expected ≡ true → within b'.verified b'.expected ≡ true

mark_all-Follows :
    (marks : Marks) (b b' : CleanupBarrier) → mark_all marks b ≡ ok b' → Follows marks b b'
unfolding mark_all
mark_all-Follows [] b b' h =
    let same : b ≡ b' = ground (arith, h) in
    subst (Follows [] b) same (record { expected = refl; verified = λ x. refl; inside = λ w. w })
mark_all-Follows ((asset_id, verified) ∷ marks) b b' h =
    let (next, made, rest) = >>=-eq-ok (mark_deleted asset_id verified b) (mark_all marks) h in
    let (known, same) = mark_deleted-lem asset_id verified b next made in
    let ih = mark_all-Follows marks next b' rest in
    let kept : next.expected ≡ b.expected =
      ap (λ c. c.expected) (sym same) ∙ expected-marked asset_id verified b in
    record {
      expected = ih.expected ∙ kept;
      verified = λ x. ground (
        arith,
        ih.verified x,
        ap (λ c. contains x c.verified) same,
        contains-marked x asset_id verified b,
      );
      inside = λ w. ih.inside (
          subst (λ c. within c.verified c.expected ≡ true) same
            (rw (expected-marked asset_id verified b) (within-marked asset_id verified b known w)));
    }

all-congr :
    (p q : String → Bool) → ((x : String) → p x ≡ q x) → (xs : List String) → all p xs ≡ all q xs
all-congr p q same [] = refl
all-congr p q same (x ∷ xs) = rw (same x, all-congr p q same xs) refl

make_barrier-lem :
    (asset_ids : List String) (b : CleanupBarrier)
    → make_barrier asset_ids ≡ ok b
    → (b.expected ≡ asset_ids) × (b.verified ≡ [])
unfolding make_barrier
make_barrier-lem asset_ids b h = (ground (arith, h), ground (arith, h))

finalize-lem :
    (b : CleanupBarrier)
    → within b.verified b.expected ≡ true
    → (finalize b ≡ ok true) ↔ (within b.expected b.verified ≡ true)
unfolding finalize
finalize-lem b h = (λ k. ground (arith, h, k), λ k. rw (h, k) refl)

-- After the calls of `mark_deleted` that a new barrier has let pass, the barrier opens exactly if each of
-- its assets has been marked with a verified deletion.
pub finalize-mark_all :
    (asset_ids : List String) (marks : Marks) (b b' : CleanupBarrier)
    → make_barrier asset_ids ≡ ok b
    → mark_all marks b ≡ ok b'
    → (finalize b' ≡ ok true) ↔ (all (was_verified marks) asset_ids ≡ true)
finalize-mark_all asset_ids marks b b' made ran =
    let (ids, fresh) = make_barrier-lem asset_ids b made in
    let f = mark_all-Follows marks b b' ran in
    let inside : within b'.verified b'.expected ≡ true = f.inside (rw fresh refl) in
    let same : within b'.expected b'.verified ≡ all (was_verified marks) asset_ids =
      rw (f.expected ∙ ids) (
        all-congr (λ x. contains x b'.verified) (was_verified marks)
          (λ x. ground (arith, f.verified x, ap (contains x) fresh)) asset_ids) in
    let (there, back) = finalize-lem b' inside in (λ k. sym same ∙ there k, λ k. back (same ∙ k))
