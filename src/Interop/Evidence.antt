-- ===== src/Interop/Evidence.antt =====
-- What a preparation returns.
use media_bridge.Base.{
  ℕ, ◌+◌, ◌≤◌, Bool, true, false, not, ◌||◌, none, some, [], ◌≡◌, refl, ◌⊎◌, inl, inr, arith,
  Bool-cases, ltb,
}
use mathlib.Core.Path.{subst}
use media_bridge.Base.{Result, ok, err, >>=-eq-ok, raise_if, or_raise, raise_if-ok, or_raise-ok}
use media_bridge.Idempotency.{IdempotencyError}
use media_bridge.Interop.{InteropResult, PreparedMarker, provider_call_allowed}
use media_bridge.Interop.Receipts.{
  ReceiptError, rejected, TransformationReceipt, Digests, is_prepared, receipt_of,
  build_transformation_receipt,
}
use media_bridge.Interop.Prepare.{Prepared, withdrawn, receipted, cleaned, finished, operation}

module _ (d : Digests) (issued ttl_seconds : ℕ) where
  -- A receipt for a prepared result without media, within the lifetimes of receipts and of its marker.
  pub record Receipted (r : InteropResult) (t : TransformationReceipt) : Type 0 where
    pub marker : PreparedMarker
    pub prepared : is_prepared r.status ≡ true
    pub media_removed : r.original_media_removed ≡ true
    pub marked : r.prepared_marker ≡ some marker
    pub least : 1 ≤ ttl_seconds
    pub most : ttl_seconds ≤ 300
    pub within : issued + ttl_seconds ≤ marker.expires_at
    pub receipt : t ≡ receipt_of d r marker issued ttl_seconds

  build_transformation_receipt-Receipted :
      (r : InteropResult) (t : TransformationReceipt)
      → build_transformation_receipt d r issued ttl_seconds none ≡ ok t
      → Receipted r t
  unfolding build_transformation_receipt
  build_transformation_receipt-Receipted r t h =
      let (u, status, h1) =
        >>=-eq-ok
          (raise_if (not (is_prepared r.status) || not r.original_media_removed)
            (rejected "only media-free PREPARED results can be receipted"))
          _ h in
      let (marker, marked, h2) =
        >>=-eq-ok (or_raise r.prepared_marker (rejected "prepared marker is required")) _ h1 in
      let (u', range, h3) =
        >>=-eq-ok
          (raise_if (ltb ttl_seconds 1 || ltb 300 ttl_seconds)
            (rejected "receipt ttl is outside the allowed range"))
          _ h2 in
      let (u'', late, h4) =
        >>=-eq-ok
          (raise_if (ltb marker.expires_at (issued + ttl_seconds))
            (rejected "receipt ttl exceeds asset ttl"))
          _ h3 in
      record {
        marker = marker;
        prepared = ground (arith, raise_if-ok _ _ u status);
        media_removed = ground (arith, raise_if-ok _ _ u status);
        marked = or_raise-ok r.prepared_marker _ marker marked;
        least = ground (arith, raise_if-ok _ _ u' range);
        most = ground (arith, raise_if-ok _ _ u' range);
        within = ground (arith, raise_if-ok _ _ u'' late);
        receipt = ground (arith, h4);
      }

  -- A result that no provider may be sent.
  abbrev pub Withdrawn : Prepared → Type 0
  Withdrawn (r, receipt) =
      (provider_call_allowed r ≡ false) × (r.sanitized_messages ≡ []) × (receipt ≡ none)

  -- Why a prepared result is withdrawn: its media was not deleted, or no receipt was built for it.
  abbrev pub Unfit : InteropResult → Result IdempotencyError Bool → Type 0
  Unfit r cleanup =
      (cleanup ≡ ok false)
      ⊎ ((cleanup ≡ ok true)
          × ((e : ReceiptError) × (build_transformation_receipt d r issued ttl_seconds none
                ≡ err e)))

  -- A result that was not prepared as it was, a prepared result that is withdrawn, or a prepared result as
  -- it was with its receipt, after its media was deleted.
  abbrev pub Outcome : InteropResult → Result IdempotencyError Bool → Prepared → Type 0
  Outcome r cleanup (r', receipt) =
      ((is_prepared r.status ≡ false) × (r' ≡ r) × (receipt ≡ none))
      ⊎ (((is_prepared r.status ≡ true) × Unfit r cleanup × Withdrawn (r', receipt))
          ⊎ ((t : TransformationReceipt) × (receipt ≡ some t)
              × (r' ≡ r)
              × (cleanup ≡ ok true)
              × (build_transformation_receipt d r issued ttl_seconds none ≡ ok t)
              × Receipted r t))

  receipted-Outcome :
      (r : InteropResult) (cleanup : Result IdempotencyError Bool)
      (built : Result ReceiptError TransformationReceipt)
      → build_transformation_receipt d r issued ttl_seconds none ≡ built
      → cleanup ≡ ok true
      → is_prepared r.status ≡ true
      → Outcome r cleanup (receipted r built)
  unfolding receipted withdrawn provider_call_allowed
  receipted-Outcome r cleanup (ok t) h clean prepared =
      inr (inr (t, refl, refl, clean, h, build_transformation_receipt-Receipted r t h))
  receipted-Outcome r cleanup (err e) h clean prepared =
      inr (inl (prepared, inr (clean, (e, h)), (refl, refl, refl)))

  cleaned-Outcome :
      (r : InteropResult) (clean : Bool) (cleanup : Result IdempotencyError Bool)
      → cleanup ≡ ok clean
      → is_prepared r.status ≡ true
      → Outcome r cleanup (cleaned d ttl_seconds issued r clean)
  unfolding cleaned withdrawn provider_call_allowed
  cleaned-Outcome r false cleanup h prepared = inr (inl (prepared, inl h, (refl, refl, refl)))
  cleaned-Outcome r true cleanup h prepared =
      receipted-Outcome r cleanup (build_transformation_receipt d r issued ttl_seconds none) refl h
        prepared

  finished-Outcome :
      (r : InteropResult) (cleanup : Result IdempotencyError Bool) (v : Prepared)
      → finished d ttl_seconds issued cleanup r ≡ ok v
      → Outcome r cleanup v
  unfolding finished
  finished-Outcome r cleanup v h = elim (Bool-cases (is_prepared r.status)) [
    | inl yes_prepared ↦
        let (clean, given, last) =
          >>=-eq-ok cleanup (λ c. ok (cleaned d ttl_seconds issued r c)) (rw yes_prepared at h) in
        let same : cleaned d ttl_seconds issued r clean ≡ v = ground (arith, last) in
        subst (Outcome r cleanup) same (cleaned-Outcome r clean cleanup given yes_prepared)
    | inr other ↦
        let same : (r, none) ≡ v = ground (arith, (rw other at h)) in
        subst (Outcome r cleanup) same (inl (other, refl, refl))
  ]

  -- A preparation that returns gives back what was transformed: a result that is not prepared as it
  -- is, without a receipt; a prepared result as it is with a receipt over its digests that ends no later than
  -- its marker, after its media was deleted; and a prepared result whose media was not deleted, or for
  -- which no receipt was built, is withdrawn: no provider may be sent it, and it has no messages and no
  -- receipt.
  pub operation-Outcome :
      (transform : Result IdempotencyError InteropResult) (cleanup : Result IdempotencyError Bool)
      (v : Prepared)
      → operation d ttl_seconds issued transform cleanup ≡ ok v
      → (r : InteropResult) × (transform ≡ ok r) × Outcome r cleanup v
  unfolding operation
  operation-Outcome transform cleanup v h =
      let (r, given, rest) = >>=-eq-ok transform (finished d ttl_seconds issued cleanup) h in
      (r, given, finished-Outcome r cleanup v rest)
