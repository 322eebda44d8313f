-- ===== src/Interop/Receipts.antt =====
-- Transformation receipts and the cleanup barrier (media_bridge/interop_v2.py).
use media_bridge.Base.{
  ℕ, ◌+◌, String, Bool, true, false, not, ◌&&◌, ◌||◌, Option, none, some, List, [], ◌∷◌, all,
  contains, distinct, ltb, ◌==◌, string_eq, if◌then◌else◌,
}
use media_bridge.Base.{Result, ok, err, ◌>>=◌, ◌>>◌, raise_if, or_raise}
use media_bridge.Json.{Fields}
use media_bridge.Interop.{
  Status, prepared, InteropResult, PreparedMarker, BackendEvidence, is_nonempty,
}

-- A `ReceiptValidationError` with its message, or the `ValueError` of the barrier's constructor.
pub data ReceiptError : Type 0 where
  rejected : String → ReceiptError
  value_error : ReceiptError

pub record TransformationReceipt : Type 0 where
  pub request_id : String
  pub trace_id : String
  pub idempotency_key : String
  pub transformation_version : String
  pub input_digest : String
  pub output_digest : String
  pub schema_digest : String
  pub original_media_removed : Bool
  pub issued_at : ℕ
  pub expires_at : ℕ

-- `_digest` of a list of texts and of a list of objects: `json.dumps` and SHA-256.
pub record Digests : Type 0 where
  pub of_texts : List String → String
  pub of_objects : List Fields → String

abbrev pub is_prepared : Status → Bool
is_prepared prepared = true
is_prepared _ = false

abbrev differs : Option String → String → Bool
differs none digest = false
differs (some expected) digest = not (digest == expected)

abbrev version_of : Option BackendEvidence → String
version_of none = "unknown"
version_of (some b) = b.version

module _ (d : Digests) where
  abbrev pub receipt_of : InteropResult → PreparedMarker → ℕ → ℕ → TransformationReceipt
  receipt_of r marker issued ttl = record {
    request_id = r.request_id;
    trace_id = r.trace_id;
    idempotency_key = r.idempotency_key;
    transformation_version = version_of r.backend;
    input_digest = d.of_texts r.asset_digests;
    output_digest = d.of_objects r.sanitized_messages;
    schema_digest = marker.schema_digest;
    original_media_removed = true;
    issued_at = issued;
    expires_at = issued + ttl;
  }

  -- `build_transformation_receipt`
  unfoldable pub build_transformation_receipt :
      InteropResult → ℕ → ℕ → Option String → Result ReceiptError TransformationReceipt
  build_transformation_receipt r issued ttl expected = do
    raise_if (not (is_prepared r.status) || not r.original_media_removed)
        (rejected "only media-free PREPARED results can be receipted")
    marker ← or_raise r.prepared_marker (rejected "prepared marker is required")
    raise_if (differs expected marker.schema_digest) (rejected "schema digest mismatch")
    raise_if (ltb ttl 1 || ltb 300 ttl) (rejected "receipt ttl is outside the allowed range")
    raise_if (ltb marker.expires_at (issued + ttl)) (rejected "receipt ttl exceeds asset ttl")
    ok (receipt_of r marker issued ttl)

-- The assets to delete, and those whose deletion is verified.
pub record CleanupBarrier : Type 0 where
  pub expected : List String
  pub verified : List String

-- `CleanupBarrier.__init__`
unfoldable pub make_barrier : List String → Result ReceiptError CleanupBarrier
make_barrier asset_ids =
    if not (is_nonempty asset_ids) || not (distinct asset_ids)
    then err value_error
    else ok (record { expected = asset_ids; verified = [] })

-- `_verified.add(asset_id)`, on a set as a list.
abbrev pub add_verified : String → CleanupBarrier → CleanupBarrier
add_verified asset_id b =
    if contains asset_id b.verified then b else record b { verified = asset_id ∷ b.verified }

-- `mark_deleted`
unfoldable pub mark_deleted : String → Bool → CleanupBarrier → Result ReceiptError CleanupBarrier
mark_deleted asset_id verified b = do
  raise_if (not (contains asset_id b.expected)) (rejected "unexpected asset cleanup reference")
  ok (if verified then add_verified asset_id b else b)

abbrev pub within : List String → List String → Bool
within xs ys = all (λ x. contains x ys) xs

-- `finalize`; two sets are equal if each is within the other.
unfoldable pub finalize : CleanupBarrier → Result ReceiptError Bool
finalize b = do
  raise_if (not (within b.verified b.expected && within b.expected b.verified))
      (rejected "cleanup barrier is incomplete")
  ok true

-- `validate_cleanup_ttl`, at the clock's reading.
unfoldable pub validate_cleanup_ttl : PreparedMarker → ℕ → ℕ → Result ReceiptError (Unit {0})
validate_cleanup_ttl marker asset_expires_at now = do
  raise_if (not (ltb now asset_expires_at)) (rejected "asset has expired")
  raise_if (ltb asset_expires_at marker.expires_at) (rejected "result ttl cannot outlive asset ttl")
