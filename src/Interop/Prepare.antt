-- ===== src/Interop/Prepare.antt =====
-- `V2PreparationTransaction` (media_bridge_gateway/transaction.py). A callable returns or raises; the
-- store's runs are those of `Idempotency`.
use media_bridge.Base.{ℕ, String, Bool, false, not, Option, none, some, [], if◌then◌else◌}
use media_bridge.Base.{Result, ok, err, ◌>>=◌}
use media_bridge.Idempotency.{IdempotencyError, IdempotencyStore, RunOutcome, run}
use media_bridge.Interop.{
  ErrorCode, original_media_remains, sanitization_failed, blocked, InteropResult,
}
use media_bridge.Interop.Receipts.{
  ReceiptError, rejected, value_error, TransformationReceipt, Digests, is_prepared,
  build_transformation_receipt,
}

abbrev pub Prepared : Type 0
Prepared = InteropResult × Option TransformationReceipt

abbrev error_message : ReceiptError → String
error_message (rejected message) = message
error_message value_error = "cleanup barrier requires unique asset ids"

-- The result that is blocked after its transformation.
unfoldable pub withdrawn : InteropResult → ErrorCode → String → InteropResult
withdrawn r code message = record r {
  status = blocked;
  sanitized_messages = [];
  original_media_removed = false;
  error = some (record { code = code; message = message; retryable = false });
}

unfoldable pub receipted : InteropResult → Result ReceiptError TransformationReceipt → Prepared
receipted r (ok receipt) = (r, some receipt)
receipted r (err e) = (withdrawn r sanitization_failed (error_message e), none)

-- The digests, the lifetime of a receipt, and the clock when it is built.
module _ (d : Digests) (ttl_seconds issued : ℕ) where
  unfoldable pub cleaned : InteropResult → Bool → Prepared
  cleaned r clean =
      if not clean
      then (withdrawn r original_media_remains "Original media cleanup was not verified.", none)
      else receipted r (build_transformation_receipt d r issued ttl_seconds none)

  unfoldable pub finished :
      Result IdempotencyError Bool → InteropResult → Result IdempotencyError Prepared
  unfolding cleaned
  finished cleanup r =
      if not (is_prepared r.status)
      then ok (r, none)
      else (do clean ← cleanup; ok (cleaned r clean))

  -- The operation of `execute`.
  unfoldable pub operation :
      Result IdempotencyError InteropResult
      → Result IdempotencyError Bool
      → Result IdempotencyError Prepared
  operation transform cleanup = do r ← transform; finished cleanup r

  -- `execute`, at the three readings of the store's clock.
  unfoldable pub execute :
      ℕ
      → ℕ
      → ℕ
      → String
      → String
      → Result IdempotencyError InteropResult
      → Result IdempotencyError Bool
      → IdempotencyStore Prepared
      → RunOutcome Prepared
  execute entered checked stored key fingerprint transform cleanup =
      run entered checked stored key fingerprint (operation transform cleanup)
