-- ===== src/Interop.antt =====
-- The interop v2 contracts (media_bridge/contracts_v2.py). `Receipts` has the receipts and the cleanup of
-- media_bridge/interop_v2.py, `Route` the responsibility router of media_bridge/router.py, `Wire` the
-- messages for a provider of media_bridge_gateway/hops.py, and `Prepare` the preparation of
-- media_bridge_gateway/transaction.py; the other children prove.
pub mod Receipts
pub mod Route
pub mod Wire
pub mod Prepare
pub mod Barrier
pub mod Decides
pub mod External
pub mod Evidence
use media_bridge.Base.{
  ℕ, ◌+◌, ◌==◌, number_eq, String, Bool, true, false, not, ◌&&◌, ◌||◌, Option, none, some, List, [],
  ◌∷◌, is_some, leb,
}
use media_bridge.Json.{Fields}
use media_bridge.Hops.{HopMetadata}

-- `MediaBridgeV2ErrorCode`
pub data ErrorCode : Type 0 where
  media_unsupported asset_not_found asset_expired fetch_denied ssrf_blocked size_limit_exceeded :
      ErrorCode
  ocr_failed vision_backend_failed sanitization_failed policy_denied original_media_remains :
      ErrorCode
  contract_version_unsupported capability_unknown capability_stale gateway_loop_detected : ErrorCode

-- The value of the `StrEnum` member.
unfoldable pub code_value : ErrorCode → String
code_value media_unsupported = "MEDIA_UNSUPPORTED"
code_value asset_not_found = "ASSET_NOT_FOUND"
code_value asset_expired = "ASSET_EXPIRED"
code_value fetch_denied = "FETCH_DENIED"
code_value ssrf_blocked = "SSRF_BLOCKED"
code_value size_limit_exceeded = "SIZE_LIMIT_EXCEEDED"
code_value ocr_failed = "OCR_FAILED"
code_value vision_backend_failed = "VISION_BACKEND_FAILED"
code_value sanitization_failed = "SANITIZATION_FAILED"
code_value policy_denied = "POLICY_DENIED"
code_value original_media_remains = "ORIGINAL_MEDIA_REMAINS"
code_value contract_version_unsupported = "CONTRACT_VERSION_UNSUPPORTED"
code_value capability_unknown = "CAPABILITY_UNKNOWN"
code_value capability_stale = "CAPABILITY_STALE"
code_value gateway_loop_detected = "GATEWAY_LOOP_DETECTED"

pub record InteropError : Type 0 where
  pub code : ErrorCode
  pub message : String
  pub retryable : Bool

pub record AssetReference : Type 0 where
  pub asset_id : Option String
  pub signed_url : Option String
  pub inline_base64 : Option String
  pub media_type_hint : String
  pub digest : Option String
  pub expires_at : Option ℕ

abbrev present : Option String → ℕ
present none = 0
present (some _) = 1

-- `require_one_source`
unfoldable pub one_source : AssetReference → Bool
one_source a = present a.asset_id + present a.signed_url + present a.inline_base64 == 1

-- A `datetime`: with a time zone, or without one.
pub data Deadline : Type 0 where
  aware naive : ℕ → Deadline

pub record TargetCapabilitySnapshot : Type 0 where
  pub model_id : String
  pub capability_snapshot_version : String
  pub capability_snapshot_digest : String
  pub capabilities : Fields
  pub observed_at : ℕ
  pub fresh_until : Deadline

-- `is_fresh`: an instant with a time zone cannot be compared with one without, which is a `TypeError`.
unfoldable pub is_fresh : TargetCapabilitySnapshot → ℕ → Option Bool
is_fresh t now = elim t.fresh_until [ aware until ↦ some (leb now until) | naive until ↦ none ]

pub data Mode : Type 0 where
  standalone host_managed eoul : Mode

-- The policy of the transformation, which only the transformation reads, is as it was sent.
pub record InteropRequest : Type 0 where
  pub request_id : String
  pub trace_id : String
  pub idempotency_key : String
  pub mode : Mode
  pub host_id : Option String
  pub canonical_messages : List Fields
  pub assets : List AssetReference
  pub target : TargetCapabilitySnapshot
  pub transformation_policy : Fields
  pub hop : HopMetadata

-- `validate_host_identity`
unfoldable pub host_identified : InteropRequest → Bool
host_identified r = elim r.mode [ host_managed ↦ is_some r.host_id | _ ↦ true ]

-- `normalized_mode`
unfoldable pub normalized_mode : Mode → Mode
normalized_mode eoul = host_managed
normalized_mode host_managed = host_managed
normalized_mode standalone = standalone

pub data Owner : Type 0 where
  media_bridge_owner external_host : Owner

-- `normalized_owner`
unfoldable pub normalized_owner : Mode → Owner
unfolding normalized_mode
normalized_owner m = elim (normalized_mode m) [
  | standalone ↦ media_bridge_owner
  | _ ↦ external_host
]

pub data Status : Type 0 where
  unchanged prepared blocked failed : Status

pub record BackendEvidence : Type 0 where
  pub id : String
  pub version : String

pub record PreparedMarker : Type 0 where
  pub schema_digest : String
  pub expires_at : ℕ

-- Evidence that no operation reads is as it is dumped.
pub record InteropResult : Type 0 where
  pub status : Status
  pub request_id : String
  pub trace_id : String
  pub idempotency_key : String
  pub sanitized_messages : List Fields
  pub original_media_removed : Bool
  pub error : Option InteropError
  pub asset_digests : List String
  pub media_types : List String
  pub transformations : List Fields
  pub backend : Option BackendEvidence
  pub provenance : List Fields
  pub confidence : Option Fields
  pub warnings : List String
  pub information_loss : Option Fields
  pub required_capabilities_after : Option Fields
  pub token_estimate : Option Fields
  pub prepared_marker : Option PreparedMarker

abbrev pub is_nonempty {ℓ} : {A : Type ℓ} → List A → Bool
is_nonempty [] = false
is_nonempty (x ∷ xs) = true

-- `validate_status_invariants`
unfoldable pub status_holds : Status → InteropResult → Bool
status_holds prepared r =
    (r.original_media_removed && not (is_some r.error))
    && ((is_nonempty r.asset_digests
          && (is_nonempty r.media_types && is_nonempty r.transformations))
        && ((is_some r.backend && (is_nonempty r.provenance && is_some r.confidence))
            && ((is_some r.information_loss && is_some r.required_capabilities_after)
                && (is_some r.token_estimate && is_some r.prepared_marker))))
status_holds unchanged r = r.original_media_removed && not (is_some r.error)
status_holds blocked r = is_some r.error
status_holds failed r = is_some r.error

unfoldable pub result_holds : InteropResult → Bool
unfolding status_holds
result_holds r = status_holds r.status r

abbrev pub may_be_sent : Status → Bool
may_be_sent prepared = true
may_be_sent unchanged = true
may_be_sent _ = false

-- `provider_call_allowed`
unfoldable pub provider_call_allowed : InteropResult → Bool
provider_call_allowed r = may_be_sent r.status && r.original_media_removed
