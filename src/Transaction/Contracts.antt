-- ===== src/Transaction/Contracts.antt =====
-- Requests, responses, subjects and failures of the gateway (media_bridge_gateway/contracts.py).
use media_bridge.Base.{
  split_once, false, ℕ, String, Bool, ◌&&◌, ◌||◌, Option, none, some, List, all, length, leb, codes,
  ◌==◌, number_eq, is_lower, is_digit, full_match,
}
use media_bridge.Json.{Fields}
use media_bridge.Contracts.{SafeError, PrepareResult}
use media_bridge.Receipts.{ReceiptBinding}
use media_bridge.State.Identifiers.{tenant_accepted, response_id_accepted}

pub record Subject : Type 0 where
  pub credential_selector : String
  pub tenant_id : String
  pub scopes : List String

abbrev is_word : ℕ → Bool
is_word c = is_lower c || is_digit c || c == b'_' || c == b'-'

-- `^[a-z][a-z0-9_-]{0,31}:[a-z][a-z0-9_-]{0,31}$`
unfoldable pub scope_accepted : String → Bool
scope_accepted scope = elim (split_once ":" scope) [
  | none ↦ false
  | some (area, action) ↦
      full_match is_lower is_word 31 (codes area) && full_match is_lower is_word 31 (codes action)
]

-- `DataPlaneSubject.__post_init__`
unfoldable pub subject_accepted : Subject → Bool
unfolding scope_accepted
subject_accepted s =
    response_id_accepted s.credential_selector
    && (tenant_accepted s.tenant_id && (leb 1 (length s.scopes) && all scope_accepted s.scopes))

pub record SealedGatewayRequest : Type 0 where
  pub target_id : String
  pub capability : String
  pub action : String
  pub payload : Fields
  pub input_digest : String
  pub output_digest : String
  pub receipt : String
  pub request_nonce : String
  pub snapshot_version : ℕ

-- `SealedGatewayRequest.binding`
unfoldable pub sealed_binding : SealedGatewayRequest → ReceiptBinding
sealed_binding r = record {
  target_id = r.target_id;
  capability = r.capability;
  input_digest = r.input_digest;
  output_digest = r.output_digest;
  action = r.action;
}

-- A stream as its reader finds it: the chunks, and whether it comes to its end.
pub record Stream : Type 0 where
  pub chunks : List (List ℕ)
  pub completes : Bool

pub record GatewayResponse : Type 0 where
  pub body : List ℕ
  pub content_type : String
  pub response_id : String
  pub status_code : ℕ
  pub stream : Option Stream

pub data GatewayStatus : Type 0 where
  completed blocked upstream_error : GatewayStatus

pub record GatewayResult : Type 0 where
  pub status : GatewayStatus
  pub response : Option GatewayResponse
  pub gate_result : Option PrepareResult
  pub error : Option SafeError
  pub http_status : ℕ
  pub warning : Option SafeError

-- `DownstreamGuardError`, `DownstreamError` with its status, and every other exception.
pub data DownstreamFailure : Type 0 where
  guard_error : DownstreamFailure
  downstream_error : SafeError → ℕ → DownstreamFailure
  unexpected : DownstreamFailure
