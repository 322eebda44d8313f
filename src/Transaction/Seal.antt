-- ===== src/Transaction/Seal.antt =====
-- The checks of the transaction before anything is sent (media_bridge_gateway/transaction.py).
use media_bridge.Base.{ℕ, String, not, ◌&&◌, Option, none, some, List, if◌then◌else◌}
use media_bridge.Base.{Result, ok, err, ◌>>=◌, ◌>>◌, or_raise, raise_as}
use media_bridge.Json.{Json, text, object}
use media_bridge.Json.{Fields, end, field}
use media_bridge.Contracts.{SafeError}
use media_bridge.Capability.{
  CapabilityState, vision, non_vision, unknown, stale, ModelCapability, CapabilityRegistry,
  supports_all, resolve,
}
use media_bridge.Capability.Modalities.{ModalitySet}
use media_bridge.Receipts.{ReceiptBinding, verify, sign}
use media_bridge.Gate.{GateParts, DownstreamPayload, binding_of, receipt_ttl}
use media_bridge.State.Gateway.{GatewayStateRecord}
use media_bridge.Responses.References.{Web}
use media_bridge.Responses.Normalize.{NormalizedRequest}
use media_bridge.Transaction.Contracts.{SealedGatewayRequest, GatewayResponse, DownstreamFailure}
use media_bridge.Transaction.Payload.{SealError, sealing_failed, build_downstream_payload}

-- What the transaction is built from. `digest` is `digest_gateway_payload`, the standard library's
-- `json.dumps` and SHA-256, where `none` is the `ValueError` of a value that JSON does not have.
pub record Gateway : Type 0 where
  pub gate : GateParts
  pub web : Web
  pub signer_secret : List ℕ
  pub digest : Json → Option String
  pub downstream : SealedGatewayRequest → Result DownstreamFailure GatewayResponse
  pub snapshot_version : ℕ

-- When each step of one transaction reads its clock, and the nonce that it draws.
pub record Moment : Type 0 where
  pub resolved_at : ℕ
  pub checked_at : ℕ
  pub prepared_at : ℕ
  pub signed_at : ℕ
  pub verified_at : ℕ
  pub sealed_at : ℕ
  pub stored_at : ℕ
  pub nonce : String

abbrev capability_unknown : SafeError
capability_unknown = record {
  code = "capability_unknown";
  message = "Target capability is unknown.";
}

-- Whether a target may be sent what follows media of these modalities.
unfoldable pub taint_policy :
    CapabilityState → Option ModelCapability → ModalitySet → Result SafeError (Unit {0})
taint_policy unknown c modalities = err capability_unknown
taint_policy stale none modalities = err capability_unknown
taint_policy stale (some c) modalities =
    err (record { code = "capability_stale"; message = "Target capability is stale." })
taint_policy non_vision none modalities = err capability_unknown
taint_policy non_vision (some c) modalities = err (record {
  code = "tainted_state_nonvision";
  message = "Media-tainted state cannot be sent to a Non-Vision target.";
})
taint_policy vision none modalities = err capability_unknown
taint_policy vision (some c) modalities =
    if not (supports_all c modalities)
    then err (record {
      code = "tainted_state_unsupported";
      message = "Target does not support all media modalities in prior state.";
    })
    else if modalities.has_pdf && not c.pdf_passthrough_verified
    then err (record {
      code = "pdf_passthrough_unverified";
      message = "Target PDF passthrough capability is not verified.";
    })
    else ok tt

-- `_check_state_capability`, on the prior state of a request.
unfoldable pub check_state :
    CapabilityRegistry → ℕ → String → Option GatewayStateRecord → Result SafeError (Unit {0})
check_state registry now target none = ok tt
check_state registry now target (some s) =
    if s.media_tainted
    then taint_policy (resolve registry target now).state (resolve registry target now).capability
        s.media_modalities
    else ok tt

module _ (t : Gateway) (m : Moment) (raw : Fields) (n : NormalizedRequest)
    (p : DownstreamPayload) where
  abbrev pub nonced : Fields → Json
  nonced payload =
      object (field "payload" (object payload) (field "request_nonce" (text m.nonce) end))

  abbrev pub outer_binding : String → String → ReceiptBinding
  outer_binding input_digest output_digest = record {
    target_id = p.target_id;
    capability = p.capability;
    input_digest = input_digest;
    output_digest = output_digest;
    action = p.action;
  }

  abbrev pub sealed_request : Fields → String → String → String → SealedGatewayRequest
  sealed_request payload input_digest output_digest receipt = record {
    target_id = p.target_id;
    capability = p.capability;
    action = p.action;
    payload = payload;
    input_digest = input_digest;
    output_digest = output_digest;
    receipt = receipt;
    request_nonce = m.nonce;
    snapshot_version = t.snapshot_version;
  }

  -- The `try` block that seals: every failure in it is caught.
  unfoldable pub seal : Result SealError SealedGatewayRequest
  seal = do
    raise_as (verify t.gate.codec t.signer_secret m.verified_at p.receipt (binding_of p))
        sealing_failed
    payload ← build_downstream_payload raw n p
    input_digest ← or_raise (t.digest (object raw)) sealing_failed
    output_digest ← or_raise (t.digest (nonced payload)) sealing_failed
    receipt ←
        raise_as
          (sign t.gate.codec t.signer_secret m.sealed_at (outer_binding input_digest output_digest)
            receipt_ttl)
          sealing_failed
    ok (sealed_request payload input_digest output_digest receipt)
