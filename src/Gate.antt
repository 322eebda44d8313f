-- ===== src/Gate.antt =====
-- The fail-closed gate in front of every downstream model call (media_bridge/gate.py): `Effects` has
-- the calls to the collaborators, `Context` the conversion of media to text, and this file the decision
-- and the sealing. The clock of the capabilities and that of the receipts are two arguments.
pub mod Effects
pub mod Context
pub mod Decision
pub mod Safety
pub mod Cleanup
use media_bridge.Base.{
  ℕ, String, Bool, true, false, not, ◌&&◌, Option, none, some, List, [], ◌∷◌, ltb, is_blank,
  if◌then◌else◌,
}
use media_bridge.Base.{Result, ok, err}
use media_bridge.Json.{Json}
use media_bridge.Contracts.{
  MediaPart, ContentPart, text_part, media_part, base64_source, PrepareRequest, PrepareResult,
  SafeError, Action, passthrough, converted, blocked, part_accepted, result_accepted, image, pdf,
}
use media_bridge.Contracts.Dump.{dump_content, dump_request}
use media_bridge.Capability.{
  CapabilityState, vision, non_vision, unknown, stale, state_value, ModelCapability,
  CapabilityRegistry, resolve, supports_all, detect_media,
}
use media_bridge.Capability.Modalities.{is_pdf_only}
use media_bridge.Receipts.{Codec, ReceiptBinding, ReceiptError, sign}
use Effects.{
  Bytes, Call, Raised, gate_failure, cleanup_error, other, interrupted, Acquired, Services,
  acquire_called, pure, raise, or_fail, attempt, call, ◌>>=◌, ◌>>◌,
}
use Context.{ConvertedContext, acquisition_failed, extract_context, join_text}

pub record DownstreamPayload : Type 0 where
  pub target_id : String
  pub capability : String
  pub action : String
  pub content : List ContentPart
  pub input_digest : String
  pub output_digest : String
  pub receipt : String

-- `DownstreamPayload.binding`
unfoldable pub binding_of : DownstreamPayload → ReceiptBinding
binding_of p = record {
  target_id = p.target_id;
  capability = p.capability;
  input_digest = p.input_digest;
  output_digest = p.output_digest;
  action = p.action;
}

pub record GateOutcome : Type 0 where
  pub public : PrepareResult
  pub prepared : Option DownstreamPayload

-- The text of the `Literal` member.
abbrev pub action_value : Action → String
action_value passthrough = "passthrough"
action_value converted = "converted"
action_value blocked = "blocked"

-- What the gate is built from. `canonical`, `sha256_hex` and `b64encode` are the standard library's
-- `json.dumps`, `hashlib.sha256` and `base64.b64encode`.
pub record GateParts : Type 0 where
  pub services : Services
  pub registry : CapabilityRegistry
  pub codec : Codec
  pub secret : List ℕ
  pub canonical : Json → Bytes
  pub sha256_hex : Bytes → String
  pub b64encode : Bytes → String

unfoldable pub canonical_digest : GateParts → Json → String
canonical_digest g value = g.sha256_hex (g.canonical value)

unfoldable pub digest_content : GateParts → List ContentPart → String
unfolding canonical_digest
digest_content g content = canonical_digest g (dump_content content)

-- `_blocked`
unfoldable pub block : PrepareRequest → String → String → GateOutcome
block r code message =
    let detection = detect_media r.content in
    record {
      public = record {
        action = blocked;
        target_model = r.target;
        contains_media = ltb 0 detection.media_count;
        contains_image = detection.modalities.has_image;
        contains_pdf = detection.modalities.has_pdf;
        target_supports_vision = none;
        sanitized_text = none;
        original_image_removed = false;
        error = some (record { code = code; message = message });
      };
      prepared = none;
    }

abbrev pub is_vision : CapabilityState → Bool
is_vision vision = true
is_vision _ = false

-- The lifetime that `_ready` leaves to the signer.
abbrev pub receipt_ttl : ℕ
receipt_ttl = 30

unfoldable pub ready_payload :
    GateParts
    → PrepareRequest
    → List ContentPart
    → CapabilityState
    → Action
    → String
    → DownstreamPayload
ready_payload g r content capability action receipt = record {
  target_id = r.target;
  capability = state_value capability;
  action = action_value action;
  content = content;
  input_digest = canonical_digest g (dump_request r);
  output_digest = digest_content g content;
  receipt = receipt;
}

unfoldable pub ready_result :
    PrepareRequest → CapabilityState → Action → String → Bool → PrepareResult
ready_result r capability action text removed =
    let detection = detect_media r.content in
    record {
      action = action;
      target_model = r.target;
      contains_media = ltb 0 detection.media_count;
      contains_image = detection.modalities.has_image;
      contains_pdf = detection.modalities.has_pdf;
      target_supports_vision = some (is_vision capability);
      sanitized_text = some text;
      original_image_removed = removed;
      error = none;
    }

module _ (g : GateParts) (signed_at : ℕ) (r : PrepareRequest) (content : List ContentPart)
    (capability : CapabilityState) (action : Action) (text : String) (removed : Bool) where
  -- What the signer is asked to bind: the receipt is no part of it.
  abbrev pub signature_of_ready : Result ReceiptError String
  signature_of_ready =
      sign g.codec g.secret signed_at (binding_of (ready_payload g r content capability action ""))
        receipt_ttl

  -- The end of `_ready`; the public result is validated when it is built.
  unfoldable pub issue : Result ReceiptError String → Call GateOutcome
  issue (err _) = raise other
  issue (ok receipt) =
      if result_accepted (ready_result r capability action text removed)
      then pure (record {
        public = ready_result r capability action text removed;
        prepared = some (ready_payload g r content capability action receipt);
      })
      else raise other

  -- `_ready`
  unfoldable pub ready : Call GateOutcome
  ready = issue signature_of_ready

-- `_normalize_vision_content`: every media part as bounded base64.
unfoldable pub normalize_part : GateParts → String → MediaPart → Call ContentPart
normalize_part g tenant part = do
  acquired ←
      or_fail (call (acquire_called part tenant) (g.services.acquire part tenant))
        acquisition_failed
  let normalized = media_part (record {
    media_type = part.media_type;
    source = base64_source (g.b64encode acquired.content);
    filename = none;
    declared_mime = some acquired.mime_type;
  })
  if part_accepted normalized then pure normalized else raise other

unfoldable pub normalize_vision_content :
    GateParts → String → List ContentPart → Call (List ContentPart)
normalize_vision_content g tenant [] = pure []
normalize_vision_content g tenant (text_part s ∷ parts) = do
  rest ← normalize_vision_content g tenant parts
  pure (text_part s ∷ rest)
normalize_vision_content g tenant (media_part part ∷ parts) = do
  first ← normalize_part g tenant part
  rest ← normalize_vision_content g tenant parts
  pure (first ∷ rest)

module _ (g : GateParts) (signed_at : ℕ) (r : PrepareRequest) (tenant : String) where
  unfoldable pub finish_passthrough : Result Raised (List ContentPart) → Call GateOutcome
  finish_passthrough (ok content) =
      ready g signed_at r content vision passthrough (join_text r.content) false
  finish_passthrough (err (gate_failure code message)) = pure (block r code message)
  finish_passthrough (err cleanup_error) = raise cleanup_error
  finish_passthrough (err other) = raise other
  finish_passthrough (err interrupted) = raise interrupted

  -- The passthrough of verified PDF input.
  unfoldable pub pass_media : Call GateOutcome
  pass_media = do
    normalized ← attempt (normalize_vision_content g tenant r.content)
    finish_passthrough normalized

  -- What follows a conversion, successful or not.
  unfoldable pub finish_conversion : Result Raised ConvertedContext → Call GateOutcome
  finish_conversion (err (gate_failure code message)) = pure (block r code message)
  finish_conversion (err interrupted) = raise interrupted
  finish_conversion (err cleanup_error) =
      pure (block r "preprocessing_failed" "Media preprocessing failed safely.")
  finish_conversion (err other) =
      pure (block r "preprocessing_failed" "Media preprocessing failed safely.")
  finish_conversion (ok context) =
      if part_accepted (text_part context.structured_context)
      then ready g signed_at r (text_part context.structured_context ∷ []) non_vision converted
          context.structured_context true
      else raise other

  unfoldable pub convert_media : Call GateOutcome
  convert_media = do
    outcome ← attempt (extract_context g.services r.content r.profile tenant)
    finish_conversion outcome

  unfoldable pub pass_text : CapabilityState → Call GateOutcome
  pass_text capability =
      ready g signed_at r r.content capability passthrough (join_text r.content) true

  abbrev pub has_media_parts : Bool
  has_media_parts = ltb 0 (detect_media r.content).media_count

  -- Media for a model that takes some kind of media.
  unfoldable pub prepare_vision : ModelCapability → Call GateOutcome
  prepare_vision c =
      if not (supports_all c (detect_media r.content).modalities)
      then pure (
          block r "unsupported_media_modality"
            "Target does not support every requested media modality.")
      else if is_pdf_only (detect_media r.content).modalities && c.pdf_passthrough_verified
      then pass_media
      else convert_media

  -- `prepare_for_model` behind the capability tests.
  unfoldable pub prepare_active : CapabilityState → ModelCapability → Call GateOutcome
  prepare_active capability c =
      if is_vision capability && has_media_parts
      then prepare_vision c
      else if has_media_parts
      then convert_media
      else pass_text capability

  unfoldable pub prepare_resolved : CapabilityState → Option ModelCapability → Call GateOutcome
  prepare_resolved unknown c = pure (block r "capability_unknown" "Target capability is unknown.")
  prepare_resolved stale c = pure (block r "capability_stale" "Target capability is stale.")
  prepare_resolved vision none = pure (block r "capability_unknown" "Target capability is unknown.")
  prepare_resolved vision (some c) = prepare_active vision c
  prepare_resolved non_vision none =
      pure (block r "capability_unknown" "Target capability is unknown.")
  prepare_resolved non_vision (some c) = prepare_active non_vision c

-- `PreRequestGate.prepare_for_model`
unfoldable pub prepare_for_model : GateParts → ℕ → ℕ → PrepareRequest → String → Call GateOutcome
prepare_for_model g now signed_at r tenant =
    let resolution = resolve g.registry r.target now in
    prepare_resolved g signed_at r tenant resolution.state resolution.capability
