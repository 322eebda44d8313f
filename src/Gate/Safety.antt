-- ===== src/Gate/Safety.antt =====
-- No outcome of the gate carries media to a model that is not verified for it, and every outcome is
-- either sealed or blocked.
use media_bridge.Base.{
  ℕ, String, Bool, true, false, ◌&&◌, Option, none, some, List, [], ◌∷◌, ◌≡◌, refl, sym, ap, ◌∙◌,
  ◌⊎◌, inl, inr, arith, any, is_some, Bool-cases,
}
use media_bridge.Base.{Result, ok, err}
use media_bridge.Contracts.{
  ContentPart, text_part, PrepareRequest, PrepareResult, Action, passthrough, converted, blocked,
  part_accepted, result_accepted,
}
use media_bridge.Capability.{
  CapabilityState, vision, non_vision, unknown, stale, state_value, ModelCapability, resolve,
  is_media, detect_media, supports_all,
}
use media_bridge.Capability.Modalities.{is_pdf_only}
use media_bridge.Capability.Resolve.{is_active}
use media_bridge.Receipts.{ReceiptError, sign}
use media_bridge.Gate.Effects.{
  History, Raised, gate_failure, cleanup_error, other, interrupted, attempt,
}
use media_bridge.Gate.Context.{ConvertedContext, join_text, extract_context}
use media_bridge.Gate.{
  GateParts, GateOutcome, DownstreamPayload, binding_of, action_value, digest_content, block,
  is_vision, receipt_ttl, issue, signature_of_ready, ready, ready_payload, ready_result,
  normalize_vision_content, pass_media, finish_passthrough, prepare_vision, finish_conversion,
  convert_media, has_media_parts, pass_text, prepare_active, prepare_resolved, prepare_for_model,
}
use media_bridge.Gate.Decision.{Post, Ensures, Ensures-bind, media_count-zero}

-- Why media may reach a model: only PDF was sent, and the model's entry is active, takes it, and is
-- verified for PDF passthrough.
pub record Verified (g : GateParts) (now : ℕ) (r : PrepareRequest) : Type 0 where
  pub entry : ModelCapability
  pub state : (resolve g.registry r.target now).state ≡ vision
  pub found : (resolve g.registry r.target now).capability ≡ some entry
  pub supported : supports_all entry (detect_media r.content).modalities ≡ true
  pub pdf_only : is_pdf_only (detect_media r.content).modalities ≡ true
  pub verified : entry.pdf_passthrough_verified ≡ true

-- Content holds no media, or its media was verified.
abbrev pub Origin : GateParts → ℕ → PrepareRequest → List ContentPart → Type 0
Origin g now r content = (any is_media content ≡ false) ⊎ Verified g now r

-- A payload that the guarded downstream can check.
pub record Sealed (g : GateParts) (signed_at : ℕ) (r : PrepareRequest) (p : DownstreamPayload)
    : Type 0 where
  pub target : p.target_id ≡ r.target
  pub digest : p.output_digest ≡ digest_content g p.content
  pub signed : sign g.codec g.secret signed_at (binding_of p) receipt_ttl ≡ ok p.receipt
  pub form :
      ((p.capability ≡ "vision") × (p.action ≡ "passthrough"))
      ⊎ ((p.capability ≡ "non_vision")
          × (any is_media p.content ≡ false)
          × ((p.action ≡ "passthrough") ⊎ (p.action ≡ "converted")))

-- The two shapes of an outcome.
abbrev pub Shape :
    GateParts → ℕ → ℕ → PrepareRequest → PrepareResult → Option DownstreamPayload → Type 0
Shape g now at r public none =
    (public.action ≡ blocked) × (is_some public.error ≡ true) × (public.sanitized_text ≡ none)
Shape g now at r public (some p) =
    Sealed g at r p
    × (p.action ≡ action_value public.action)
    × (public.error ≡ none)
    × Origin g now r p.content

abbrev pub IsSound : GateParts → ℕ → ℕ → PrepareRequest → GateOutcome → Type 0
IsSound g now at r o = Shape g now at r o.public o.prepared

-- The boundary between a capability and what is sent under it.
abbrev Boundary : CapabilityState → Action → List ContentPart → Type 0
Boundary capability action content =
    ((capability ≡ vision) × (action ≡ passthrough))
    ⊎ ((capability ≡ non_vision)
        × (any is_media content ≡ false)
        × ((action ≡ passthrough) ⊎ (action ≡ converted)))

is_vision-eq : (capability : CapabilityState) → is_vision capability ≡ true → capability ≡ vision
is_vision-eq vision h = refl
is_vision-eq non_vision h = absurd (cc h)
is_vision-eq unknown h = absurd (cc h)
is_vision-eq stale h = absurd (cc h)

module _ (g : GateParts) (now at : ℕ) (r : PrepareRequest) (tenant : String) where
  block-IsSound : (code message : String) → IsSound g now at r (block r code message)
  unfolding block
  block-IsSound code message = (refl, refl, refl)

  ready_payload-Sealed :
      (content : List ContentPart) (capability : CapabilityState) (action : Action)
      (receipt : String)
      → Boundary capability action content
      → sign g.codec g.secret at
          (binding_of (ready_payload g r content capability action ""))
          receipt_ttl
        ≡ ok receipt
      → Sealed g at r (ready_payload g r content capability action receipt)
  unfolding ready_payload binding_of
  ready_payload-Sealed content capability action receipt form q = record {
    target = refl;
    digest = refl;
    signed = q;
    form = elim form [
      | inl (c, a) ↦ inl (ap state_value c, ap action_value a)
      | inr (c, m, a) ↦ inr (
        ap state_value c,
        m,
        elim a [ inl e ↦ inl (ap action_value e) | inr e ↦ inr (ap action_value e) ],
      )
    ];
  }

  ready_payload-action :
      (content : List ContentPart) (capability : CapabilityState) (action : Action)
      (receipt : String)
      → (ready_payload g r content capability action receipt).action ≡ action_value action
  unfolding ready_payload
  ready_payload-action content capability action receipt = refl

  ready_payload-content :
      (content : List ContentPart) (capability : CapabilityState) (action : Action)
      (receipt : String)
      → any is_media content
        ≡ any is_media (ready_payload g r content capability action receipt).content
  unfolding ready_payload
  ready_payload-content content capability action receipt = refl

  issue-IsSound :
      (content : List ContentPart) (capability : CapabilityState) (action : Action) (text : String)
      (removed : Bool) (signature : Result ReceiptError String)
      → signature_of_ready g at r content capability action text removed ≡ signature
      → Boundary capability action content
      → Origin g now r content
      → Ensures (IsSound g now at r) (issue g at r content capability action text removed signature)
  unfolding issue ready_result
  issue-IsSound content capability action text removed (err e) q form origin h = tt
  issue-IsSound content capability action text removed (ok receipt) q form origin h =
      elim (Bool-cases (result_accepted (ready_result r capability action text removed))) [
        | inr refused ↦ rw refused tt
        | inl accepted ↦ rw accepted (
          ready_payload-Sealed content capability action receipt form q,
          ready_payload-action content capability action receipt,
          refl,
          elim origin [
            | inl plain ↦
                inl (sym (ready_payload-content content capability action receipt) ∙ plain)
            | inr v ↦ inr v
          ],
        )
      ]

  ready-IsSound :
      (content : List ContentPart) (capability : CapabilityState) (action : Action) (text : String)
      (removed : Bool)
      → Boundary capability action content
      → Origin g now r content
      → Ensures (IsSound g now at r) (ready g at r content capability action text removed)
  unfolding ready
  ready-IsSound content capability action text removed form origin =
      issue-IsSound content capability action text removed
        (signature_of_ready g at r content capability action text removed) refl form origin

  finish_conversion-IsSound :
      (outcome : Result Raised ConvertedContext)
      → Ensures (IsSound g now at r) (finish_conversion g at r tenant outcome)
  unfolding finish_conversion is_media
  finish_conversion-IsSound (err (gate_failure code message)) h = block-IsSound code message
  finish_conversion-IsSound (err interrupted) h = tt
  finish_conversion-IsSound (err cleanup_error) h =
      block-IsSound "preprocessing_failed" "Media preprocessing failed safely."
  finish_conversion-IsSound (err other) h =
      block-IsSound "preprocessing_failed" "Media preprocessing failed safely."
  finish_conversion-IsSound (ok context) h =
      elim (Bool-cases (part_accepted (text_part context.structured_context))) [
        | inr refused ↦ rw refused tt
        | inl accepted ↦ rw accepted (
            ready-IsSound (text_part context.structured_context ∷ []) non_vision converted
              context.structured_context true (inr (refl, refl, inr refl)) (inl refl) h)
      ]

  convert_media-IsSound : Ensures (IsSound g now at r) (convert_media g at r tenant)
  unfolding convert_media
  convert_media-IsSound =
      Ensures-bind (IsSound g now at r)
        (attempt (extract_context g.services r.content r.profile tenant))
        (finish_conversion g at r tenant) finish_conversion-IsSound

  pass_text-IsSound :
      (capability : CapabilityState)
      → is_active capability ≡ true
      → has_media_parts g at r tenant ≡ false
      → Ensures (IsSound g now at r) (pass_text g at r tenant capability)
  unfolding pass_text
  pass_text-IsSound vision live plain =
      ready-IsSound r.content vision passthrough (join_text r.content) true (inl (refl, refl))
        (inl (media_count-zero r.content plain))
  pass_text-IsSound non_vision live plain =
      ready-IsSound r.content non_vision passthrough (join_text r.content) true
        (inr (refl, media_count-zero r.content plain, inl refl))
        (inl (media_count-zero r.content plain))
  pass_text-IsSound unknown live plain = absurd (cc live)
  pass_text-IsSound stale live plain = absurd (cc live)

  finish_passthrough-IsSound :
      Verified g now r
      → (outcome : Result Raised (List ContentPart))
      → Ensures (IsSound g now at r) (finish_passthrough g at r tenant outcome)
  unfolding finish_passthrough
  finish_passthrough-IsSound v (ok content) h =
      ready-IsSound content vision passthrough (join_text r.content) false (inl (refl, refl))
        (inr v) h
  finish_passthrough-IsSound v (err (gate_failure code message)) h = block-IsSound code message
  finish_passthrough-IsSound v (err cleanup_error) h = tt
  finish_passthrough-IsSound v (err other) h = tt
  finish_passthrough-IsSound v (err interrupted) h = tt

  pass_media-IsSound : Verified g now r → Ensures (IsSound g now at r) (pass_media g at r tenant)
  unfolding pass_media
  pass_media-IsSound v =
      Ensures-bind (IsSound g now at r) (attempt (normalize_vision_content g tenant r.content))
        (finish_passthrough g at r tenant) (finish_passthrough-IsSound v)

  prepare_vision-IsSound :
      (c : ModelCapability)
      → (resolve g.registry r.target now).state ≡ vision
      → (resolve g.registry r.target now).capability ≡ some c
      → Ensures (IsSound g now at r) (prepare_vision g at r tenant c)
  unfolding prepare_vision
  prepare_vision-IsSound c state found h =
      elim (Bool-cases (supports_all c (detect_media r.content).modalities)) [
        | inr refused ↦ rw refused (block-IsSound _ _)
        | inl supported ↦
            elim (Bool-cases
              (is_pdf_only (detect_media r.content).modalities && c.pdf_passthrough_verified)) [
                | inr convert ↦ rw (supported, convert) (convert_media-IsSound h)
                | inl pass ↦
                    rw (supported, pass)
                      (pass_media-IsSound
                        (record {
                          entry = c;
                          state = state;
                          found = found;
                          supported = supported;
                          pdf_only = ground arith;
                          verified = ground arith;
                        })
                        h)
              ]
      ]

  prepare_active-IsSound :
      (capability : CapabilityState) (c : ModelCapability)
      → is_active capability ≡ true
      → (resolve g.registry r.target now).state ≡ capability
      → (resolve g.registry r.target now).capability ≡ some c
      → Ensures (IsSound g now at r) (prepare_active g at r tenant capability c)
  unfolding prepare_active
  prepare_active-IsSound capability c live state found h =
      elim (Bool-cases (has_media_parts g at r tenant)) [
        | inr plain ↦ elim (Bool-cases (is_vision capability)) [
          | inl sees ↦ rw (sees, plain) (pass_text-IsSound capability live plain h)
          | inr blind ↦ rw (blind, plain) (pass_text-IsSound capability live plain h)
        ]
        | inl media ↦ elim (Bool-cases (is_vision capability)) [
          | inl sees ↦
              rw (sees, media)
                (prepare_vision-IsSound c (state ∙ is_vision-eq capability sees) found h)
          | inr blind ↦ rw (blind, media) (convert_media-IsSound h)
        ]
      ]

  prepare_resolved-IsSound :
      (capability : CapabilityState) (c : Option ModelCapability)
      → (resolve g.registry r.target now).state ≡ capability
      → (resolve g.registry r.target now).capability ≡ c
      → Ensures (IsSound g now at r) (prepare_resolved g at r tenant capability c)
  unfolding prepare_resolved
  prepare_resolved-IsSound unknown c state found h = block-IsSound _ _
  prepare_resolved-IsSound stale c state found h = block-IsSound _ _
  prepare_resolved-IsSound vision none state found h = block-IsSound _ _
  prepare_resolved-IsSound vision (some c) state found h =
      prepare_active-IsSound vision c refl state found h
  prepare_resolved-IsSound non_vision none state found h = block-IsSound _ _
  prepare_resolved-IsSound non_vision (some c) state found h =
      prepare_active-IsSound non_vision c refl state found h

  -- Every outcome that the gate returns is blocked, with an error and with nothing prepared, or sealed
  -- for exactly the requested target: its digest is that of its content, its receipt is the signer's
  -- over its binding, and its capability and action fit. A payload under `non_vision` holds no media,
  -- and media is prepared only when all of it is PDF and the active entry of the target takes it and is
  -- verified for PDF passthrough.
  pub prepare_for_model-IsSound :
      (h : History) → Post (IsSound g now at r) (prepare_for_model g now at r tenant h).0
  unfolding prepare_for_model
  prepare_for_model-IsSound =
      prepare_resolved-IsSound (resolve g.registry r.target now).state
        (resolve g.registry r.target now).capability refl refl
