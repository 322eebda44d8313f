-- ===== src/Router.antt =====
-- The mandatory router adapter and the guarded downstream (media_bridge/router.py). A provider is the
-- function of what it is sent to what it answers.
pub mod Guard
pub mod Invoke
pub mod FollowUp
use media_bridge.Base.{
  ℕ, String, Bool, true, false, not, ◌&&◌, ◌||◌, Option, none, some, List, [], ◌∷◌, ltb, is_blank,
  ◌==◌, string_eq, if◌then◌else◌,
}
use media_bridge.Base.{Result, ok, err, raise_if, ◌>>=◌, ◌>>◌}
use media_bridge.Contracts.{
  ContentPart, text_part, PrepareRequest, PrepareResult, generic, request_accepted,
}
use media_bridge.Capability.{detect_media}
use media_bridge.Receipts.{ReceiptError, ReceiptBinding, encoding_error, verify}
use media_bridge.Gate.{
  DownstreamPayload, GateParts, GateOutcome, binding_of, digest_content, prepare_for_model,
}
use media_bridge.Gate.Effects.{History, Raised}
use media_bridge.Gate.Context.{join_text}

pub data GuardError : Type 0 where
  digest_mismatch no_valid_receipt media_for_non_vision inactive_capability : GuardError
  action_not_permitted invalid_boundary : GuardError
  unicode_error : GuardError

pub record DownstreamRequest : Type 0 where
  pub target_id : String
  pub content : List ContentPart

-- `except ReceiptValidationError`: the encoding error of `verify` is none, and passes.
unfoldable pub checked_receipt : Result ReceiptError ReceiptBinding → Result GuardError (Unit {0})
checked_receipt (ok b) = ok tt
checked_receipt (err encoding_error) = err unicode_error
checked_receipt (err _) = err no_valid_receipt

-- `GuardedDownstream.invoke`, up to the request that the provider is sent.
unfoldable pub guard : GateParts → ℕ → DownstreamPayload → Result GuardError DownstreamRequest
guard g now p = do
  raise_if (not (digest_content g p.content == p.output_digest)) digest_mismatch
  checked_receipt (verify g.codec g.secret now p.receipt (binding_of p))
  raise_if (p.capability == "non_vision" && ltb 0 (detect_media p.content).media_count)
      media_for_non_vision
  raise_if (not (p.capability == "non_vision" || p.capability == "vision")) inactive_capability
  raise_if (not (p.action == "passthrough" || p.action == "converted")) action_not_permitted
  raise_if (p.action == "converted" && not (p.capability == "non_vision")) invalid_boundary
  ok (record { target_id = p.target_id; content = p.content })

pub record SafeState : Type 0 where
  pub text : String

pub record RouterInvocation : Type 0 where
  pub gate_result : PrepareResult
  pub downstream_response : Option String
  pub safe_state : Option SafeState

-- `_safe_state`
unfoldable pub safe_state_of : List ContentPart → Option SafeState
safe_state_of content =
    if ltb 0 (detect_media content).media_count
    then none
    else if is_blank (join_text content)
    then none
    else some (record { text = join_text content })

pub data RouterError : Type 0 where
  gate_raised : Raised → RouterError
  guard_raised : GuardError → RouterError
  provider_raised : RouterError

-- The requests that reach the provider, latest first.
abbrev pub Sent : Type 0
Sent = List DownstreamRequest

module _ (g : GateParts) (provider : DownstreamRequest → Option String) where
  -- The end of `RouterAdapter.invoke`: the provider's answer, or its exception.
  unfoldable pub deliver :
      PrepareResult → DownstreamRequest → Option String → Result RouterError RouterInvocation
  deliver public q none = err provider_raised
  deliver public q (some response) = ok (record {
    gate_result = public;
    downstream_response = some response;
    safe_state = safe_state_of q.content;
  })

  unfoldable pub send :
      PrepareResult
      → Result GuardError DownstreamRequest
      → Result RouterError RouterInvocation × Sent
  send public (err e) = (err (guard_raised e), [])
  send public (ok q) = (deliver public q (provider q), q ∷ [])

  unfoldable pub route : ℕ → Result Raised GateOutcome → Result RouterError RouterInvocation × Sent
  route now (err e) = (err (gate_raised e), [])
  route now (ok outcome) = elim outcome.prepared [
    | none ↦ (
      ok (record { gate_result = outcome.public; downstream_response = none; safe_state = none }),
      [],
    )
    | some p ↦ send outcome.public (guard g now p)
  ]

  -- `RouterAdapter.invoke`: `now` is the capabilities' clock, `signed_at` and `checked_at` the
  -- receipts' clock when the gate signs and when the guard verifies.
  unfoldable pub invoke :
      ℕ → ℕ → ℕ → PrepareRequest → String → History → Result RouterError RouterInvocation × Sent
  invoke now signed_at checked_at r tenant h =
      route checked_at (prepare_for_model g now signed_at r tenant h).0

-- `_fresh_text_request`, behind `build_followup_request` and `build_subagent_handoff`: `none` is the
-- `ValidationError`.
unfoldable pub fresh_text_request : SafeState → String → String → Option PrepareRequest
fresh_text_request state user_text target =
    let r : PrepareRequest = record {
      content = text_part state.text ∷ text_part user_text ∷ [];
      target = target;
      profile = generic;
    } in
    if request_accepted r then some r else none
