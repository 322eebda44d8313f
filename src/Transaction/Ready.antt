-- ===== src/Transaction/Ready.antt =====
-- What holds when a request is ready to be sent.
use media_bridge.Base.{
  ℕ, String, true, false, not, ◌&&◌, Option, none, some, ◌≡◌, refl, ◌⊎◌, inl, inr, arith, contains,
  string_eq, Bool-cases,
}
use mathlib.Core.Path.{subst}
use media_bridge.Base.{Result, ok, err}
use media_bridge.Json.{Json}
use media_bridge.Contracts.{SafeError, PrepareResult}
use media_bridge.Capability.{
  CapabilityState, vision, non_vision, unknown, stale, ModelCapability, CapabilityRegistry, resolve,
  supports_all,
}
use media_bridge.Capability.Modalities.{ModalitySet}
use media_bridge.Gate.{GateOutcome, DownstreamPayload, prepare_for_model}
use media_bridge.Gate.Effects.{Raised}
use media_bridge.Gate.Decision.{Post}
use media_bridge.Gate.Safety.{Shape, IsSound, prepare_for_model-IsSound}
use media_bridge.State.Gateway.{GatewayStateRecord}
use media_bridge.Responses.References.{NormalizationError, rejected, escaped}
use media_bridge.Responses.Normalize.{NormalizedRequest, normalize_responses_request}
use media_bridge.Transaction.Contracts.{Subject, SealedGatewayRequest}
use media_bridge.Transaction.Payload.{SealError}
use media_bridge.Transaction.Seal.{Gateway, Moment, taint_policy, check_state, seal}
use media_bridge.Transaction.Invoke.{
  World, Halt, Step, ◌>>=◌, Ready, previous_id, check_scope, load_state, normalize_or_block,
  check_or_block, gate_outcome, run_gate, prepared_or_block, sealed_or_block, fields_of, pure,
  ready_of, seal_prepared, take_outcome, gate_request, check_request, read_request, load_request,
  get_ready,
}

-- The parts of a chain that returned.
pub >>=-eq-ok :
    {A B : Type 0} (s : Step A) (f : A → Step B) (w w'' : World) {b : B}
    → (s >>= f) w ≡ (ok b, w'')
    → (a : A) × (w' : World) × (s w ≡ (ok a, w')) × (f a w' ≡ (ok b, w''))
>>=-eq-ok {A} {B} s f w w'' {b} h = go (s w) refl h
  where
    go :
        (p : Result Halt A × World)
        → s w ≡ p
        → ◌>>=◌ (λ _. p) f w ≡ (ok b, w'')
        → (a : A) × (w' : World) × (s w ≡ (ok a, w')) × (f a w' ≡ (ok b, w''))
    go (ok a, w') e k = (a, w', e, k)
    go (err x, w') e k = absurd (cc k)

-- Prior media does not come back to a target that cannot be sent it.
abbrev pub Permitted : CapabilityRegistry → ℕ → String → Option GatewayStateRecord → Type 0
Permitted registry now target none = Unit
Permitted registry now target (some s) =
    (s.media_tainted ≡ false)
    ⊎ ((c : ModelCapability) × ((resolve registry target now).state ≡ vision)
        × ((resolve registry target now).capability ≡ some c)
        × (supports_all c s.media_modalities ≡ true)
        × ((s.media_modalities.has_pdf && not c.pdf_passthrough_verified) ≡ false))

taint_policy-ok :
    (state : CapabilityState) (found : Option ModelCapability) (ms : ModalitySet) (u : Unit {0})
    → taint_policy state found ms ≡ ok u
    → (c : ModelCapability) × (state ≡ vision)
      × (found ≡ some c)
      × (supports_all c ms ≡ true)
      × ((ms.has_pdf && not c.pdf_passthrough_verified) ≡ false)
unfolding taint_policy
taint_policy-ok unknown c ms u h = absurd (cc h)
taint_policy-ok stale none ms u h = absurd (cc h)
taint_policy-ok stale (some c) ms u h = absurd (cc h)
taint_policy-ok non_vision none ms u h = absurd (cc h)
taint_policy-ok non_vision (some c) ms u h = absurd (cc h)
taint_policy-ok vision none ms u h = absurd (cc h)
taint_policy-ok vision (some c) ms u h = (c, refl, refl, ground (arith, h), ground (arith, h))

check_state-Permitted :
    (registry : CapabilityRegistry) (now : ℕ) (target : String) (s : Option GatewayStateRecord)
    (u : Unit {0})
    → check_state registry now target s ≡ ok u
    → Permitted registry now target s
unfolding check_state
check_state-Permitted registry now target none u h = tt
check_state-Permitted registry now target (some s) u h = elim (Bool-cases s.media_tainted) [
  | inr clean ↦ inl clean
  | inl tainted ↦ inr (
      taint_policy-ok (resolve registry target now).state (resolve registry target now).capability
        s.media_modalities u (rw tainted at h))
]

module _ (t : Gateway) (m : Moment) (subject : Subject) where
  -- A request that is ready: its subject may send it, it is normalized with the state that its response
  -- named, its prior media is permitted, and it is what the gate prepared and the transaction sealed.
  pub record IsReady (payload : Json) (r : Ready) : Type 0 where
    pub state : Option GatewayStateRecord
    pub scope : contains "responses:invoke" subject.scopes ≡ true
    pub normalized : normalize_responses_request t.web payload state ≡ ok r.normalized
    pub permitted :
        Permitted t.gate.registry m.checked_at r.normalized.request.target
          r.normalized.previous_state
    pub prepared :
        Shape t.gate m.prepared_at m.signed_at r.normalized.request r.public (some r.prepared)
    pub sealed : seal t m (fields_of t m subject payload) r.normalized r.prepared ≡ ok r.sealed

  check_scope-ok :
      (w w' : World) (u : Unit {0})
      → check_scope t m subject w ≡ (ok u, w')
      → contains "responses:invoke" subject.scopes ≡ true
  unfolding check_scope
  check_scope-ok w w' u h = elim (Bool-cases (contains "responses:invoke" subject.scopes)) [
    | inl allowed ↦ allowed
    | inr denied ↦ absurd (cc (rw (denied) at h))
  ]

  normalize_or_block-ok :
      (r : Result NormalizationError NormalizedRequest) (n : NormalizedRequest) (w w' : World)
      → normalize_or_block t m subject r w ≡ (ok n, w')
      → r ≡ ok n
  unfolding normalize_or_block
  normalize_or_block-ok (ok x) n w w' h = ground (arith, h)
  normalize_or_block-ok (err (rejected e)) n w w' h = absurd (cc h)
  normalize_or_block-ok (err escaped) n w w' h = absurd (cc h)

  check_or_block-ok :
      (r : Result SafeError (Unit {0})) (u : Unit {0}) (w w' : World)
      → check_or_block t m subject r w ≡ (ok u, w')
      → r ≡ ok u
  unfolding check_or_block
  check_or_block-ok (ok x) u w w' h = ground (arith, h)
  check_or_block-ok (err e) u w w' h = absurd (cc h)

  gate_outcome-ok :
      (r : Result Raised GateOutcome) (o : GateOutcome) (w w' : World)
      → gate_outcome t m subject r w ≡ (ok o, w')
      → r ≡ ok o
  unfolding gate_outcome
  gate_outcome-ok (ok x) o w w' h = ground (arith, h)
  gate_outcome-ok (err e) o w w' h = absurd (cc h)

  run_gate-IsSound :
      (n : NormalizedRequest) (o : GateOutcome) (w w' : World)
      → run_gate t m subject n w ≡ (ok o, w')
      → IsSound t.gate m.prepared_at m.signed_at n.request o
  unfolding run_gate
  run_gate-IsSound n o w w' h =
      let call = prepare_for_model t.gate m.prepared_at m.signed_at n.request subject.tenant_id in
      let returned = gate_outcome-ok (call w.history).0 o _ w' h in
      let sound : Post (IsSound t.gate m.prepared_at m.signed_at n.request) (ok o) =
        rw returned at (
          prepare_for_model-IsSound t.gate m.prepared_at m.signed_at n.request subject.tenant_id
            w.history) in
      sound

  prepared_or_block-ok :
      (o : GateOutcome) (found : Option DownstreamPayload) (p : DownstreamPayload) (w w' : World)
      → prepared_or_block t m subject o found w ≡ (ok p, w')
      → found ≡ some p
  unfolding prepared_or_block
  prepared_or_block-ok o none p w w' h = absurd (cc h)
  prepared_or_block-ok o (some x) p w w' h = ground (arith, h)

  sealed_or_block-ok :
      (public : PrepareResult) (r : Result SealError SealedGatewayRequest)
      (q : SealedGatewayRequest) (w w' : World)
      → sealed_or_block t m subject public r w ≡ (ok q, w')
      → r ≡ ok q
  unfolding sealed_or_block
  sealed_or_block-ok public (ok x) q w w' h = ground (arith, h)
  sealed_or_block-ok public (err e) q w w' h = absurd (cc h)

  -- What the sealing adds, on a request that the gate prepared.
  take_outcome-parts :
      (payload : Json) (n : NormalizedRequest) (o : GateOutcome) (r : Ready) (w w' : World)
      → take_outcome t m subject payload n o w ≡ (ok r, w')
      → (p : DownstreamPayload) × (q : SealedGatewayRequest) × (o.prepared ≡ some p)
        × (seal t m (fields_of t m subject payload) n p ≡ ok q)
        × (ready_of t m subject n o p q ≡ r)
  unfolding take_outcome seal_prepared
  take_outcome-parts payload n o r w w' h =
      let (p, w1, given, h1) =
        >>=-eq-ok (prepared_or_block t m subject o o.prepared)
          (seal_prepared t m subject payload n o) w w' h in
      let found = seal t m (fields_of t m subject payload) n p in
      let (q, w2, sealed, h2) =
        >>=-eq-ok (sealed_or_block t m subject o.public found)
          (λ s. pure (ready_of t m subject n o p s)) w1 w' h1 in
      (
        p,
        q,
        prepared_or_block-ok o o.prepared p w w1 given,
        sealed_or_block-ok o.public found q w1 w2 sealed,
        ground arith,
      )

  check_request-parts :
      (payload : Json) (n : NormalizedRequest) (r : Ready) (w w' : World)
      → check_request t m subject payload n w ≡ (ok r, w')
      → Permitted t.gate.registry m.checked_at n.request.target n.previous_state
        × ((o : GateOutcome) × IsSound t.gate m.prepared_at m.signed_at n.request o
            × ((w2 : World) × (take_outcome t m subject payload n o w2 ≡ (ok r, w'))))
  unfolding check_request gate_request
  check_request-parts payload n r w w' h =
      let policy = check_state t.gate.registry m.checked_at n.request.target n.previous_state in
      let (u, w1, allowed, h1) =
        >>=-eq-ok (check_or_block t m subject policy) (λ _. gate_request t m subject payload n) w w'
          h in
      let (o, w2, gated, h2) =
        >>=-eq-ok (run_gate t m subject n) (take_outcome t m subject payload n) w1 w' h1 in
      (
        check_state-Permitted t.gate.registry m.checked_at n.request.target n.previous_state u
            (check_or_block-ok policy u w w1 allowed),
        (o, run_gate-IsSound n o w1 w2 gated, (w2, h2)),
      )

  pub get_ready-IsReady :
      (payload : Json) (r : Ready) (w w' : World)
      → get_ready t m subject payload w ≡ (ok r, w')
      → IsReady payload r
  unfolding get_ready load_request read_request
  get_ready-IsReady payload r w w' h =
      let (u, w1, scope, h1) =
        >>=-eq-ok (check_scope t m subject) (λ _. load_request t m subject payload) w w' h in
      let (state, w2, loaded, h2) =
        >>=-eq-ok (load_state t m subject (previous_id payload)) (read_request t m subject payload)
          w1 w' h1 in
      let result = normalize_responses_request t.web payload state in
      let (n, w3, normal, h3) =
        >>=-eq-ok (normalize_or_block t m subject result) (check_request t m subject payload) w2 w'
          h2 in
      let (permitted, (o, sound, (w4, h4))) = check_request-parts payload n r w3 w' h3 in
      let (p, q, found, sealed, same) = take_outcome-parts payload n o r w4 w' h4 in
      let shape : Shape t.gate m.prepared_at m.signed_at n.request o.public (some p) =
        rw found at sound in
      let ready : IsReady payload (ready_of t m subject n o p q) = record {
        state = state;
        scope = check_scope-ok w w1 u scope;
        normalized = normalize_or_block-ok result n w2 w3 normal;
        permitted = permitted;
        prepared = shape;
        sealed = sealed;
      } in
      subst (IsReady payload) same ready
