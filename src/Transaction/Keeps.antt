-- ===== src/Transaction/Keeps.antt =====
-- The steps that send nothing, and that each keeps the store valid.
use media_bridge.Base.{
  String, Option, none, some, ◌∷◌, ◌≡◌, refl, ◌∙◌, inl, inr, contains, string_eq, Bool-cases,
}
use media_bridge.Base.{Result, ok, err}
use media_bridge.Json.{Json}
use media_bridge.Contracts.{SafeError, PrepareResult}
use media_bridge.Gate.{GateOutcome, DownstreamPayload, prepare_for_model}
use media_bridge.Gate.Effects.{Raised}
use media_bridge.State.Gateway.{
  GatewayStateRecord, StateError, value_error, state_unavailable, resolve as resolve_state, put,
}
use media_bridge.State.Isolation.{IsValid, put-IsValid, resolve-IsValid}
use media_bridge.Responses.References.{NormalizationError, rejected, escaped}
use media_bridge.Responses.Normalize.{NormalizedRequest, normalize_responses_request}
use media_bridge.Transaction.Contracts.{
  Subject, SealedGatewayRequest, Stream, GatewayResponse, DownstreamFailure, guard_error,
  downstream_error, unexpected,
}
use media_bridge.Transaction.Payload.{SealError}
use media_bridge.Transaction.Seal.{Gateway, Moment, check_state, seal}
use media_bridge.Transaction.Invoke.{
  World, Halt, Step, ◌>>=◌, pure, Ready, previous_id, check_scope, found_state, load_state,
  normalize_or_block, check_or_block, gate_outcome, run_gate, prepared_or_block, sealed_or_block,
  fields_of, ready_of, seal_prepared, take_outcome, gate_request, check_request, read_request,
  load_request, get_ready, response_or_error, send, record_state, stored_or_warned, store_state,
  finish, complete, deliver, invoke, state_of,
}

-- A step that sends nothing, and keeps a valid store valid.
abbrev pub Keeps : {A : Type 0} → Step A → Type 0
Keeps s = (w : World) → ((s w).1.sent ≡ w.sent) × (IsValid w.store → IsValid (s w).1.store)

Keeps-bind :
    {A B : Type 0} (s : Step A) (f : A → Step B)
    → Keeps s
    → ((a : A) → Keeps (f a))
    → Keeps (s >>= f)
Keeps-bind {A} {B} s f h k w = go (s w) (h w)
  where
    go :
        (p : Result Halt A × World)
        → (p.1.sent ≡ w.sent) × (IsValid w.store → IsValid p.1.store)
        → ((◌>>=◌ (λ _. p) f w).1.sent ≡ w.sent)
          × (IsValid w.store → IsValid (◌>>=◌ (λ _. p) f w).1.store)
    go (ok a, w') (sent, valid) = ((k a w').0 ∙ sent, λ v. (k a w').1 (valid v))
    go (err e, w') kept = kept

module _ (t : Gateway) (m : Moment) (subject : Subject) where
  check_scope-Keeps : Keeps (check_scope t m subject)
  unfolding check_scope
  check_scope-Keeps w = elim (Bool-cases (contains "responses:invoke" subject.scopes)) [
    | inl allowed ↦ rw allowed (refl, λ v. v)
    | inr denied ↦ rw denied (refl, λ v. v)
  ]

  found_state-Keeps : (r : Result StateError GatewayStateRecord) → Keeps (found_state t m subject r)
  unfolding found_state
  found_state-Keeps (ok s) w = (refl, λ v. v)
  found_state-Keeps (err state_unavailable) w = (refl, λ v. v)
  found_state-Keeps (err value_error) w = (refl, λ v. v)

  load_state-Keeps : (id : Option String) → Keeps (load_state t m subject id)
  unfolding load_state
  load_state-Keeps none w = (refl, λ v. v)
  load_state-Keeps (some id) w =
      let found =
        resolve_state m.resolved_at id subject.tenant_id subject.credential_selector w.store in
      let kept = found_state-Keeps found.0 (record w { store = found.1 }) in
      (
        kept.0,
        λ v. kept.1 (
            resolve-IsValid m.resolved_at id subject.tenant_id subject.credential_selector w.store
              v),
      )

  normalize_or_block-Keeps :
      (r : Result NormalizationError NormalizedRequest) → Keeps (normalize_or_block t m subject r)
  unfolding normalize_or_block
  normalize_or_block-Keeps (ok n) w = (refl, λ v. v)
  normalize_or_block-Keeps (err (rejected e)) w = (refl, λ v. v)
  normalize_or_block-Keeps (err escaped) w = (refl, λ v. v)

  check_or_block-Keeps : (r : Result SafeError (Unit {0})) → Keeps (check_or_block t m subject r)
  unfolding check_or_block
  check_or_block-Keeps (ok u) w = (refl, λ v. v)
  check_or_block-Keeps (err e) w = (refl, λ v. v)

  gate_outcome-Keeps : (r : Result Raised GateOutcome) → Keeps (gate_outcome t m subject r)
  unfolding gate_outcome
  gate_outcome-Keeps (ok o) w = (refl, λ v. v)
  gate_outcome-Keeps (err e) w = (refl, λ v. v)

  run_gate-Keeps : (n : NormalizedRequest) → Keeps (run_gate t m subject n)
  unfolding run_gate
  run_gate-Keeps n w =
      let call =
        prepare_for_model t.gate m.prepared_at m.signed_at n.request subject.tenant_id w.history in
      gate_outcome-Keeps call.0 (record w { history = call.1 })

  prepared_or_block-Keeps :
      (o : GateOutcome) (found : Option DownstreamPayload)
      → Keeps (prepared_or_block t m subject o found)
  unfolding prepared_or_block
  prepared_or_block-Keeps o none w = (refl, λ v. v)
  prepared_or_block-Keeps o (some p) w = (refl, λ v. v)

  sealed_or_block-Keeps :
      (public : PrepareResult) (r : Result SealError SealedGatewayRequest)
      → Keeps (sealed_or_block t m subject public r)
  unfolding sealed_or_block
  sealed_or_block-Keeps public (ok q) w = (refl, λ v. v)
  sealed_or_block-Keeps public (err e) w = (refl, λ v. v)

  take_outcome-Keeps :
      (payload : Json) (n : NormalizedRequest) (o : GateOutcome)
      → Keeps (take_outcome t m subject payload n o)
  unfolding take_outcome seal_prepared
  take_outcome-Keeps payload n o =
      Keeps-bind (prepared_or_block t m subject o o.prepared)
        (seal_prepared t m subject payload n o) (prepared_or_block-Keeps o o.prepared)
        λ p.
          let found = seal t m (fields_of t m subject payload) n p in
          Keeps-bind (sealed_or_block t m subject o.public found)
            (λ s. pure (ready_of t m subject n o p s)) (sealed_or_block-Keeps o.public found)
            λ s w. (refl, λ v. v)

  check_request-Keeps :
      (payload : Json) (n : NormalizedRequest) → Keeps (check_request t m subject payload n)
  unfolding check_request gate_request
  check_request-Keeps payload n =
      let policy = check_state t.gate.registry m.checked_at n.request.target n.previous_state in
      Keeps-bind (check_or_block t m subject policy) (λ _. gate_request t m subject payload n)
        (check_or_block-Keeps policy)
        λ _.
          Keeps-bind (run_gate t m subject n) (take_outcome t m subject payload n)
            (run_gate-Keeps n) (take_outcome-Keeps payload n)

  pub get_ready-Keeps : (payload : Json) → Keeps (get_ready t m subject payload)
  unfolding get_ready load_request read_request
  get_ready-Keeps payload =
      Keeps-bind (check_scope t m subject) (λ _. load_request t m subject payload) check_scope-Keeps
        λ _.
          Keeps-bind (load_state t m subject (previous_id payload))
            (read_request t m subject payload) (load_state-Keeps (previous_id payload))
            λ state.
              let result = normalize_responses_request t.web payload state in
              Keeps-bind (normalize_or_block t m subject result) (check_request t m subject payload)
                (normalize_or_block-Keeps result) (check_request-Keeps payload)

  response_or_error-Keeps :
      (public : PrepareResult) (r : Result DownstreamFailure GatewayResponse)
      → Keeps (response_or_error t m subject public r)
  unfolding response_or_error
  response_or_error-Keeps public (ok response) w = (refl, λ v. v)
  response_or_error-Keeps public (err guard_error) w = (refl, λ v. v)
  response_or_error-Keeps public (err (downstream_error e status)) w = (refl, λ v. v)
  response_or_error-Keeps public (err unexpected) w = (refl, λ v. v)

  stored_or_warned-Keeps :
      (response : GatewayResponse) (r : Ready) (stored : Result StateError GatewayStateRecord)
      → Keeps (stored_or_warned t m subject response r stored)
  unfolding stored_or_warned
  stored_or_warned-Keeps response r (ok s) w = (refl, λ v. v)
  stored_or_warned-Keeps response r (err value_error) w = (refl, λ v. v)
  stored_or_warned-Keeps response r (err state_unavailable) w = (refl, λ v. v)

  finish-Keeps :
      (r : Ready) (response : GatewayResponse) (stream : Option Stream)
      → Keeps (finish t m subject r response stream)
  unfolding finish store_state record_state
  finish-Keeps r response (some s) w = (refl, λ v. v)
  finish-Keeps r response none w =
      let written = put m.stored_at (state_of t m subject response r) w.store in
      let kept = stored_or_warned-Keeps response r written.0 (record w { store = written.1 }) in
      (kept.0, λ v. kept.1 (put-IsValid m.stored_at (state_of t m subject response r) w.store v))

  complete-Keeps :
      (r : Ready) (response : GatewayResponse) → Keeps (complete t m subject r response)
  unfolding complete
  complete-Keeps r response = finish-Keeps r response response.stream

  -- A delivery sends just the sealed request.
  pub deliver-sent :
      (r : Ready) (w : World)
      → ((deliver t m subject r w).1.sent ≡ r.sealed ∷ w.sent)
        × (IsValid w.store → IsValid (deliver t m subject r w).1.store)
  unfolding deliver send
  deliver-sent r w =
      Keeps-bind (response_or_error t m subject r.public (t.downstream r.sealed))
        (complete t m subject r) (response_or_error-Keeps r.public (t.downstream r.sealed))
        (complete-Keeps r) (record w { sent = r.sealed ∷ w.sent })

  -- A transaction keeps the store valid, whatever it returns or raises.
  pub invoke-IsValid :
      (payload : Json) (w : World)
      → IsValid w.store
      → IsValid (invoke t m subject payload w).1.store
  unfolding invoke
  invoke-IsValid payload w v = go (get_ready t m subject payload w) (get_ready-Keeps payload w)
    where
      go :
          (p : Result Halt Ready × World)
          → (p.1.sent ≡ w.sent) × (IsValid w.store → IsValid p.1.store)
          → IsValid (◌>>=◌ (λ _. p) (deliver t m subject) w).1.store
      go (ok r, w') kept = (deliver-sent r w').1 (kept.1 v)
      go (err e, w') kept = kept.1 v
