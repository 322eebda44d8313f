-- ===== src/Transaction/Invoke.antt =====
-- `GatewayTransaction.invoke` (media_bridge_gateway/transaction.py): the world of a transaction is the
-- store, the requests that the provider was sent, latest first, and the history of the gate's calls.
use media_bridge.Base.{ℕ, String, Option, none, some, List, ◌∷◌, contains, string_eq, if◌then◌else◌}
use media_bridge.Base.{Result, ok, err}
use media_bridge.Json.{Json, text, object}
use media_bridge.Json.{Fields, get}
use media_bridge.Contracts.{SafeError, PrepareResult}
use media_bridge.Capability.{detect_media}
use media_bridge.Capability.Modalities.{ModalitySet, empty, union, is_nonempty}
use media_bridge.Gate.{GateOutcome, DownstreamPayload, prepare_for_model}
use media_bridge.Gate.Effects.{History, Raised}
use media_bridge.Gate.Context.{join_text}
use media_bridge.State.Gateway.{
  GatewayStateRecord, GatewayStateStore, StateError, value_error, state_unavailable, PutRequest,
  put, resolve as resolve_state,
}
use media_bridge.Responses.References.{NormalizationError, rejected, escaped}
use media_bridge.Responses.Normalize.{NormalizedRequest, normalize_responses_request}
use media_bridge.Transaction.Contracts.{
  Subject, SealedGatewayRequest, Stream, GatewayResponse, completed, blocked, upstream_error,
  GatewayResult, DownstreamFailure, guard_error, downstream_error, unexpected,
}
use media_bridge.Transaction.Payload.{SealError}
use media_bridge.Transaction.Seal.{Gateway, Moment, check_state, seal}

pub record World : Type 0 where
  pub store : GatewayStateStore
  pub sent : List SealedGatewayRequest
  pub history : History

-- An early `return`, or an exception that leaves `invoke`.
pub data Halt : Type 0 where
  returned : GatewayResult → Halt
  raised : Halt

abbrev pub Step : Type 0 → Type 0
Step A = World → Result Halt A × World

infixl 5 ◌>>=◌ ◌>>◌
abbrev pub ◌>>=◌ : {A B : Type 0} → Step A → (A → Step B) → Step B
◌>>=◌ s f w = let (r, w') = s w in elim r [ ok a ↦ f a w' | err e ↦ (err e, w') ]

abbrev pub ◌>>◌ : {A B : Type 0} → Step A → Step B → Step B
m >> k = m >>= λ _. k

abbrev pub pure : {A : Type 0} → A → Step A
pure a w = (ok a, w)

abbrev pub halt : {A : Type 0} → Halt → Step A
halt e w = (err e, w)

-- `_blocked`
abbrev pub blocked_result : SafeError → Option PrepareResult → ℕ → GatewayResult
blocked_result e public http_status = record {
  status = blocked;
  response = none;
  gate_result = public;
  error = some e;
  http_status = http_status;
  warning = none;
}

abbrev pub block : {A : Type 0} → SafeError → Option PrepareResult → ℕ → Step A
block e public http_status = halt (returned (blocked_result e public http_status))

-- The response that the request names, if it names one.
abbrev pub previous_id : Json → Option String
previous_id (object fs) = elim (get "previous_response_id" fs) [ text id ↦ some id | _ ↦ none ]
previous_id _ = none

-- What the gate, the seal and the downstream agreed on.
pub record Ready : Type 0 where
  pub normalized : NormalizedRequest
  pub public : PrepareResult
  pub prepared : DownstreamPayload
  pub sealed : SealedGatewayRequest

module _ (t : Gateway) (m : Moment) (subject : Subject) where
  unfoldable pub check_scope : Step (Unit {0})
  check_scope =
      if contains "responses:invoke" subject.scopes
      then pure tt
      else block
          (record {
            code = "credential_scope_denied";
            message = "Data-plane credential is not authorized for Responses.";
          })
          none 403

  unfoldable pub found_state :
      Result StateError GatewayStateRecord → Step (Option GatewayStateRecord)
  found_state (ok s) = pure (some s)
  found_state (err state_unavailable) =
      block (record { code = "state_unavailable"; message = "Responses state is unavailable." })
        none 400
  found_state (err value_error) = halt raised

  unfoldable pub load_state : Option String → Step (Option GatewayStateRecord)
  load_state none w = pure none w
  load_state (some id) w =
      let (r, store) =
        resolve_state m.resolved_at id subject.tenant_id subject.credential_selector w.store in
      found_state r (record w { store = store })

  unfoldable pub normalize_or_block :
      Result NormalizationError NormalizedRequest → Step NormalizedRequest
  normalize_or_block (ok n) = pure n
  normalize_or_block (err (rejected e)) = block e none 400
  normalize_or_block (err escaped) = halt raised

  unfoldable pub check_or_block : Result SafeError (Unit {0}) → Step (Unit {0})
  check_or_block (ok u) = pure u
  check_or_block (err e) = block e none 400

  unfoldable pub gate_outcome : Result Raised GateOutcome → Step GateOutcome
  gate_outcome (ok outcome) = pure outcome
  gate_outcome (err _) = halt raised

  unfoldable pub run_gate : NormalizedRequest → Step GateOutcome
  run_gate n w =
      let (r, history) =
        prepare_for_model t.gate m.prepared_at m.signed_at n.request subject.tenant_id w.history in
      gate_outcome r (record w { history = history })

  abbrev gate_error : Option SafeError → SafeError
  gate_error (some e) = e
  gate_error none = record {
    code = "pre_request_blocked";
    message = "Pre-request gate blocked the request.";
  }

  unfoldable pub prepared_or_block : GateOutcome → Option DownstreamPayload → Step DownstreamPayload
  prepared_or_block outcome none = block (gate_error outcome.public.error) (some outcome.public) 400
  prepared_or_block outcome (some p) = pure p

  unfoldable pub sealed_or_block :
      PrepareResult → Result SealError SealedGatewayRequest → Step SealedGatewayRequest
  sealed_or_block public (ok r) = pure r
  sealed_or_block public (err _) =
      block
        (record {
          code = "gateway_sealing_failed";
          message = "Responses request could not be sealed safely.";
        })
        (some public) 500

  -- A normalized request is an object.
  abbrev pub fields_of : Json → Fields
  fields_of (object fs) = fs
  fields_of _ = Fields.end

  abbrev pub ready_of :
      NormalizedRequest → GateOutcome → DownstreamPayload → SealedGatewayRequest → Ready
  ready_of n outcome p s = record {
    normalized = n;
    public = outcome.public;
    prepared = p;
    sealed = s;
  }

  unfoldable pub seal_prepared :
      Json → NormalizedRequest → GateOutcome → DownstreamPayload → Step Ready
  seal_prepared payload n outcome p = do
    s ← sealed_or_block outcome.public (seal t m (fields_of payload) n p)
    pure (ready_of n outcome p s)

  unfoldable pub take_outcome : Json → NormalizedRequest → GateOutcome → Step Ready
  take_outcome payload n outcome = do
    p ← prepared_or_block outcome outcome.prepared
    seal_prepared payload n outcome p

  unfoldable pub gate_request : Json → NormalizedRequest → Step Ready
  gate_request payload n = do outcome ← run_gate n; take_outcome payload n outcome

  unfoldable pub check_request : Json → NormalizedRequest → Step Ready
  check_request payload n = do
    check_or_block (check_state t.gate.registry m.checked_at n.request.target n.previous_state)
    gate_request payload n

  unfoldable pub read_request : Json → Option GatewayStateRecord → Step Ready
  read_request payload state = do
    n ← normalize_or_block (normalize_responses_request t.web payload state)
    check_request payload n

  unfoldable pub load_request : Json → Step Ready
  load_request payload = do state ← load_state (previous_id payload); read_request payload state

  -- Everything before the downstream call.
  unfoldable pub get_ready : Json → Step Ready
  get_ready payload = do check_scope; load_request payload

  unfoldable pub response_or_error :
      PrepareResult → Result DownstreamFailure GatewayResponse → Step GatewayResponse
  response_or_error public (ok response) = pure response
  response_or_error public (err guard_error) =
      block
        (record {
          code = "gateway_guard_rejected";
          message = "Responses downstream guard rejected the request.";
        })
        (some public) 500
  response_or_error public (err (downstream_error e http_status)) = halt (
      returned (record {
        status = upstream_error;
        response = none;
        gate_result = some public;
        error = some e;
        http_status = http_status;
        warning = none;
      }))
  response_or_error public (err unexpected) = halt raised

  unfoldable pub send : Ready → Step GatewayResponse
  send r w =
      response_or_error r.public (t.downstream r.sealed) (record w { sent = r.sealed ∷ w.sent })

  abbrev pub previous_modalities : Option GatewayStateRecord → ModalitySet
  previous_modalities none = empty
  previous_modalities (some s) = s.media_modalities

  abbrev pub current_modalities : Ready → ModalitySet
  current_modalities r =
      union (detect_media r.prepared.content).modalities
        (previous_modalities r.normalized.previous_state)

  -- The arguments of the write in `_record_state`.
  unfoldable pub state_of : GatewayResponse → Ready → PutRequest
  state_of response r = record {
    response_id = response.response_id;
    tenant_id = subject.tenant_id;
    credential_selector = subject.credential_selector;
    sanitized_text = join_text r.prepared.content;
    media_tainted = is_nonempty (current_modalities r);
    media_modalities = current_modalities r;
    target_id = r.prepared.target_id;
    snapshot_version = t.snapshot_version;
  }

  -- `_record_state`
  unfoldable pub record_state :
      GatewayResponse
      → Ready
      → GatewayStateStore
      → Result StateError GatewayStateRecord × GatewayStateStore
  record_state response r = put m.stored_at (state_of response r)

  abbrev pub completed_result : GatewayResponse → Ready → Option SafeError → GatewayResult
  completed_result response r warning = record {
    status = completed;
    response = some response;
    gate_result = some r.public;
    error = none;
    http_status = response.status_code;
    warning = warning;
  }

  unfoldable pub stored_or_warned :
      GatewayResponse → Ready → Result StateError GatewayStateRecord → Step GatewayResult
  stored_or_warned response r (ok _) = pure (completed_result response r none)
  stored_or_warned response r (err value_error) = pure (
      completed_result response r (
        some (record {
          code = "state_persistence_failed";
          message = "Sanitized response state could not be persisted.";
        })))
  stored_or_warned response r (err state_unavailable) = halt raised

  unfoldable pub store_state : GatewayResponse → Ready → Step GatewayResult
  store_state response r w =
      let (stored, store) = record_state response r w.store in
      stored_or_warned response r stored (record w { store = store })

  -- The end of `invoke`: what streams is stored only when its stream has come to its end.
  unfoldable pub finish : Ready → GatewayResponse → Option Stream → Step GatewayResult
  finish r response (some _) = pure (completed_result response r none)
  finish r response none = store_state response r

  unfoldable pub complete : Ready → GatewayResponse → Step GatewayResult
  unfolding finish
  complete r response = finish r response response.stream

  -- The downstream call, and what follows it.
  unfoldable pub deliver : Ready → Step GatewayResult
  deliver r = do response ← send r; complete r response

  -- `GatewayTransaction.invoke`
  unfoldable pub invoke : Json → Step GatewayResult
  invoke payload = do r ← get_ready payload; deliver r

  -- `state_committing_stream`, once it has been read.
  unfoldable pub finish_stream :
      GatewayResponse → Ready → Stream → GatewayStateStore → GatewayStateStore
  finish_stream response r s store =
      if s.completes then (record_state response r store).1 else store
