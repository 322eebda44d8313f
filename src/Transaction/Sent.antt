-- ===== src/Transaction/Sent.antt =====
-- What a transaction sends to the provider.
use media_bridge.Base.{true, Option, List, ◌∷◌, ◌≡◌, ◌⊎◌, contains, string_eq}
use media_bridge.Base.{ok}
use media_bridge.Json.{Json, object}
use media_bridge.Json.{Fields}
use media_bridge.Gate.{DownstreamPayload}
use media_bridge.Gate.Safety.{Origin}
use media_bridge.State.Gateway.{GatewayStateRecord}
use media_bridge.Responses.Normalize.{NormalizedRequest, normalize_responses_request}
use media_bridge.Transaction.Contracts.{Subject, SealedGatewayRequest}
use media_bridge.Transaction.Seal.{Gateway, Moment}
use media_bridge.Transaction.Invoke.{Ready}
use media_bridge.Transaction.Ready.{Permitted}
use media_bridge.Transaction.Sealing.{IsSealed}

module _ (t : Gateway) (m : Moment) (subject : Subject) where
  -- A request that the provider may be sent.
  pub record SafeToSend (payload : Json) (q : SealedGatewayRequest) : Type 0 where
    pub raw : Fields
    pub state : Option GatewayStateRecord
    pub normalized : NormalizedRequest
    pub prepared : DownstreamPayload
    pub given : payload ≡ object raw
    pub scope : contains "responses:invoke" subject.scopes ≡ true
    pub reads : normalize_responses_request t.web (object raw) state ≡ ok normalized
    pub permitted :
        Permitted t.gate.registry m.checked_at normalized.request.target normalized.previous_state
    pub origin : Origin t.gate m.prepared_at normalized.request prepared.content
    pub target : q.target_id ≡ normalized.request.target
    pub sealed : IsSealed t m raw normalized prepared q

  -- At most one request is sent, and it is safe to send.
  abbrev pub SendsSafely : Json → List SealedGatewayRequest → List SealedGatewayRequest → Type 0
  SendsSafely payload before after =
      (after ≡ before) ⊎ ((q : SealedGatewayRequest) × (after ≡ q ∷ before) × SafeToSend payload q)
