-- ===== src/Transaction/Stored.antt =====
-- What a transaction leaves for a follow-up.
use media_bridge.Base.{ℕ, ◌+◌, ◌<◌, none, some, ◌≡◌}
use media_bridge.Base.{Result, ok}
use media_bridge.Json.{Json}
use media_bridge.State.Gateway.{
  GatewayStateRecord, GatewayStateStore, StateError, record_of, resolve as resolve_state,
}
use media_bridge.Transaction.Contracts.{Subject, GatewayResponse, GatewayResult}
use media_bridge.Transaction.Seal.{Gateway, Moment}
use media_bridge.Transaction.Invoke.{Ready, state_of}

module _ (t : Gateway) (m : Moment) (subject : Subject) where
  -- What a follow-up on a response finds at an instant.
  abbrev pub found : ℕ → GatewayResponse → GatewayStateStore → Result StateError GatewayStateRecord
  found now response s =
      (resolve_state now response.response_id subject.tenant_id subject.credential_selector s).0

  abbrev CanFollow : ℕ → Ready → GatewayResponse → GatewayStateStore → Type 0
  CanFollow now r response s =
      now < m.stored_at + s.ttl_seconds
      → found now response s
        ≡ ok (record_of (state_of t m subject response r) (m.stored_at + s.ttl_seconds))

  -- Whatever plain response the result has can be followed up.
  abbrev Followed : ℕ → Ready → GatewayResult → GatewayStateStore → Type 0
  Followed now r result s =
      (response : GatewayResponse)
      → result.response ≡ some response
      → response.stream ≡ none
      → CanFollow now r response s
