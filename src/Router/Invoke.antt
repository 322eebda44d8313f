-- ===== src/Router/Invoke.antt =====
-- What the router sends, and what it keeps for a follow-up.
use media_bridge.Base.{ℕ, String, Option, none, some, [], ◌∷◌, ◌≡◌, refl, ◌∙◌, ap, any, inl, inr}
use media_bridge.Base.{Result, ok, err}
use media_bridge.Contracts.{PrepareRequest, PrepareResult}
use media_bridge.Capability.{is_media}
use media_bridge.Gate.{GateParts, GateOutcome, DownstreamPayload, prepare_for_model}
use media_bridge.Gate.Effects.{History, Raised}
use media_bridge.Gate.Decision.{Post}
use media_bridge.Gate.Safety.{Origin, IsSound, Shape, prepare_for_model-IsSound}
use media_bridge.Router.{
  GuardError, DownstreamRequest, guard, RouterError, RouterInvocation, Sent, send, route, invoke,
}
use media_bridge.Router.Guard.{guard-Guarded}

-- Each request that was sent is for the requested target, and media is in it only where it is verified.
abbrev pub SentSafely : GateParts → ℕ → PrepareRequest → Sent → Type 0
SentSafely g now r [] = Unit
SentSafely g now r (q ∷ qs) =
    (q.target_id ≡ r.target) × Origin g now r q.content × SentSafely g now r qs

module _ (g : GateParts) (provider : DownstreamRequest → Option String) (now at checked_at : ℕ)
    (r : PrepareRequest) where
  send-SentSafely :
      (public : PrepareResult) (p : DownstreamPayload)
      → p.target_id ≡ r.target
      → Origin g now r p.content
      → (outcome : Result GuardError DownstreamRequest) → guard g checked_at p ≡ outcome
      → SentSafely g now r (send g provider public outcome).1
  unfolding send
  send-SentSafely public p target origin (err e) h = tt
  send-SentSafely public p target origin (ok q) h =
      let passed = guard-Guarded g checked_at p q h in
      (
        passed.target ∙ target,
        elim origin [ inl plain ↦ inl (ap (any is_media) passed.content ∙ plain) | inr v ↦ inr v ],
        tt,
      )

  route-SentSafely :
      (outcome : Result Raised GateOutcome)
      → Post (IsSound g now at r) outcome
      → SentSafely g now r (route g provider checked_at outcome).1
  unfolding route
  route-SentSafely (err e) sound = tt
  route-SentSafely (ok o) sound = prepared o.public o.prepared sound
    where
      prepared :
          (public : PrepareResult) (p : Option DownstreamPayload)
          → Shape g now at r public p
          → SentSafely g now r
              (elim p as (λ x. Result RouterError RouterInvocation × Sent) [
                | none ↦ (
                  ok (record {
                    gate_result = public;
                    downstream_response = none;
                    safe_state = none;
                  }),
                  [],
                )
                | some p' ↦ send g provider public (guard g checked_at p')
              ]).1
      prepared public none shape = tt
      prepared public (some p) (sealed, action, clean, origin) =
          send-SentSafely public p sealed.target origin (guard g checked_at p) refl

  -- Whatever a provider is sent through the router goes to the requested target, and it holds media only
  -- if the target's active entry is verified for the PDF passthrough of exactly this request.
  pub invoke-SentSafely :
      (tenant : String) (h : History)
      → SentSafely g now r (invoke g provider now at checked_at r tenant h).1
  unfolding invoke
  invoke-SentSafely tenant h =
      route-SentSafely (prepare_for_model g now at r tenant h).0
        (prepare_for_model-IsSound g now at r tenant h)
