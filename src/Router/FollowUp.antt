-- ===== src/Router/FollowUp.antt =====
-- What a conversation is followed up with (media_bridge/router.py).
use media_bridge.Base.{
  ℕ, String, Bool, true, false, Option, none, some, List, [], ◌∷◌, ◌≡◌, refl, ◌∙◌, arith, any,
  is_blank, inl, inr, Bool-cases,
}
use mathlib.Core.Path.{subst}
use media_bridge.Base.{Result, ok, err}
use media_bridge.Contracts.{ContentPart, text_part, PrepareRequest, PrepareResult, Action}
use media_bridge.Capability.{
  CapabilityState, vision, non_vision, unknown, stale, ModelCapability, is_media, resolve,
}
use media_bridge.Receipts.{ReceiptError}
use media_bridge.Gate.{
  GateParts, GateOutcome, DownstreamPayload, block, is_vision, ready_payload, issue,
  signature_of_ready, ready, pass_text, has_media_parts, prepare_active, prepare_resolved,
  prepare_for_model,
}
use media_bridge.Gate.Context.{join_text}
use media_bridge.Gate.Effects.{History, Raised}
use media_bridge.Gate.Decision.{Post, Ensures, media_count-zero, media_count_of_none}
use media_bridge.Router.{
  GuardError, DownstreamRequest, guard, RouterError, RouterInvocation, Sent, SafeState,
  safe_state_of, deliver, send, route, invoke, fresh_text_request,
}
use media_bridge.Router.Guard.{guard-Guarded}

-- Each request that was sent goes to the target with exactly this content.
abbrev pub SentExactly : String → List ContentPart → Sent → Type 0
SentExactly target content [] = Unit
SentExactly target content (q ∷ qs) =
    (q.target_id ≡ target) × (q.content ≡ content) × SentExactly target content qs

-- What is prepared for a request without media is its own content, for its target.
abbrev AsItIs : PrepareRequest → Option DownstreamPayload → Type 0
AsItIs r none = Unit
AsItIs r (some p) = (p.target_id ≡ r.target) × (p.content ≡ r.content)

abbrev IsAsItIs : PrepareRequest → GateOutcome → Type 0
IsAsItIs r o = AsItIs r o.prepared

module _ (g : GateParts) (at : ℕ) (r : PrepareRequest) (tenant : String) where
  block-IsAsItIs : (code message : String) → IsAsItIs r (block r code message)
  unfolding block
  block-IsAsItIs code message = tt

  issue-IsAsItIs :
      (capability : CapabilityState) (action : Action) (text : String) (removed : Bool)
      (signature : Result ReceiptError String)
      → Ensures (IsAsItIs r) (issue g at r r.content capability action text removed signature)
  unfolding issue ready_payload
  issue-IsAsItIs capability action text removed (err e) h = tt
  issue-IsAsItIs capability action text removed (ok receipt) h = ground arith

  pass_text-IsAsItIs :
      (capability : CapabilityState) → Ensures (IsAsItIs r) (pass_text g at r tenant capability)
  unfolding pass_text ready
  pass_text-IsAsItIs capability =
      issue-IsAsItIs capability _ _ _
        (signature_of_ready g at r r.content capability _ (join_text r.content) true)

  prepare_active-IsAsItIs :
      (capability : CapabilityState) (c : ModelCapability)
      → any is_media r.content ≡ false
      → Ensures (IsAsItIs r) (prepare_active g at r tenant capability c)
  unfolding prepare_active
  prepare_active-IsAsItIs capability c plain h =
      let none_there : has_media_parts g at r tenant ≡ false =
        media_count_of_none r.content plain in
      elim (Bool-cases (is_vision capability)) [
        | inl sees ↦ rw (sees, none_there) (pass_text-IsAsItIs capability h)
        | inr blind ↦ rw (blind, none_there) (pass_text-IsAsItIs capability h)
      ]

  prepare_resolved-IsAsItIs :
      (capability : CapabilityState) (c : Option ModelCapability)
      → any is_media r.content ≡ false
      → Ensures (IsAsItIs r) (prepare_resolved g at r tenant capability c)
  unfolding prepare_resolved
  prepare_resolved-IsAsItIs unknown c plain h = block-IsAsItIs _ _
  prepare_resolved-IsAsItIs stale c plain h = block-IsAsItIs _ _
  prepare_resolved-IsAsItIs vision none plain h = block-IsAsItIs _ _
  prepare_resolved-IsAsItIs vision (some c) plain h = prepare_active-IsAsItIs vision c plain h
  prepare_resolved-IsAsItIs non_vision none plain h = block-IsAsItIs _ _
  prepare_resolved-IsAsItIs non_vision (some c) plain h =
      prepare_active-IsAsItIs non_vision c plain h

module _ (g : GateParts) (provider : DownstreamRequest → Option String) where
  send-SentExactly :
      (checked_at : ℕ) (r : PrepareRequest) (public : PrepareResult) (p : DownstreamPayload)
      → AsItIs r (some p)
      → (outcome : Result GuardError DownstreamRequest) → guard g checked_at p ≡ outcome
      → SentExactly r.target r.content (send g provider public outcome).1
  unfolding send
  send-SentExactly checked_at r public p (target, content) (err e) h = tt
  send-SentExactly checked_at r public p (target, content) (ok q) h =
      let passed = guard-Guarded g checked_at p q h in
      (passed.target ∙ target, passed.content ∙ content, tt)

  route-SentExactly :
      (checked_at : ℕ) (r : PrepareRequest) (outcome : Result Raised GateOutcome)
      → Post (IsAsItIs r) outcome
      → SentExactly r.target r.content (route g provider checked_at outcome).1
  unfolding route
  route-SentExactly checked_at r (err e) h = tt
  route-SentExactly checked_at r (ok o) h = prepared o.public o.prepared h
    where
      prepared :
          (public : PrepareResult) (p : Option DownstreamPayload)
          → AsItIs r p
          → SentExactly r.target r.content
              (elim p as (λ x. Result RouterError RouterInvocation × Sent) [
                | none ↦ (
                  ok (record {
                    gate_result = public;
                    downstream_response = none;
                    safe_state = none;
                  }),
                  [],
                )
                | some p' ↦ send g provider public (guard g checked_at p')
              ]).1
      prepared public none h = tt
      prepared public (some p) h =
          send-SentExactly checked_at r public p h (guard g checked_at p) refl

  invoke-SentExactly :
      (now at checked_at : ℕ) (r : PrepareRequest) (tenant : String) (h : History)
      → any is_media r.content ≡ false
      → SentExactly r.target r.content (invoke g provider now at checked_at r tenant h).1
  unfolding invoke prepare_for_model
  invoke-SentExactly now at checked_at r tenant h plain =
      route-SentExactly checked_at r (prepare_for_model g now at r tenant h).0 (
        prepare_resolved-IsAsItIs g at r tenant (resolve g.registry r.target now).state
          (resolve g.registry r.target now).capability plain h)

  -- A state that is kept is that of the one request that was sent.
  abbrev Keeps : SafeState → Result RouterError RouterInvocation × Sent → Type 0
  Keeps state (result, sent) =
      (q : DownstreamRequest) × (sent ≡ q ∷ []) × (safe_state_of q.content ≡ some state)

  send-Keeps :
      (public : PrepareResult) (state : SafeState) (inv : RouterInvocation)
      (outcome : Result GuardError DownstreamRequest)
      → (send g provider public outcome).0 ≡ ok inv
      → inv.safe_state ≡ some state
      → Keeps state (send g provider public outcome)
  unfolding send deliver
  send-Keeps public state inv (err e) h kept = absurd (cc h)
  send-Keeps public state inv (ok q) h kept = (q, refl, ground (arith, h, kept))

  route-Keeps :
      (checked_at : ℕ) (state : SafeState) (inv : RouterInvocation)
      (outcome : Result Raised GateOutcome)
      → (route g provider checked_at outcome).0 ≡ ok inv
      → inv.safe_state ≡ some state
      → Keeps state (route g provider checked_at outcome)
  unfolding route
  route-Keeps checked_at state inv (err e) h kept = absurd (cc h)
  route-Keeps checked_at state inv (ok o) h kept = prepared o.public o.prepared h
    where
      prepared :
          (public : PrepareResult) (p : Option DownstreamPayload)
          → (elim p as (λ x. Result RouterError RouterInvocation × Sent) [
            | none ↦ (
              ok (record { gate_result = public; downstream_response = none; safe_state = none }),
              [],
            )
            | some p' ↦ send g provider public (guard g checked_at p')
          ]).0
            ≡ ok inv
          → Keeps state (elim p as (λ x. Result RouterError RouterInvocation × Sent) [
            | none ↦ (
              ok (record { gate_result = public; downstream_response = none; safe_state = none }),
              [],
            )
            | some p' ↦ send g provider public (guard g checked_at p')
          ])
      prepared public none k = absurd (ground (arith, k, kept))
      prepared public (some p) k = send-Keeps public state inv (guard g checked_at p) k kept

  invoke-Keeps :
      (now at checked_at : ℕ) (r : PrepareRequest) (tenant : String) (h : History)
      (inv : RouterInvocation) (state : SafeState)
      → (invoke g provider now at checked_at r tenant h).0 ≡ ok inv
      → inv.safe_state ≡ some state
      → Keeps state (invoke g provider now at checked_at r tenant h)
  unfolding invoke
  invoke-Keeps now at checked_at r tenant h inv state =
      route-Keeps checked_at state inv (prepare_for_model g now at r tenant h).0

safe_state_of-some :
    (content : List ContentPart) (state : SafeState)
    → safe_state_of content ≡ some state
    → (any is_media content ≡ false)
      × (state.text ≡ join_text content)
      × (is_blank state.text ≡ false)
unfolding safe_state_of
safe_state_of-some content state h =
    (media_count-zero content (ground arith), ground arith, ground arith)

fresh_text_request-parts :
    (state : SafeState) (user_text target : String) (r : PrepareRequest)
    → fresh_text_request state user_text target ≡ some r
    → (r.target ≡ target) × (r.content ≡ text_part state.text ∷ text_part user_text ∷ [])
unfolding fresh_text_request
fresh_text_request-parts state user_text target r h = (ground arith, ground arith)

module _ (g : GateParts) (provider : DownstreamRequest → Option String) where
  -- Where an invocation returns a state, it has sent one request, without media, and the state is the
  -- nonempty text of that request. Whatever is sent for a follow-up that is built from this state goes to the
  -- target of the follow-up and is exactly that text and the user's: media that the conversation had
  -- does not come back.
  pub invoke-follow_up :
      (now at checked_at : ℕ) (first : PrepareRequest) (tenant : String) (h : History)
      (inv : RouterInvocation) (state : SafeState) (user_text target : String) (r : PrepareRequest)
      (now' at' checked_at' : ℕ) (tenant' : String) (h' : History)
      → (invoke g provider now at checked_at first tenant h).0 ≡ ok inv
      → inv.safe_state ≡ some state
      → fresh_text_request state user_text target ≡ some r
      → ((q : DownstreamRequest) × ((invoke g provider now at checked_at first tenant h).1 ≡ q ∷ [])
          × (any is_media q.content ≡ false)
          × (state.text ≡ join_text q.content)
          × (is_blank state.text ≡ false))
        × SentExactly target
            (text_part state.text ∷ text_part user_text ∷ [])
            (invoke g provider now' at' checked_at' r tenant' h').1
  unfolding is_media
  invoke-follow_up now at checked_at first tenant h inv state user_text target r now' at'
        checked_at' tenant' h' answered kept built =
      let (q, sent, safe) =
        invoke-Keeps g provider now at checked_at first tenant h inv state answered kept in
      let (plain, words, given) = safe_state_of-some q.content state safe in
      let (same, parts) = fresh_text_request-parts state user_text target r built in
      (
        (q, sent, plain, words, given),
        subst
            (λ t.
              SentExactly t (text_part state.text ∷ text_part user_text ∷ [])
                (invoke g provider now' at' checked_at' r tenant' h').1)
            same
            (subst
              (λ c. SentExactly r.target c (invoke g provider now' at' checked_at' r tenant' h').1)
              parts
              (invoke-SentExactly g provider now' at' checked_at' r tenant' h' (rw parts refl))),
      )
