-- ===== src/Interop/Decides.antt =====
-- What the responsibility router decides, and what a provider is sent of it.
use media_bridge.Base.{
  ℕ, ◌≤◌, ◌<◌, Bool, true, false, not, some, ◌≡◌, refl, ap, ◌∙◌, ◌⊎◌, inl, inr, arith, string_eq,
  Bool-cases,
}
use mathlib.Core.Path.{subst}
use media_bridge.Base.{Result, ok, or_raise, ◌>>=◌, >>=-eq-ok}
use media_bridge.Json.{Json, null, bool, int, number, text, array, object}
use media_bridge.Json.{get}
use media_bridge.Interop.{
  Deadline, aware, naive, InteropError, ErrorCode, capability_unknown, capability_stale, is_fresh,
  InteropRequest, normalized_mode, InteropResult, result_holds, status_holds, provider_call_allowed,
  is_nonempty,
}
use media_bridge.Interop.Route.{
  RouteDecision, RouteError, type_error, too_old, prepare_tested, blocked_decision, is_managed,
  transformed, prepare_known, prepare_for, prepare,
}

-- The snapshot is still good, where a host manages its capabilities.
abbrev pub Fresh : ℕ → InteropRequest → Type 0
Fresh now r =
    (is_managed (normalized_mode r.mode) ≡ false)
    ⊎ ((until : ℕ) × (r.target.fresh_until ≡ aware until) × (now ≤ until))

-- The snapshot is over, and a host manages it.
abbrev pub Over : ℕ → InteropRequest → Type 0
Over now r =
    (is_managed (normalized_mode r.mode) ≡ true)
    × ((until : ℕ) × (r.target.fresh_until ≡ aware until) × (until < now))

abbrev is_bool : Json → Bool
is_bool (bool b) = true
is_bool _ = false

-- The code of an error.
abbrev pub HasCode : InteropResult → ErrorCode → Type 0
HasCode result code = (e : InteropError) × (result.error ≡ some e) × (e.code ≡ code)

-- Why a request is refused: the target does not say whether it takes images, or its snapshot is over.
abbrev pub Reason : ℕ → InteropRequest → InteropResult → Type 0
Reason now r result =
    ((is_bool (get "vision" r.target.capabilities) ≡ false) × HasCode result capability_unknown)
    ⊎ (Over now r × HasCode result capability_stale)

-- The flag says what the result allows.
abbrev Coherent : RouteDecision → Type 0
Coherent d = d.provider_call_allowed ≡ provider_call_allowed d.result

module _ (now : ℕ) (transform : InteropRequest → Result RouteError InteropResult)
    (r : InteropRequest) where
  -- Nothing is allowed, in a result that holds, for a reason.
  abbrev Refused : RouteDecision → Type 0
  Refused d =
      (d.provider_call_allowed ≡ false)
      × (d.bridge_called ≡ false)
      × (result_holds d.result ≡ true)
      × Reason now r d.result

  -- The messages go on as they are: the target takes images, or there are no assets.
  abbrev AsIs : Bool → RouteDecision → Type 0
  AsIs vision d =
      ((is_nonempty r.assets ≡ false) ⊎ (vision ≡ true))
      × (d.bridge_called ≡ false)
      × (result_holds d.result ≡ true)
      × (d.result.sanitized_messages ≡ r.canonical_messages)

  -- The bridge was called, for a target that takes no images.
  abbrev Bridged : Bool → RouteDecision → Type 0
  Bridged vision d =
      (is_nonempty r.assets ≡ true)
      × (vision ≡ false)
      × (d.bridge_called ≡ true)
      × (transform r ≡ ok d.result)

  abbrev Allowed : RouteDecision → Type 0
  Allowed d =
      (vision : Bool) × (get "vision" r.target.capabilities ≡ bool vision)
      × Fresh now r
      × (AsIs vision d ⊎ Bridged vision d)

  abbrev pub Decided : RouteDecision → Type 0
  Decided d = Coherent d × (Refused d ⊎ Allowed d)

  blocked-HasCode : (code : ErrorCode) → HasCode (blocked_decision r code).result code
  unfolding blocked_decision
  blocked-HasCode code = (_, refl, refl)

  blocked-Decided :
      (code : ErrorCode)
      → Reason now r (blocked_decision r code).result
      → Decided (blocked_decision r code)
  unfolding blocked_decision provider_call_allowed result_holds status_holds
  blocked-Decided code reason = (refl, inl (refl, refl, refl, reason))

  transformed-Decided :
      (d : RouteDecision)
      → get "vision" r.target.capabilities ≡ bool false
      → Fresh now r
      → is_nonempty r.assets ≡ true
      → transformed now transform r ≡ ok d
      → Decided d
  unfolding transformed
  transformed-Decided d known fresh assets h =
      let (result, made, last) = >>=-eq-ok (transform r) _ h in
      let same : record {
        result = result;
        provider_call_allowed = provider_call_allowed result;
        bridge_called = true;
      }
          ≡ d =
        ground (arith, last) in
      subst Decided same (refl, inr (false, known, fresh, inr (assets, refl, refl, made)))

  too_old-Fresh :
      (deadline : Deadline)
      → r.target.fresh_until ≡ deadline
      → too_old now transform r ≡ ok false
      → Fresh now r
  unfolding too_old is_fresh
  too_old-Fresh deadline e h = elim (Bool-cases (is_managed (normalized_mode r.mode))) [
    | inr free ↦ inl free
    | inl managed ↦ inr (timed deadline e (rw managed at h))
  ]
    where
      timed :
          (deadline : Deadline)
          → r.target.fresh_until ≡ deadline
          → (or_raise (is_fresh r.target now) type_error >>= λ fresh. ok (not fresh)) ≡ ok false
          → (until : ℕ) × (r.target.fresh_until ≡ aware until) × (now ≤ until)
      timed (aware until) e h = (until, e, ground (arith, e, h))
      timed (naive until) e h = absurd (ground (arith, e, h))

  too_old-Over :
      (deadline : Deadline)
      → r.target.fresh_until ≡ deadline
      → too_old now transform r ≡ ok true
      → Over now r
  unfolding too_old is_fresh
  too_old-Over deadline e h = elim (Bool-cases (is_managed (normalized_mode r.mode))) [
    | inr free ↦ absurd (ground (arith, free, h))
    | inl managed ↦ (managed, timed deadline e (rw managed at h))
  ]
    where
      timed :
          (deadline : Deadline)
          → r.target.fresh_until ≡ deadline
          → (or_raise (is_fresh r.target now) type_error >>= λ fresh. ok (not fresh)) ≡ ok true
          → (until : ℕ) × (r.target.fresh_until ≡ aware until) × (until < now)
      timed (aware until) e h = (until, e, ground (arith, e, h))
      timed (naive until) e h = absurd (ground (arith, e, h))

  prepare_tested-Decided :
      (vision old : Bool) (d : RouteDecision)
      → get "vision" r.target.capabilities ≡ bool vision
      → too_old now transform r ≡ ok old
      → prepare_tested now transform r vision old ≡ ok d
      → Decided d
  unfolding prepare_tested provider_call_allowed result_holds status_holds
  prepare_tested-Decided vision true d known tested h =
      let same : blocked_decision r capability_stale ≡ d = ground (arith, h) in
      subst Decided same (
        blocked-Decided capability_stale
          (inr (too_old-Over r.target.fresh_until refl tested, blocked-HasCode capability_stale)))
  prepare_tested-Decided vision false d known tested h =
      let fresh = too_old-Fresh r.target.fresh_until refl tested in
      elim (Bool-cases (is_nonempty r.assets)) [
        | inr bare ↦
            let same = ok_parts _ d (rw bare at h) in
            subst Decided same (refl, inr (vision, known, fresh, inl (inl bare, refl, refl, refl)))
        | inl assets ↦ elim (Bool-cases vision) [
          | inl seeing ↦
              let same = ok_parts _ d (rw (assets, seeing) at h) in
              subst Decided same
                (refl, inr (vision, known, fresh, inl (inr seeing, refl, refl, refl)))
          | inr blind ↦
              transformed-Decided d (known ∙ ap bool blind) fresh assets (rw (assets, blind) at h)
        ]
      ]
    where
      ok_parts :
          (a b : RouteDecision) → ◌≡◌ {A = Result RouteError RouteDecision} (ok a) (ok b) → a ≡ b
      ok_parts a b e = ground (arith, e)

  prepare_known-Decided :
      (vision : Bool) (d : RouteDecision)
      → get "vision" r.target.capabilities ≡ bool vision
      → prepare_known now transform r vision ≡ ok d
      → Decided d
  unfolding prepare_known
  prepare_known-Decided vision d known h =
      let (old, tested, rest) = >>=-eq-ok (too_old now transform r) _ h in
      prepare_tested-Decided vision old d known tested rest

  unknown-Decided :
      {vision : Json}
      → get "vision" r.target.capabilities ≡ vision
      → is_bool vision ≡ false
      → Decided (blocked_decision r capability_unknown)
  unknown-Decided known other =
      blocked-Decided capability_unknown
        (inl (ap is_bool known ∙ other, blocked-HasCode capability_unknown))

  prepare_for-Decided :
      (vision : Json) (d : RouteDecision)
      → get "vision" r.target.capabilities ≡ vision
      → prepare_for now transform r vision ≡ ok d
      → Decided d
  unfolding prepare_for
  prepare_for-Decided (bool b) d known h = prepare_known-Decided b d known h
  prepare_for-Decided null d known h =
      subst Decided (ground (arith, h)) (unknown-Decided known refl)
  prepare_for-Decided (int i) d known h =
      subst Decided (ground (arith, h)) (unknown-Decided known refl)
  prepare_for-Decided (number i) d known h =
      subst Decided (ground (arith, h)) (unknown-Decided known refl)
  prepare_for-Decided (text i) d known h =
      subst Decided (ground (arith, h)) (unknown-Decided known refl)
  prepare_for-Decided (array i) d known h =
      subst Decided (ground (arith, h)) (unknown-Decided known refl)
  prepare_for-Decided (object i) d known h =
      subst Decided (ground (arith, h)) (unknown-Decided known refl)

  -- Every decision's flag says what its result allows. A provider is refused, with a valid result, because
  -- the target does not say whether it takes images (capability_unknown), or because its snapshot is over where
  -- a host manages it (capability_stale); or the target says whether it takes images and its snapshot, with a time zone, is fresh where a host
  -- manages it; then the messages go on as they are, for a target that takes images or where there are no
  -- assets, or else the result is that of the transformation, which is called in no other case.
  pub prepare-Decided : (d : RouteDecision) → prepare now transform r ≡ ok d → Decided d
  unfolding prepare
  prepare-Decided d h = prepare_for-Decided (get "vision" r.target.capabilities) d refl h
