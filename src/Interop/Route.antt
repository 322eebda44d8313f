-- ===== src/Interop/Route.antt =====
-- `V2ResponsibilityRouter` (media_bridge/router.py).
use media_bridge.Base.{ℕ, Bool, true, false, not, none, some, [], map, if◌then◌else◌}
use media_bridge.Base.{Result, ok, or_raise, ◌>>=◌}
use media_bridge.Json.{Json, bool, get}
use media_bridge.Interop.{
  ErrorCode, capability_unknown, capability_stale, code_value, is_fresh, Mode, host_managed,
  InteropRequest, normalized_mode, unchanged, blocked, InteropResult, provider_call_allowed,
  is_nonempty,
}

pub record RouteDecision : Type 0 where
  pub result : InteropResult
  pub provider_call_allowed : Bool
  pub bridge_called : Bool

-- Whatever the transformation raises, and the `TypeError` of `is_fresh`.
pub data RouteError : Type 0 where
  transform_raised type_error : RouteError

-- What the router makes of a request, without evidence.
abbrev pub plain_result : InteropRequest → InteropResult
plain_result r = record {
  status = unchanged;
  request_id = r.request_id;
  trace_id = r.trace_id;
  idempotency_key = r.idempotency_key;
  sanitized_messages = r.canonical_messages;
  original_media_removed = true;
  error = none;
  asset_digests = [];
  media_types = [];
  transformations = [];
  backend = none;
  provenance = [];
  confidence = none;
  warnings = [];
  information_loss = none;
  required_capabilities_after = none;
  token_estimate = none;
  prepared_marker = none;
}

-- `_blocked`
unfoldable pub blocked_decision : InteropRequest → ErrorCode → RouteDecision
unfolding code_value
blocked_decision r code = record {
  result = record (plain_result r) {
    status = blocked;
    sanitized_messages = [];
    original_media_removed = false;
    error = some (record { code = code; message = code_value code; retryable = false });
  };
  provider_call_allowed = false;
  bridge_called = false;
}

abbrev pub is_managed : Mode → Bool
is_managed host_managed = true
is_managed _ = false

abbrev allowed_as_is : InteropResult → RouteDecision
allowed_as_is result = record {
  result = result;
  provider_call_allowed = true;
  bridge_called = false;
}

module _ (now : ℕ) (transform : InteropRequest → Result RouteError InteropResult) where
  unfoldable pub transformed : InteropRequest → Result RouteError RouteDecision
  transformed r = do
    result ← transform r
    ok (record {
      result = result;
      provider_call_allowed = provider_call_allowed result;
      bridge_called = true;
    })

  -- The test for a snapshot that is too old.
  unfoldable pub too_old : InteropRequest → Result RouteError Bool
  too_old r =
      if is_managed (normalized_mode r.mode)
      then (do fresh ← or_raise (is_fresh r.target now) type_error; ok (not fresh))
      else ok false

  unfoldable pub prepare_tested : InteropRequest → Bool → Bool → Result RouteError RouteDecision
  unfolding transformed
  prepare_tested r vision old =
      if old
      then ok (blocked_decision r capability_stale)
      else if not (is_nonempty r.assets)
      then ok (allowed_as_is (plain_result r))
      else if vision
      then ok (
          allowed_as_is
            (record (plain_result r) { media_types = map (λ a. a.media_type_hint) r.assets }))
      else transformed r

  -- `prepare` for a target that says whether it takes images.
  unfoldable pub prepare_known : InteropRequest → Bool → Result RouteError RouteDecision
  unfolding prepare_tested too_old
  prepare_known r vision = do old ← too_old r; prepare_tested r vision old

  unfoldable pub prepare_for : InteropRequest → Json → Result RouteError RouteDecision
  prepare_for r (bool vision) = prepare_known r vision
  prepare_for r _ = ok (blocked_decision r capability_unknown)

  -- `prepare`
  unfoldable pub prepare : InteropRequest → Result RouteError RouteDecision
  prepare r = prepare_for r (get "vision" r.target.capabilities)
