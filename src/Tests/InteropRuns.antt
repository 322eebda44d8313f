-- ===== src/Tests/InteropRuns.antt =====
-- A prepared result, its receipt, its cleanup and its messages for the provider.
use media_bridge.Base.{true, false, none, some, List, [], ◌∷◌, ◌≡◌, ◌↔◌, all, refl, starts_with}
use media_bridge.Base.{Result, ok}
use media_bridge.Idempotency.{IdempotencyError}
use media_bridge.Json.{bool, text}
use media_bridge.Json.{Fields, end, field, get, find, has_key}
use media_bridge.Interop.{
  prepared, standalone, aware, InteropRequest, InteropResult, TargetCapabilitySnapshot, is_fresh,
  normalized_mode, provider_call_allowed,
}
use media_bridge.Interop.Receipts.{
  Digests, CleanupBarrier, receipt_of, build_transformation_receipt, make_barrier, mark_deleted,
  finalize,
}
use media_bridge.Interop.Route.{RouteDecision, plain_result, prepare_known, prepare_for, prepare}
use media_bridge.Interop.Wire.{external_fields, external_messages, build_external_provider_messages}
use media_bridge.Interop.Prepare.{Prepared, receipted, cleaned, finished, operation}
use media_bridge.Interop.Barrier.{mark_all, was_verified, finalize-mark_all}
use media_bridge.Interop.Decides.{Decided, prepare-Decided}
use media_bridge.Interop.External.{AllExternal, build_external_provider_messages-AllExternal}
use media_bridge.Interop.Evidence.{Outcome, operation-Outcome}

program : Unit {0}
unfolding starts_with get find has_key is_fresh normalized_mode provider_call_allowed
    build_transformation_receipt make_barrier mark_deleted finalize prepare_known prepare_for
    prepare external_fields external_messages build_external_provider_messages receipted cleaned
    finished operation mark_all
program = tt

abbrev digests : Digests
digests = record { of_texts = λ ss. "d"; of_objects = λ ms. "e" }

abbrev message : Fields
message = field "role" (text "user") (field "provenance" (text "ocr") end)

abbrev result : InteropResult
result = record {
  status = prepared;
  request_id = "r";
  trace_id = "t";
  idempotency_key = "k";
  sanitized_messages = message ∷ [];
  original_media_removed = true;
  error = none;
  asset_digests = "d" ∷ [];
  media_types = "image" ∷ [];
  transformations = end ∷ [];
  backend = some (record { id = "ocr"; version = "1" });
  provenance = end ∷ [];
  confidence = some end;
  warnings = [];
  information_loss = some end;
  required_capabilities_after = some end;
  token_estimate = some end;
  prepared_marker = some (record { schema_digest = "s"; expires_at = 100 });
}

abbrev returned : Prepared
returned = (
  result,
  some (receipt_of digests result (record { schema_digest = "s"; expires_at = 100 }) 50 30),
)

run : operation digests 30 50 (ok result) (ok true) ≡ ok returned
unfolding program
run = refl

operation-Outcome_example :
    (r : InteropResult) × (◌≡◌ {A = Result IdempotencyError InteropResult} (ok result) (ok r))
    × Outcome digests 50 30 r (ok true) returned
operation-Outcome_example = operation-Outcome digests 50 30 (ok result) (ok true) returned run

abbrev sent : List Fields
sent = field "role" (text "user") end ∷ []

wire : build_external_provider_messages result ≡ ok sent
unfolding program
wire = refl

build_external_provider_messages-AllExternal_example :
    (provider_call_allowed result ≡ true) × AllExternal sent result.sanitized_messages
build_external_provider_messages-AllExternal_example =
    build_external_provider_messages-AllExternal result sent wire

abbrev barrier : CleanupBarrier
barrier = record { expected = "a" ∷ "b" ∷ []; verified = [] }

abbrev done : CleanupBarrier
done = record { expected = "a" ∷ "b" ∷ []; verified = "b" ∷ "a" ∷ [] }

new_barrier : make_barrier ("a" ∷ "b" ∷ []) ≡ ok barrier
unfolding program
new_barrier = refl

marks_run : mark_all (("a", true) ∷ ("b", true) ∷ []) barrier ≡ ok done
unfolding program
marks_run = refl

finalize-mark_all_example :
    (finalize done ≡ ok true)
    ↔ (all (was_verified (("a", true) ∷ ("b", true) ∷ [])) ("a" ∷ "b" ∷ []) ≡ true)
finalize-mark_all_example =
    finalize-mark_all ("a" ∷ "b" ∷ []) (("a", true) ∷ ("b", true) ∷ []) barrier done new_barrier
      marks_run

abbrev target : TargetCapabilitySnapshot
target = record {
  model_id = "solar";
  capability_snapshot_version = "v";
  capability_snapshot_digest = "d";
  capabilities = field "vision" (bool false) end;
  observed_at = 0;
  fresh_until = aware 10;
}

abbrev request : InteropRequest
request = record {
  request_id = "r";
  trace_id = "t";
  idempotency_key = "k";
  mode = standalone;
  host_id = none;
  canonical_messages = message ∷ [];
  assets =
      record {
        asset_id = some "mb_x";
        signed_url = none;
        inline_base64 = none;
        media_type_hint = "image";
        digest = none;
        expires_at = none;
      }
      ∷ [];
  target = target;
  transformation_policy = end;
  hop = record { hop_id = "h"; visited_gateways = []; max_hops = 2 };
}

abbrev decision : RouteDecision
decision = record { result = result; provider_call_allowed = true; bridge_called = true }

routed : prepare 5 (λ r. ok result) request ≡ ok decision
unfolding program media_bridge.Interop.Route.transformed
routed = refl

prepare-Decided_example : Decided 5 (λ r. ok result) request decision
prepare-Decided_example = prepare-Decided 5 (λ r. ok result) request decision routed
