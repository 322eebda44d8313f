-- ===== src/Tests/GateRuns.antt =====
-- The gate, the receipts and the router on the sample installation.
use media_bridge.Base.{some, [], ◌∷◌, ◌≡◌, refl, arith, contains, string_eq, inl, inr}
use media_bridge.Base.{ok}
use media_bridge.Contracts.{text_part, generic}
use media_bridge.Capability.{
  resolve, available, make_registry, find_capability, classify, is_stale, is_media,
}
use media_bridge.Capability.Resolve.{
  Describes, is_active, ids, resolve-Describes, resolve-available,
}
use media_bridge.Receipts.{sign, verify, encode, payload_fields, ReceiptBinding}
use media_bridge.Receipts.Padding.{unpad, repad, padding, split_on}
use media_bridge.Receipts.Roundtrip.{Base64, answer, verify-sign}
use media_bridge.Receipts.Accepted.{Evidence, verify-Evidence}
use media_bridge.Gate.{prepare_for_model, binding_of, digest_content}
use media_bridge.Gate.Context.{extract_context}
use media_bridge.Gate.Decision.{Post}
use media_bridge.Gate.Safety.{IsSound, Sealed, prepare_for_model-IsSound}
use media_bridge.Gate.Cleanup.{Closes, extract_context-Closes}
use media_bridge.Router.{DownstreamRequest, guard, invoke}
use media_bridge.Router.Guard.{Guarded, guard-Sealed, guard-Guarded}
use media_bridge.Router.Invoke.{SentSafely, invoke-SentSafely}
use media_bridge.Tests.Sample.{
  text_model, pdf_model, registry, services, binding, codec, gate, question, scan_for, payload,
}

-- All that a run of the gate computes with.
program : Unit {0}
unfolding make_registry resolve available find_capability classify is_stale sign verify encode
    payload_fields unpad repad padding split_on prepare_for_model binding_of digest_content
program = tt

-- `Bw==` is base64 as documented, for the byte 7.
seven : Base64 codec (7 ∷ []) "Bw"
unfolding padding
seven = record {
  pad = 2;
  encoded = refl;
  decoded = refl;
  no_equals = refl;
  no_dot = refl;
  ascii = refl;
  short = omega arith;
  whole = refl;
}

resolve-Describes_example :
    Describes registry.capabilities "viewer" 7
      (resolve registry "viewer" 7).state
      (resolve registry "viewer" 7).capability
resolve-Describes_example = resolve-Describes registry "viewer" 7

resolve-available_example :
    is_active (resolve registry "solar" 1000).state
    ≡ contains "solar" (ids (available registry 1000))
unfolding make_registry
resolve-available_example =
    resolve-available (text_model ∷ pdf_model ∷ []) "v1" registry "solar" 1000 refl

sign_example : sign codec (1 ∷ []) 100 binding 30 ≡ ok "v1.Bw.Bw"
unfolding sign media_bridge.Receipts.signature_for encode unpad
sign_example = refl

verify-sign_example :
    verify codec (1 ∷ []) 130 "v1.Bw.Bw" binding ≡ answer 100 30 130 binding binding
verify-sign_example =
    verify-sign codec (1 ∷ []) binding binding 100 30 130 "Bw" "Bw" "v1.Bw.Bw" seven seven refl
      sign_example

verify_accepts : verify codec (1 ∷ []) 130 "v1.Bw.Bw" binding ≡ ok binding
unfolding media_bridge.Receipts.same_binding
verify_accepts = verify-sign_example

verify-Evidence_example : Evidence codec (1 ∷ []) 130 "v1.Bw.Bw" binding × (binding ≡ binding)
verify-Evidence_example =
    verify-Evidence codec (1 ∷ []) 130 "v1.Bw.Bw" binding binding verify_accepts

prepare_for_model-IsSound_example :
    Post
      (IsSound gate 5 100 (scan_for "viewer"))
      (prepare_for_model gate 5 100 (scan_for "viewer") "t" []).0
prepare_for_model-IsSound_example = prepare_for_model-IsSound gate 5 100 (scan_for "viewer") "t" []

extract_context-Closes_example :
    Closes [] (extract_context services (scan_for "solar").content generic "t" [])
extract_context-Closes_example =
    extract_context-Closes services (scan_for "solar").content generic "t" []

payload-Sealed : Sealed gate 100 question payload
unfolding digest_content binding_of sign media_bridge.Receipts.signature_for encode unpad is_media
payload-Sealed = record {
  target = refl;
  digest = refl;
  signed = refl;
  form = inr (refl, refl, inl refl);
}

abbrev sent : DownstreamRequest
sent = record { target_id = "solar"; content = text_part "why?" ∷ [] }

guard-Sealed_example : guard gate 130 payload ≡ ok sent
unfolding binding_of
guard-Sealed_example =
    guard-Sealed gate 100 130 question payload "Bw" "Bw" payload-Sealed seven seven refl
      (omega arith) (omega arith)

guard-Guarded_example : Guarded gate 130 payload sent
guard-Guarded_example = guard-Guarded gate 130 payload sent guard-Sealed_example

invoke-SentSafely_example :
    SentSafely gate 5
      (scan_for "solar")
      (invoke gate (λ q. some "fine") 5 100 101 (scan_for "solar") "t" []).1
invoke-SentSafely_example =
    invoke-SentSafely gate (λ q. some "fine") 5 100 101 (scan_for "solar") "t" []
