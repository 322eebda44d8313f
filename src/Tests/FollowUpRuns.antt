-- ===== src/Tests/FollowUpRuns.antt =====
-- A question that the sample installation answers, and its follow-up.
use media_bridge.Base.{false, true, none, some, [], ◌∷◌, ◌≡◌, refl, any, is_blank, ok}
use media_bridge.Contracts.{text_part, generic, passthrough, PrepareRequest}
use media_bridge.Capability.{is_media}
use media_bridge.Gate.Context.{join_text}
use media_bridge.Router.{DownstreamRequest, SafeState, RouterInvocation, invoke}
use media_bridge.Router.FollowUp.{SentExactly, invoke-follow_up}
use media_bridge.Tests.Sample.{gate, question}

program : Unit {0}
unfolding media_bridge.Receipts.sign media_bridge.Receipts.verify media_bridge.Receipts.encode
    media_bridge.Receipts.decode media_bridge.Receipts.payload_fields
    media_bridge.Receipts.same_binding media_bridge.Receipts.make_signer
    media_bridge.Receipts.signature_for media_bridge.Receipts.read_text
    media_bridge.Receipts.read_int media_bridge.Receipts.read_fields
    media_bridge.Receipts.read_payload media_bridge.Receipts.is_ascii
    media_bridge.Receipts.verify_parts media_bridge.Receipts.Padding.unpad
    media_bridge.Receipts.Padding.repad media_bridge.Receipts.Padding.padding
    media_bridge.Receipts.Padding.split_on media_bridge.Gate.binding_of
    media_bridge.Gate.canonical_digest media_bridge.Gate.digest_content media_bridge.Gate.block
    media_bridge.Gate.ready_payload media_bridge.Gate.ready_result media_bridge.Gate.issue
    media_bridge.Gate.ready media_bridge.Gate.pass_text media_bridge.Gate.prepare_active
    media_bridge.Gate.prepare_resolved media_bridge.Gate.prepare_for_model
    media_bridge.Gate.prepare_vision media_bridge.Gate.Context.join_text
    media_bridge.Gate.Context.texts_of media_bridge.Capability.find_capability
    media_bridge.Capability.classify media_bridge.Capability.is_stale
    media_bridge.Capability.resolve media_bridge.Capability.detect_media
    media_bridge.Capability.modalities_of media_bridge.Capability.is_media media_bridge.Router.guard
    media_bridge.Router.invoke media_bridge.Router.route media_bridge.Router.send
    media_bridge.Router.deliver media_bridge.Router.safe_state_of
    media_bridge.Router.checked_receipt media_bridge.Router.fresh_text_request
    media_bridge.Contracts.result_accepted media_bridge.Contracts.request_accepted
    media_bridge.Contracts.part_accepted media_bridge.Base.strip media_bridge.Base.join
    media_bridge.Json.get media_bridge.Json.find media_bridge.Json.keys media_bridge.Json.has_key
program = tt

abbrev kept_state : SafeState
kept_state = record { text = "why?" }

abbrev follow_up : PrepareRequest
follow_up = record {
  content = text_part "why?" ∷ text_part "and then?" ∷ [];
  target = "solar";
  profile = generic;
}

abbrev answered : RouterInvocation
answered = record {
  gate_result = record {
    action = passthrough;
    target_model = "solar";
    contains_media = false;
    contains_image = false;
    contains_pdf = false;
    target_supports_vision = some false;
    sanitized_text = some "why?";
    original_image_removed = true;
    error = none;
  };
  downstream_response = some "fine";
  safe_state = some kept_state;
}

first_answer : (invoke gate (λ q. some "fine") 5 100 101 question "t" []).0 ≡ ok answered
unfolding program
first_answer = refl

invoke-follow_up_example :
    ((q : DownstreamRequest) × ((invoke gate (λ q. some "fine") 5 100 101 question "t" []).1
        ≡ q ∷ [])
      × (any is_media q.content ≡ false)
      × (kept_state.text ≡ join_text q.content)
      × (is_blank kept_state.text ≡ false))
    × SentExactly "solar"
        (text_part "why?" ∷ text_part "and then?" ∷ [])
        (invoke gate (λ q. some "fine") 6 110 111 follow_up "t" []).1
unfolding program
invoke-follow_up_example =
    invoke-follow_up gate (λ q. some "fine") 5 100 101 question "t" [] answered kept_state
      "and then?" "solar" follow_up 6 110 111 "t" [] first_answer refl refl
