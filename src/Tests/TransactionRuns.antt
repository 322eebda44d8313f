-- ===== src/Tests/TransactionRuns.antt =====
-- A transaction for a text request on the sample installation.
use media_bridge.Base.{String, true, false, none, some, [], ◌∷◌, ◌≡◌, ◌<◌, refl}
use media_bridge.Base.{
  Result, ok, err, remove_prefix, remove_suffix, starts_with, contains_text, split_once,
}
use media_bridge.Json.{text, object}
use media_bridge.Json.{Fields, end, field, get, find, keys, has_key, insert, remove}
use media_bridge.Contracts.{
  passthrough, PrepareResult, request_accepted, part_accepted, source_accepted,
}
use media_bridge.Capability.{
  find_capability, classify, is_stale, resolve, supports_all, detect_media, modalities_of, is_media,
}
use media_bridge.Receipts.{
  sign, verify, encode, decode, payload_fields, same_binding, make_signer, signature_for, read_text,
  read_int, read_fields, read_payload, is_ascii, verify_parts,
}
use media_bridge.Receipts.Padding.{unpad, repad, padding, split_on}
use media_bridge.Gate.{
  binding_of, canonical_digest, digest_content, block, ready_payload, ready_result, issue, ready,
  pass_text, prepare_active, prepare_resolved, prepare_for_model, prepare_vision,
}
use media_bridge.Gate.Context.{join_text, texts_of}
use media_bridge.State.Identifiers.{tenant_accepted, response_id_accepted, target_id_accepted}
use media_bridge.State.Entries.{lookup, purge, pop, evict, store}
use media_bridge.State.Gateway.{
  record_of, entry_of, check_put, identifiers_accepted, make_store, commit, put, owned,
}
use media_bridge.State.Isolation.{IsValid, make_store-IsValid}
use media_bridge.Responses.References.{contains_reference, some_reference, field_reference, locates}
use media_bridge.Responses.Parts.{current_content, sections_of}
use media_bridge.Responses.Select.{select_current_input}
use media_bridge.Responses.Normalize.{
  check_previous, prior_parts, request_of, build_request, input_of, outside_reference,
  normalize_fields, normalize_responses_request,
}
use media_bridge.Transaction.Contracts.{
  Subject, GatewayResponse, GatewayResult, completed, sealed_binding,
}
use media_bridge.Transaction.Payload.{build_downstream_payload, unchanged_payload}
use media_bridge.Transaction.Seal.{Gateway, Moment, check_state, taint_policy, seal}
use media_bridge.Transaction.Invoke.{
  World, Ready, check_scope, found_state, load_state, normalize_or_block, check_or_block,
  gate_outcome, run_gate, prepared_or_block, sealed_or_block, seal_prepared, take_outcome,
  gate_request, check_request, read_request, load_request, get_ready, response_or_error, send,
  state_of, record_state, stored_or_warned, store_state, finish, complete, deliver, invoke,
}
use media_bridge.Transaction.Keeps.{invoke-IsValid}
use media_bridge.Tests.Sample.{gate}
use media_bridge.Tests.ResponsesRuns.{web}

program : Unit {0}
unfolding remove_prefix remove_suffix starts_with contains_text split_once get find keys has_key
    insert remove request_accepted part_accepted source_accepted find_capability classify is_stale
    resolve supports_all detect_media modalities_of is_media sign verify encode decode
    payload_fields same_binding make_signer signature_for read_text read_int read_fields
    read_payload is_ascii verify_parts unpad repad padding split_on binding_of canonical_digest
    digest_content block ready_payload ready_result issue ready pass_text prepare_active
    prepare_resolved prepare_for_model prepare_vision join_text texts_of tenant_accepted
    response_id_accepted target_id_accepted lookup purge pop evict store record_of entry_of
    check_put identifiers_accepted make_store commit put owned contains_reference some_reference
    field_reference locates current_content sections_of select_current_input check_previous
    prior_parts request_of build_request input_of outside_reference normalize_fields
    normalize_responses_request sealed_binding build_downstream_payload unchanged_payload
    check_state taint_policy seal check_scope found_state load_state normalize_or_block
    check_or_block gate_outcome run_gate prepared_or_block sealed_or_block seal_prepared
    take_outcome gate_request check_request read_request load_request get_ready response_or_error
    send state_of record_state stored_or_warned store_state finish complete deliver invoke
    media_bridge.Contracts.result_accepted media_bridge.Base.strip media_bridge.Base.join
program = tt

abbrev answer : GatewayResponse
answer = record {
  body = 123 ∷ 125 ∷ [];
  content_type = "application/json";
  response_id = "r1";
  status_code = 200;
  stream = none;
}

abbrev gateway : Gateway
gateway = record {
  gate = gate;
  web = web;
  signer_secret = 1 ∷ [];
  digest = λ value. some "d";
  downstream = λ q. ok answer;
  snapshot_version = 3;
}

abbrev moment : Moment
moment = record {
  resolved_at = 5;
  checked_at = 5;
  prepared_at = 5;
  signed_at = 100;
  verified_at = 110;
  sealed_at = 100;
  stored_at = 10;
  nonce = "n";
}

abbrev subject : Subject
subject = record {
  credential_selector = "a";
  tenant_id = "client-a";
  scopes = "responses:invoke" ∷ [];
}

abbrev request : Fields
request = field "model" (text "solar") (field "input" (text "why?") end)

abbrev start : World
start = record {
  store = record { ttl_seconds = 60; max_entries = 2; records = [] };
  sent = [];
  history = [];
}

start-IsValid : IsValid start.store
unfolding make_store
start-IsValid = make_store-IsValid 60 2 start.store refl

abbrev result : GatewayResult
result = record {
  status = completed;
  response = some answer;
  gate_result = some (record {
    action = passthrough;
    target_model = "solar";
    contains_media = false;
    contains_image = false;
    contains_pdf = false;
    target_supports_vision = some false;
    sanitized_text = some "why?";
    original_image_removed = true;
    error = none;
  });
  error = none;
  http_status = 200;
  warning = none;
}

run : (invoke gateway moment subject (object request) start).0 ≡ ok result
unfolding program
run = refl

invoke-IsValid_example : IsValid (invoke gateway moment subject (object request) start).1.store
invoke-IsValid_example = invoke-IsValid gateway moment subject (object request) start start-IsValid
