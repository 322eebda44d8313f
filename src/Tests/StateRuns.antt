-- ===== src/Tests/StateRuns.antt =====
-- The stores on small inputs.
use media_bridge.Base.{String, false, [], ◌∷◌, ◌≡◌, refl, arith, eq_iff}
use media_bridge.Base.{ok, err}
use media_bridge.State.Identifiers.{tenant_accepted, response_id_accepted, target_id_accepted}
use media_bridge.State.Entries.{lookup, purge, pop, evict, store}
use media_bridge.State.Gateway.{
  GatewayStateStore, state_unavailable, PutRequest, record_of, entry_of, check_put,
  identifiers_accepted, make_store, commit, put, owned, resolve,
}
use media_bridge.State.Legacy.{
  ResponsesStateStore, check_legacy_put, legacy_identifiers_accepted, legacy_record_of, from_legacy,
  adapter_put, adapter_resolve, adapter_resolve-adapter_put,
}
use media_bridge.State.Isolation.{IsValid, Owned, make_store-IsValid, put-IsValid, resolve-Owned}
use media_bridge.State.Retention.{resolve-put, resolve-put_other, resolve-put_ne}

program : Unit {0}
unfolding tenant_accepted response_id_accepted target_id_accepted lookup purge pop evict store
    record_of entry_of check_put identifiers_accepted make_store commit put owned resolve
program = tt

abbrev start : GatewayStateStore
start = record { ttl_seconds = 60; max_entries = 2; records = [] }

abbrev answer_of : String → PutRequest
answer_of id = record {
  response_id = id;
  tenant_id = "client-a";
  credential_selector = "a";
  sanitized_text = "the text";
  media_tainted = false;
  media_modalities = record { has_text = false; has_image = false; has_pdf = false };
  target_id = "solar";
  snapshot_version = 3;
}

start-IsValid : IsValid start
unfolding program
start-IsValid = make_store-IsValid 60 2 start refl

accepted : (id : String) → check_put (answer_of "r1") ≡ ok tt
unfolding program
accepted id = refl

put-IsValid_example : IsValid (put 10 (answer_of "r1") start).1
put-IsValid_example = put-IsValid 10 (answer_of "r1") start start-IsValid

resolve-put_example :
    (resolve 69 "r1" "client-a" "a" (put 10 (answer_of "r1") start).1).0
    ≡ ok (record_of (answer_of "r1") 70)
resolve-put_example =
    resolve-put 10 69 (answer_of "r1") start start-IsValid (accepted "r1") (omega arith)

resolve-put_other_example :
    (resolve 69 "r1" "client-a" "b" (put 10 (answer_of "r1") start).1).0 ≡ err state_unavailable
unfolding program
resolve-put_other_example =
    resolve-put_other 10 69 (answer_of "r1") start "b" start-IsValid (accepted "r1") (omega arith)
      (ground (arith, eq_iff "b" "a")) refl

resolve-Owned_example : Owned 69 "r1" "client-a" "a" (record_of (answer_of "r1") 70)
resolve-Owned_example =
    resolve-Owned 69 "r1" "client-a" "a" (put 10 (answer_of "r1") start).1
      (record_of (answer_of "r1") 70) put-IsValid_example resolve-put_example

abbrev one : GatewayStateStore
one = record start { records = entry_of (answer_of "r1") 70 ∷ [] }

resolve-put_ne_example :
    (resolve 69 "r1" "client-a" "a" (put 20 (answer_of "r2") one).1).0
    ≡ ok (record_of (answer_of "r1") 70)
unfolding program
resolve-put_ne_example =
    resolve-put_ne 20 69 (answer_of "r2") one "r1" "client-a" (record_of (answer_of "r1") 70) refl
      (omega arith) refl refl (omega arith) (omega arith) refl

abbrev older : ResponsesStateStore
older = record { ttl_seconds = 60; max_entries = 2; records = [] }

older_accepts : check_legacy_put (answer_of "r1") ≡ ok tt
unfolding program check_legacy_put legacy_identifiers_accepted
older_accepts = refl

adapter_resolve-adapter_put_example :
    (adapter_resolve 69 "r1" "client-a" "b" (adapter_put 10 (answer_of "r1") older).1).0
    ≡ ok (from_legacy (legacy_record_of (answer_of "r1") 70) "b" "legacy-state" 0)
adapter_resolve-adapter_put_example =
    adapter_resolve-adapter_put 10 69 (answer_of "r1") older "b" (omega arith) older_accepts
      (omega arith)
