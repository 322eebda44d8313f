-- ===== src/State/Legacy.antt =====
-- `ResponsesStateStore` (media_bridge/responses_state.py), and the adapter that offers it as the
-- gateway's store (`LegacyResponsesStateAdapter`, media_bridge_gateway/state.py).
use media_bridge.Base.{
  ℕ, ◌+◌, ◌≤◌, ◌<◌, String, Bool, true, not, ◌&&◌, ◌||◌, Option, none, some, List, [], ◌≡◌, refl,
  arith, ltb, text_length, if◌then◌else◌,
}
use media_bridge.Base.{Result, ok, err, raise_if, ◌>>◌}
use media_bridge.Capability.Modalities.{ModalitySet, is_nonempty}
use media_bridge.State.Identifiers.{tenant_accepted, response_id_accepted}
use media_bridge.State.Entries.{Entry, lookup, purge, store, lookup-store_self, lookup-purge}
use media_bridge.State.Gateway.{GatewayStateRecord, PutRequest, same_bool}

-- The exceptions of the older store, which are not those of the gateway's.
pub data ResponsesStateError : Type 0 where
  invalid_value responses_state_error : ResponsesStateError

pub record ResponsesStateRecord : Type 0 where
  pub response_id : String
  pub tenant_id : String
  pub sanitized_text : String
  pub media_tainted : Bool
  pub media_modalities : ModalitySet
  pub expires_at : ℕ

pub record ResponsesStateStore : Type 0 where
  pub ttl_seconds : ℕ
  pub max_entries : ℕ
  pub records : List (Entry ResponsesStateRecord)

-- `ResponsesStateStore.__init__`
unfoldable pub make_legacy_store : ℕ → ℕ → Result ResponsesStateError ResponsesStateStore
make_legacy_store ttl most = do
  raise_if (ltb ttl 1 || ltb 86400 ttl) invalid_value
  raise_if (ltb most 1 || ltb 100000 most) invalid_value
  ok (record { ttl_seconds = ttl; max_entries = most; records = [] })

-- `_validate_identifiers`
unfoldable pub legacy_identifiers_accepted : String → String → Bool
legacy_identifiers_accepted response_id tenant_id =
    response_id_accepted response_id && tenant_accepted tenant_id

-- The checks of `put`, in order, on the arguments that the adapter hands on.
unfoldable pub check_legacy_put : PutRequest → Result ResponsesStateError (Unit {0})
check_legacy_put q = do
  raise_if (not (legacy_identifiers_accepted q.response_id q.tenant_id)) invalid_value
  raise_if (ltb 200000 (text_length q.sanitized_text)) invalid_value
  raise_if (not (same_bool q.media_tainted (is_nonempty q.media_modalities))) invalid_value
  raise_if q.media_modalities.has_text invalid_value
  ok tt

unfoldable pub legacy_record_of : PutRequest → ℕ → ResponsesStateRecord
legacy_record_of q expires_at = record {
  response_id = q.response_id;
  tenant_id = q.tenant_id;
  sanitized_text = q.sanitized_text;
  media_tainted = q.media_tainted;
  media_modalities = q.media_modalities;
  expires_at = expires_at;
}

unfoldable pub legacy_entry_of : PutRequest → ℕ → Entry ResponsesStateRecord
legacy_entry_of q expires_at = record {
  tenant = q.tenant_id;
  response = q.response_id;
  value = legacy_record_of q expires_at;
}

abbrev pub legacy_expiry : ResponsesStateRecord → ℕ
legacy_expiry r = r.expires_at

abbrev pub legacy_written_store : ℕ → PutRequest → ResponsesStateStore → ResponsesStateStore
legacy_written_store now q s = record s {
  records =
      store s.max_entries (legacy_entry_of q (now + s.ttl_seconds))
        (purge legacy_expiry now s.records);
}

unfoldable pub legacy_commit :
    ℕ
    → PutRequest
    → ResponsesStateStore
    → Result ResponsesStateError (Unit {0})
    → Result ResponsesStateError ResponsesStateRecord × ResponsesStateStore
legacy_commit now q s (err e) = (err e, s)
legacy_commit now q s (ok _) =
    (ok (legacy_record_of q (now + s.ttl_seconds)), legacy_written_store now q s)

-- `ResponsesStateStore.put`
unfoldable pub legacy_put :
    ℕ
    → PutRequest
    → ResponsesStateStore
    → Result ResponsesStateError ResponsesStateRecord × ResponsesStateStore
legacy_put now q s = legacy_commit now q s (check_legacy_put q)

unfoldable pub found_or_raise :
    Option ResponsesStateRecord → Result ResponsesStateError ResponsesStateRecord
found_or_raise none = err responses_state_error
found_or_raise (some r) = ok r

-- `ResponsesStateStore.resolve`
unfoldable pub legacy_resolve :
    ℕ
    → String
    → String
    → ResponsesStateStore
    → Result ResponsesStateError ResponsesStateRecord × ResponsesStateStore
legacy_resolve now response_id tenant_id s =
    if not (legacy_identifiers_accepted response_id tenant_id)
    then (err responses_state_error, s)
    else (
      found_or_raise (lookup tenant_id response_id (purge legacy_expiry now s.records)),
      record s { records = purge legacy_expiry now s.records },
    )

-- `ResponsesStateStore.clear`, which is also the adapter's.
unfoldable pub legacy_clear : ResponsesStateStore → ResponsesStateStore
legacy_clear s = record s { records = [] }

-- `_from_legacy`
unfoldable pub from_legacy : ResponsesStateRecord → String → String → ℕ → GatewayStateRecord
from_legacy r selector target_id snapshot_version = record {
  response_id = r.response_id;
  tenant_id = r.tenant_id;
  sanitized_text = r.sanitized_text;
  media_tainted = r.media_tainted;
  media_modalities = r.media_modalities;
  credential_selector = selector;
  target_id = target_id;
  snapshot_version = snapshot_version;
  expires_at = r.expires_at;
}

unfoldable pub stamped :
    String
    → String
    → ℕ
    → Result ResponsesStateError ResponsesStateRecord
    → Result ResponsesStateError GatewayStateRecord
stamped selector target_id version (err e) = err e
stamped selector target_id version (ok r) = ok (from_legacy r selector target_id version)

-- `LegacyResponsesStateAdapter.put`
unfoldable pub adapter_put :
    ℕ
    → PutRequest
    → ResponsesStateStore
    → Result ResponsesStateError GatewayStateRecord × ResponsesStateStore
adapter_put now q s =
    let (r, s') = legacy_put now q s in
    (stamped q.credential_selector q.target_id q.snapshot_version r, s')

-- `LegacyResponsesStateAdapter.resolve`
unfoldable pub adapter_resolve :
    ℕ
    → String
    → String
    → String
    → ResponsesStateStore
    → Result ResponsesStateError GatewayStateRecord × ResponsesStateStore
adapter_resolve now response_id tenant_id selector s =
    let (r, s') = legacy_resolve now response_id tenant_id s in
    (stamped selector "legacy-state" 0 r, s')

check_legacy_put-identifiers :
    (q : PutRequest)
    → check_legacy_put q ≡ ok tt
    → legacy_identifiers_accepted q.response_id q.tenant_id ≡ true
unfolding check_legacy_put
check_legacy_put-identifiers q h = ground arith

lookup-legacy_written_store :
    (written now : ℕ) (q : PutRequest) (s : ResponsesStateStore)
    → 1 ≤ s.max_entries
    → now < written + s.ttl_seconds
    → lookup q.tenant_id q.response_id
        (purge legacy_expiry now (legacy_written_store written q s).records)
      ≡ some (legacy_record_of q (written + s.ttl_seconds))
unfolding legacy_entry_of legacy_record_of
lookup-legacy_written_store written now q s room live =
    lookup-purge legacy_expiry now q.tenant_id q.response_id
      (legacy_written_store written q s).records (legacy_record_of q (written + s.ttl_seconds))
      (lookup-store_self s.max_entries (legacy_entry_of q (written + s.ttl_seconds))
        (purge legacy_expiry written s.records) room)
      live

-- Until its lifetime is over, what was written through the adapter is found under its tenant and response
-- by every credential, and the record names the credential that asks, not the one that wrote.
pub adapter_resolve-adapter_put :
    (written now : ℕ) (q : PutRequest) (s : ResponsesStateStore) (selector : String)
    → 1 ≤ s.max_entries
    → check_legacy_put q ≡ ok tt
    → now < written + s.ttl_seconds
    → (adapter_resolve now q.response_id q.tenant_id selector (adapter_put written q s).1).0
      ≡ ok (from_legacy (legacy_record_of q (written + s.ttl_seconds)) selector "legacy-state" 0)
unfolding adapter_resolve adapter_put legacy_put legacy_commit legacy_resolve found_or_raise stamped
adapter_resolve-adapter_put written now q s selector room accepted live =
    rw
      (
        accepted,
        check_legacy_put-identifiers q accepted,
        lookup-legacy_written_store written now q s room live,
      )
      refl
