-- ===== src/State/Gateway.antt =====
-- `GatewayStateStore` (media_bridge_gateway/state.py).
use media_bridge.Base.{
  ℕ, ◌+◌, String, Bool, true, false, not, ◌&&◌, ◌||◌, Option, none, some, List, [], ltb,
  text_length, ◌==◌, string_eq, if◌then◌else◌,
}
use media_bridge.Base.{Result, ok, err, raise_if, ◌>>◌}
use media_bridge.Capability.Modalities.{ModalitySet, is_nonempty}
use media_bridge.State.Identifiers.{tenant_accepted, response_id_accepted, target_id_accepted}
use media_bridge.State.Entries.{Entry, lookup, purge, store}

pub record GatewayStateRecord : Type 0 where
  pub response_id : String
  pub tenant_id : String
  pub sanitized_text : String
  pub media_tainted : Bool
  pub media_modalities : ModalitySet
  pub credential_selector : String
  pub target_id : String
  pub snapshot_version : ℕ
  pub expires_at : ℕ

pub data StateError : Type 0 where
  value_error state_unavailable : StateError

pub record GatewayStateStore : Type 0 where
  pub ttl_seconds : ℕ
  pub max_entries : ℕ
  pub records : List (Entry GatewayStateRecord)

-- `GatewayStateStore.__init__`
unfoldable pub make_store : ℕ → ℕ → Result StateError GatewayStateStore
make_store ttl most = do
  raise_if (ltb ttl 1 || ltb 86400 ttl) value_error
  raise_if (ltb most 1 || ltb 100000 most) value_error
  ok (record { ttl_seconds = ttl; max_entries = most; records = [] })

-- `_validate_identifiers`
unfoldable pub identifiers_accepted : String → String → String → Bool
identifiers_accepted response_id tenant_id selector =
    response_id_accepted response_id && (response_id_accepted selector && tenant_accepted tenant_id)

-- The arguments of `put`; a version is a natural number, so it is not negative.
pub record PutRequest : Type 0 where
  pub response_id : String
  pub tenant_id : String
  pub credential_selector : String
  pub sanitized_text : String
  pub media_tainted : Bool
  pub media_modalities : ModalitySet
  pub target_id : String
  pub snapshot_version : ℕ

abbrev pub same_bool : Bool → Bool → Bool
same_bool true b = b
same_bool false b = not b

-- The record that `put` makes at time `now`.
unfoldable pub record_of : PutRequest → ℕ → GatewayStateRecord
record_of q expires_at = record {
  response_id = q.response_id;
  tenant_id = q.tenant_id;
  sanitized_text = q.sanitized_text;
  media_tainted = q.media_tainted;
  media_modalities = q.media_modalities;
  credential_selector = q.credential_selector;
  target_id = q.target_id;
  snapshot_version = q.snapshot_version;
  expires_at = expires_at;
}

-- The checks of `put`, in order.
unfoldable pub check_put : PutRequest → Result StateError (Unit {0})
check_put q = do
  raise_if (not (identifiers_accepted q.response_id q.tenant_id q.credential_selector)) value_error
  raise_if (not (target_id_accepted q.target_id)) value_error
  raise_if (ltb 200000 (text_length q.sanitized_text)) value_error
  raise_if (not (same_bool q.media_tainted (is_nonempty q.media_modalities))) value_error
  raise_if q.media_modalities.has_text value_error
  ok tt

unfoldable pub entry_of : PutRequest → ℕ → Entry GatewayStateRecord
unfolding record_of
entry_of q expires_at = record {
  tenant = q.tenant_id;
  response = q.response_id;
  value = record_of q expires_at;
}

abbrev pub expiry : GatewayStateRecord → ℕ
expiry r = r.expires_at

-- `put` behind its checks: what it returns or raises, and the store afterwards.
unfoldable pub commit :
    ℕ
    → PutRequest
    → GatewayStateStore
    → Result StateError (Unit {0})
    → Result StateError GatewayStateRecord × GatewayStateStore
commit now q s (err e) = (err e, s)
commit now q s (ok _) = (
  ok (record_of q (now + s.ttl_seconds)),
  record s {
    records = store s.max_entries (entry_of q (now + s.ttl_seconds)) (purge expiry now s.records);
  },
)

-- `put`
unfoldable pub put :
    ℕ → PutRequest → GatewayStateStore → Result StateError GatewayStateRecord × GatewayStateStore
put now q s = commit now q s (check_put q)

-- The end of `resolve`: another credential's record is as good as none.
unfoldable pub owned : String → Option GatewayStateRecord → Result StateError GatewayStateRecord
owned selector none = err state_unavailable
owned selector (some r) = if r.credential_selector == selector then ok r else err state_unavailable

-- `resolve`
unfoldable pub resolve :
    ℕ
    → String
    → String
    → String
    → GatewayStateStore
    → Result StateError GatewayStateRecord × GatewayStateStore
resolve now response_id tenant_id selector s =
    if not (identifiers_accepted response_id tenant_id selector)
    then (err state_unavailable, s)
    else (
      owned selector (lookup tenant_id response_id (purge expiry now s.records)),
      record s { records = purge expiry now s.records },
    )

-- `clear`
unfoldable pub clear : GatewayStateStore → GatewayStateStore
clear s = record s { records = [] }
