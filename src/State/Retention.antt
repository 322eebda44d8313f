-- ===== src/State/Retention.antt =====
-- How long the gateway's store keeps a record, and when it forgets one.
use media_bridge.Base.{
  ℕ, ◌+◌, ◌≤◌, ◌<◌, String, true, false, some, ◌≡◌, ◌≢◌, ap, ◌∙◌, arith, length, string_eq, eq_iff,
}
use media_bridge.Base.{ok, err}
use media_bridge.State.Entries.{
  lookup, purge, store, has_key, lookup-store_self, lookup-store_ne, lookup-purge,
}
use media_bridge.State.Gateway.{
  GatewayStateRecord, GatewayStateStore, state_unavailable, PutRequest, record_of, entry_of,
  check_put, commit, put, owned, resolve, expiry, identifiers_accepted,
}
use media_bridge.State.Isolation.{IsValid}

check_put-identifiers :
    (q : PutRequest)
    → check_put q ≡ ok tt
    → identifiers_accepted q.response_id q.tenant_id q.credential_selector ≡ true
unfolding check_put
check_put-identifiers q h = ground arith

-- The store that a successful write leaves.
abbrev pub written_store : ℕ → PutRequest → GatewayStateStore → GatewayStateStore
written_store now q s = record s {
  records = store s.max_entries (entry_of q (now + s.ttl_seconds)) (purge expiry now s.records);
}

put-accepted :
    (now : ℕ) (q : PutRequest) (s : GatewayStateStore)
    → check_put q ≡ ok tt
    → put now q s ≡ (ok (record_of q (now + s.ttl_seconds)), written_store now q s)
unfolding put commit
put-accepted now q s h = rw h

owned_self :
    (q : PutRequest) (t : ℕ)
    → owned q.credential_selector (some (record_of q t)) ≡ ok (record_of q t)
unfolding owned record_of
owned_self q t = ground (arith, eq_iff q.credential_selector q.credential_selector)

owned_other :
    (q : PutRequest) (t : ℕ) (selector : String)
    → selector ≢ q.credential_selector
    → owned selector (some (record_of q t)) ≡ err state_unavailable
unfolding owned record_of
owned_other q t selector ne = ground (arith, eq_iff q.credential_selector selector)

lookup-written_store :
    (written now : ℕ) (q : PutRequest) (s : GatewayStateStore)
    → 1 ≤ s.max_entries
    → now < written + s.ttl_seconds
    → lookup q.tenant_id q.response_id (purge expiry now (written_store written q s).records)
      ≡ some (record_of q (written + s.ttl_seconds))
unfolding entry_of record_of
lookup-written_store written now q s room live =
    lookup-purge expiry now q.tenant_id q.response_id (written_store written q s).records
      (record_of q (written + s.ttl_seconds))
      (lookup-store_self s.max_entries (entry_of q (written + s.ttl_seconds))
        (purge expiry written s.records) room)
      live

resolve-accepted :
    (now : ℕ) (response_id tenant_id selector : String) (s : GatewayStateStore)
    → identifiers_accepted response_id tenant_id selector ≡ true
    → (resolve now response_id tenant_id selector s).0
      ≡ owned selector (lookup tenant_id response_id (purge expiry now s.records))
unfolding resolve
resolve-accepted now response_id tenant_id selector s h = rw h

-- A record that was written into a valid store is found under its key, by its credential, until its
-- lifetime is over.
pub resolve-put :
    (written now : ℕ) (q : PutRequest) (s : GatewayStateStore)
    → IsValid s
    → check_put q ≡ ok tt
    → now < written + s.ttl_seconds
    → (resolve now q.response_id q.tenant_id q.credential_selector (put written q s).1).0
      ≡ ok (record_of q (written + s.ttl_seconds))
resolve-put written now q s v accepted live = rw (put-accepted written q s accepted) (
    resolve-accepted now q.response_id q.tenant_id q.credential_selector (written_store written q s)
      (check_put-identifiers q accepted)
    ∙ ap (owned q.credential_selector) (lookup-written_store written now q s v.room live)
    ∙ owned_self q (written + s.ttl_seconds))

-- A credential that did not write a live record is told that there is none, in the words for a record
-- that never was.
pub resolve-put_other :
    (written now : ℕ) (q : PutRequest) (s : GatewayStateStore) (selector : String)
    → IsValid s
    → check_put q ≡ ok tt
    → now < written + s.ttl_seconds
    → selector ≢ q.credential_selector
    → identifiers_accepted q.response_id q.tenant_id selector ≡ true
    → (resolve now q.response_id q.tenant_id selector (put written q s).1).0 ≡ err state_unavailable
resolve-put_other written now q s selector v accepted live ne ids =
    rw (put-accepted written q s accepted) (
      resolve-accepted now q.response_id q.tenant_id selector (written_store written q s) ids
      ∙ ap (owned selector) (lookup-written_store written now q s v.room live)
      ∙ owned_other q (written + s.ttl_seconds) selector ne)

owned_own : (r : GatewayStateRecord) → owned r.credential_selector (some r) ≡ ok r
unfolding owned
owned_own r = ground (arith, eq_iff r.credential_selector r.credential_selector)

-- A write into a store with room for one more record leaves what is found under every other key.
pub resolve-put_ne :
    (written now : ℕ) (q : PutRequest) (s : GatewayStateStore) (response_id tenant_id : String)
    (r : GatewayStateRecord)
    → check_put q ≡ ok tt
    → length (purge expiry written s.records) < s.max_entries
    → has_key tenant_id response_id (entry_of q (written + s.ttl_seconds)) ≡ false
    → lookup tenant_id response_id s.records ≡ some r
    → written < r.expires_at
    → now < r.expires_at
    → identifiers_accepted response_id tenant_id r.credential_selector ≡ true
    → (resolve now response_id tenant_id r.credential_selector (put written q s).1).0 ≡ ok r
resolve-put_ne written now q s response_id tenant_id r accepted room other found early live ids =
    rw (put-accepted written q s accepted) (
      resolve-accepted now response_id tenant_id r.credential_selector (written_store written q s)
        ids
      ∙ ap (owned r.credential_selector) (
          lookup-purge expiry now tenant_id response_id (written_store written q s).records r
            (lookup-store_ne s.max_entries tenant_id response_id
                (entry_of q (written + s.ttl_seconds)) (purge expiry written s.records) room other
              ∙ lookup-purge expiry written tenant_id response_id s.records r found early)
            live)
      ∙ owned_own r)
