-- ===== src/State/Isolation.antt =====
-- The invariant of the gateway's store, and what a caller can get out of it.
use media_bridge.Base.{
  ℕ, ◌+◌, ◌≤◌, ◌<◌, String, false, Option, none, some, List, ◌≡◌, refl, sym, ap, ◌∙◌, arith, length,
  length-keep-le, text_length, ltb, string_eq, eq_iff,
}
use mathlib.Core.Path.{subst}
use media_bridge.Base.{Result, ok, err}
use media_bridge.Capability.Modalities.{is_nonempty}
use media_bridge.State.Entries.{
  Entry, lookup, purge, All, All-keep, All-store, All-lookup, All-purge, length-store-le,
}
use media_bridge.State.Gateway.{
  GatewayStateRecord, GatewayStateStore, StateError, PutRequest, entry_of, check_put, commit, put,
  owned, resolve, make_store, expiry,
}

-- A record under its own key, with bounded text and an honest taint.
pub record IsKept (e : Entry GatewayStateRecord) : Type 0 where
  pub tenant : e.value.tenant_id ≡ e.tenant
  pub response : e.value.response_id ≡ e.response
  pub bounded : text_length e.value.sanitized_text ≤ 200000
  pub tainted : e.value.media_tainted ≡ is_nonempty e.value.media_modalities
  pub media : e.value.media_modalities.has_text ≡ false

pub record IsValid (s : GatewayStateStore) : Type 0 where
  pub room : 1 ≤ s.max_entries
  pub bounded : length s.records ≤ s.max_entries
  pub kept : All IsKept s.records

pub make_store-IsValid :
    (ttl most : ℕ) (s : GatewayStateStore) → make_store ttl most ≡ ok s → IsValid s
unfolding make_store
make_store-IsValid ttl most s h = ground arith

entry_of-IsKept : (q : PutRequest) (t : ℕ) → check_put q ≡ ok tt → IsKept (entry_of q t)
unfolding check_put entry_of
entry_of-IsKept q t h = record {
  tenant = refl;
  response = refl;
  bounded = ground arith;
  tainted = ground arith;
  media = ground arith;
}

purge-length-le :
    (now : ℕ) (es : List (Entry GatewayStateRecord)) → length (purge expiry now es) ≤ length es
unfolding purge
purge-length-le now es = length-keep-le (λ e. ltb now (expiry e.value)) es

purge-IsKept :
    (now : ℕ) (es : List (Entry GatewayStateRecord))
    → All IsKept es
    → All IsKept (purge expiry now es)
unfolding purge
purge-IsKept now es h = All-keep IsKept (λ e. ltb now (expiry e.value)) es h

commit-IsValid :
    (now : ℕ) (q : PutRequest) (s : GatewayStateStore) (checked : Result StateError (Unit {0}))
    → check_put q ≡ checked
    → IsValid s
    → IsValid (commit now q s checked).1
unfolding commit
commit-IsValid now q s (err e) c v = v
commit-IsValid now q s (ok u) c v =
    let new = entry_of q (now + s.ttl_seconds) in
    record {
      room = v.room;
      bounded = length-store-le s.max_entries new (purge expiry now s.records);
      kept =
          All-store IsKept s.max_entries new (purge expiry now s.records)
            (purge-IsKept now s.records v.kept) (entry_of-IsKept q (now + s.ttl_seconds) c);
    }

-- A write keeps the invariant, whether it succeeds or raises: at most the configured number of records,
-- each under the key of its own tenant and response, with bounded text, and marked as tainted exactly
-- if it names a modality, which is then an image or a PDF.
pub put-IsValid :
    (now : ℕ) (q : PutRequest) (s : GatewayStateStore) → IsValid s → IsValid (put now q s).1
unfolding put
put-IsValid now q s = commit-IsValid now q s (check_put q) refl

pub resolve-IsValid :
    (now : ℕ) (response_id tenant_id selector : String) (s : GatewayStateStore)
    → IsValid s
    → IsValid (resolve now response_id tenant_id selector s).1
unfolding resolve
resolve-IsValid now response_id tenant_id selector s v =
    ground (arith, purge-length-le now s.records, purge-IsKept now s.records v.kept)

-- What `resolve` returns from a valid store is a live record of just this tenant, response and
-- credential, with an honest taint.
pub record Owned (now : ℕ) (response_id tenant_id selector : String) (r : GatewayStateRecord)
    : Type 0 where
  pub tenant : r.tenant_id ≡ tenant_id
  pub response : r.response_id ≡ response_id
  pub credential : r.credential_selector ≡ selector
  pub live : now < r.expires_at
  pub tainted : r.media_tainted ≡ is_nonempty r.media_modalities

owned-found :
    (selector : String) (found : Option GatewayStateRecord) (r : GatewayStateRecord)
    → owned selector found ≡ ok r
    → (found ≡ some r) × (r.credential_selector ≡ selector)
unfolding owned
owned-found selector none r h = cc
owned-found selector (some x) r h = ground (arith, eq_iff x.credential_selector selector)

resolve-found :
    (now : ℕ) (response_id tenant_id selector : String) (s : GatewayStateStore)
    (r : GatewayStateRecord)
    → (resolve now response_id tenant_id selector s).0 ≡ ok r
    → owned selector (lookup tenant_id response_id (purge expiry now s.records)) ≡ ok r
unfolding resolve
resolve-found now response_id tenant_id selector s r h = ground arith

-- From a valid store a caller gets a record only if it is of its own tenant, under the response that it
-- names and the credential that it shows, still live, and with an honest taint.
pub resolve-Owned :
    (now : ℕ) (response_id tenant_id selector : String) (s : GatewayStateStore)
    (r : GatewayStateRecord)
    → IsValid s
    → (resolve now response_id tenant_id selector s).0 ≡ ok r
    → Owned now response_id tenant_id selector r
resolve-Owned now response_id tenant_id selector s r v h =
    let (found, credential) =
      owned-found selector (lookup tenant_id response_id (purge expiry now s.records)) r
        (resolve-found now response_id tenant_id selector s r h) in
    let (e, kept, et, er, ev) =
      All-lookup IsKept tenant_id response_id (purge expiry now s.records) r
        (purge-IsKept now s.records v.kept) found in
    let (x, live, xt, xr, xv) =
      All-lookup (λ y. now < expiry y.value) tenant_id response_id (purge expiry now s.records) r
        (All-purge expiry now s.records) found in
    record {
      tenant = ap (λ (y : GatewayStateRecord). y.tenant_id) (sym ev) ∙ kept.tenant ∙ et;
      response = ap (λ (y : GatewayStateRecord). y.response_id) (sym ev) ∙ kept.response ∙ er;
      credential = credential;
      live = subst (λ (y : GatewayStateRecord). now < y.expires_at) xv live;
      tainted =
          subst (λ (y : GatewayStateRecord). y.media_tainted ≡ is_nonempty y.media_modalities) ev
            kept.tainted;
    }
