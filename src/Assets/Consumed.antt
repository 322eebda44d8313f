-- ===== src/Assets/Consumed.antt =====
-- What a consumption returns, and what it leaves.
use media_bridge.Base.{
  ℕ, ◌≤◌, ◌<◌, String, Bool, true, false, not, Option, none, some, List, ◌∷◌, ◌≡◌, refl, sym, ap,
  ◌∙◌, arith, length, ltb, string_eq, eq_iff, Bool-cases, inl, inr,
}
use mathlib.Core.Path.{subst}
use media_bridge.Base.{ok}
use media_bridge.Base.Steps.{◌>>◌, >>=-eq-ok, pure}
use media_bridge.State.Identifiers.{tenant_accepted}
use media_bridge.Assets.{
  ConsumedAsset, AssetRecord, AssetError, invalid_tenant, not_verified, too_large, FileCall, read,
  unlinked, looked, FileSystem, Settings, World, Action, find_asset, called, raise_if,
  validate_tenant_id, forget, check_gone, purge_expired, owned, unlink_read, read_result, take_file,
  asset_of, take_record, take_asset, consume,
}
use media_bridge.Assets.Purged.{IsGone, remove_asset-IsGone, purge_expired-live}

module _ (f : FileSystem) (s : Settings) where
  -- A file that was read, deleted, and looked for in vain, in this order.
  pub record FileTaken (path : String) (content : List ℕ) (calls : List FileCall) : Type 0 where
    pub before : List FileCall
    pub order : calls ≡ looked path ∷ unlinked path ∷ read path ∷ before
    pub held : f.read_bytes path before ≡ some content
    pub deleted : f.unlink path (read path ∷ before) ≡ true
    pub gone : f.is_there path (unlinked path ∷ read path ∷ before) ≡ false

  pub record Consumed (now : ℕ) (asset_id tenant_id : String) (w w' : World) (a : ConsumedAsset)
      : Type 0 where
    pub record_found : AssetRecord
    pub found : find_asset asset_id w.records ≡ some record_found
    pub owner : record_found.tenant_id ≡ tenant_id
    pub live : now < record_found.expires_at
    pub filename : a.filename ≡ record_found.filename
    pub declared_mime : a.declared_mime ≡ record_found.declared_mime
    pub bounded : length a.content ≤ s.max_bytes
    pub taken : FileTaken record_found.path a.content w'.calls
    pub gone : IsGone asset_id w'

  owned-some :
      (tenant_id : String) (found : Option AssetRecord) (r : AssetRecord)
      → owned f tenant_id found ≡ some r
      → (found ≡ some r) × (r.tenant_id ≡ tenant_id)
  owned-some tenant_id none r h = absurd (cc h)
  owned-some tenant_id (some x) r h =
      (ground (arith, h), ground (arith, h, eq_iff x.tenant_id tenant_id))

  abbrev Read : String → List ℕ → World → World → Type 0
  Read path content w w' =
      (w' ≡ called (unlinked path) (called (read path) w))
      × (f.read_bytes path w.calls ≡ some content)
      × (f.unlink path (read path ∷ w.calls) ≡ true)

  unlink_read-lem :
      (path : String) (content content' : List ℕ) (w w' : World)
      → unlink_read f path content w ≡ (ok content', w')
      → (content ≡ content') × (w' ≡ called (unlinked path) w) × (f.unlink path w.calls ≡ true)
  unfolding unlink_read
  unlink_read-lem path content content' w w' h = elim (Bool-cases (f.unlink path w.calls)) [
    | inl done ↦
        (ground (arith, ap (λ p. p.0) (rw done at h)), sym (ap (λ p. p.1) (rw done at h)), done)
    | inr failed ↦ absurd (cc (ap (λ p. p.0) (rw failed at h)))
  ]

  read_result-lem :
      (path : String) (found : Option (List ℕ)) (content : List ℕ) (w w' : World)
      → read_result f path found w ≡ (ok content, w')
      → (found ≡ some content) × (w' ≡ called (unlinked path) w) × (f.unlink path w.calls ≡ true)
  unfolding read_result
  read_result-lem path none content w w' h = absurd (cc (ap (λ p. p.0) h))
  read_result-lem path (some given) content w w' h =
      let (same, after, deleted) = unlink_read-lem path given content w w' h in
      (ap some same, after, deleted)

  take_file-lem :
      (path : String) (content : List ℕ) (w w' : World)
      → take_file f path w ≡ (ok content, w')
      → Read path content w w'
  unfolding take_file
  take_file-lem path content w w' h =
      let (found, after, deleted) =
        read_result-lem path (f.read_bytes path w.calls) content (called (read path) w) w' h in
      (after, found, deleted)

  check_gone-lem :
      (path : String) (e : AssetError) (w w' : World) (u : Unit {0})
      → check_gone f path e w ≡ (ok u, w')
      → (f.is_there path w.calls ≡ false) × (w' ≡ called (looked path) w)
  unfolding check_gone
  check_gone-lem path e w w' u h = elim (Bool-cases (f.is_there path w.calls)) [
    | inl there ↦ absurd (cc (ap (λ p. p.0) (rw there at h)))
    | inr away ↦ (away, sym (ap (λ p. p.1) (rw away at h)))
  ]

  raise_if-lem :
      (test : Bool) (e : AssetError) (w w' : World) (u : Unit {0})
      → raise_if test e w ≡ (ok u, w')
      → (test ≡ false) × (w' ≡ w)
  raise_if-lem true e w w' u h = absurd (cc (ap (λ p. p.0) h))
  raise_if-lem false e w w' u h = (refl, sym (ap (λ p. p.1) h))

  -- The end of a consumption, once the record is found.
  abbrev rest_of : String → AssetRecord → List ℕ → Action ConsumedAsset
  rest_of asset_id r content =
      check_gone f r.path not_verified
      >> (forget asset_id
          >> (raise_if (ltb s.max_bytes (length content)) too_large >> pure (asset_of f r content)))

  abbrev Taken : String → AssetRecord → World → World → ConsumedAsset → Type 0
  Taken asset_id r w w' a =
      (a.filename ≡ r.filename)
      × (a.declared_mime ≡ r.declared_mime)
      × (length a.content ≤ s.max_bytes)
      × FileTaken r.path a.content w'.calls
      × IsGone asset_id w'

  take_record-Taken :
      (asset_id : String) (r : AssetRecord) (w w' : World) (a : ConsumedAsset)
      → take_record f s asset_id (some r) w ≡ (ok a, w')
      → Taken asset_id r w w' a
  unfolding take_record forget
  take_record-Taken asset_id r w w' a h =
      let (content, w1, taken, h1) = >>=-eq-ok (take_file f r.path) (rest_of asset_id r) w w' h in
      let (after1, held, deleted) = take_file-lem r.path content w w1 taken in
      let (u, w2, away, h2) =
        >>=-eq-ok (check_gone f r.path not_verified)
          (λ _.
            forget asset_id
            >> (raise_if (ltb s.max_bytes (length content)) too_large
                >> pure (asset_of f r content)))
          w1 w' h1 in
      let (gone, after2) = check_gone-lem r.path not_verified w1 w2 u away in
      let (u', w3, sized, h3) =
        >>=-eq-ok (raise_if (ltb s.max_bytes (length content)) too_large)
          (λ _. pure (asset_of f r content)) (forget asset_id w2).1 w' h2 in
      let (small, after3) = raise_if-lem _ too_large (forget asset_id w2).1 w3 u' sized in
      let same : asset_of f r content ≡ a = ground (arith, ap (λ p. p.0) h3) in
      let last : (forget asset_id w2).1 ≡ w' = sym after3 ∙ ap (λ p. p.1) h3 in
      subst (λ x. Taken asset_id r w w' x) same
        (
          refl,
          refl,
          ground (arith, small),
          record {
            before = w.calls;
            order =
                ap (λ x. x.calls) (sym last)
                ∙ ap (λ x. x.calls) after2
                ∙ ap (λ x. looked r.path ∷ x.calls) after1;
            held = held;
            deleted = deleted;
            gone = subst (λ x. f.is_there r.path x.calls ≡ false) after1 gone;
          },
          subst (IsGone asset_id) last (remove_asset-IsGone asset_id w2.records),
        )

  unavailable_lem :
      (asset_id : String) (w w' : World) (a : ConsumedAsset)
      → take_record f s asset_id none w ≡ (ok a, w')
      → ⊥
  unfolding take_record
  unavailable_lem asset_id w w' a k = cc (ap (λ p. p.0) k)

  take_asset-Taken :
      (asset_id tenant_id : String) (found : Option AssetRecord) (w w' : World) (a : ConsumedAsset)
      → take_record f s asset_id (owned f tenant_id found) w ≡ (ok a, w')
      → (r : AssetRecord) × (found ≡ some r) × (r.tenant_id ≡ tenant_id) × Taken asset_id r w w' a
  take_asset-Taken asset_id tenant_id found w w' a h = go (owned f tenant_id found) refl h
    where
      go :
          (o : Option AssetRecord)
          → owned f tenant_id found ≡ o
          → take_record f s asset_id o w ≡ (ok a, w')
          → (r : AssetRecord) × (found ≡ some r)
            × (r.tenant_id ≡ tenant_id)
            × Taken asset_id r w w' a
      go none e k = absurd (unavailable_lem asset_id w w' a k)
      go (some r) e k =
          let (there, owner) = owned-some tenant_id found r e in
          (r, there, owner, take_record-Taken asset_id r w w' a k)

  -- A consumption that returns has found a live record of just this tenant in the store, and its content
  -- is that of the file, which was read, deleted, and then looked for in vain, in this order; it is within
  -- the limit, and the store has no record of the asset any more.
  pub consume-Consumed :
      (now : ℕ) (asset_id tenant_id : String) (w w' : World) (a : ConsumedAsset)
      → consume f s now asset_id tenant_id w ≡ (ok a, w')
      → Consumed now asset_id tenant_id w w' a
  unfolding consume take_asset
  consume-Consumed now asset_id tenant_id w w' a h =
      let (u, w1, purged, h1) =
        >>=-eq-ok (purge_expired f now)
          (λ _. validate_tenant_id tenant_id >> take_asset f s asset_id tenant_id) w w' h in
      let (u', w2, valid, h2) =
        >>=-eq-ok (validate_tenant_id tenant_id) (λ _. take_asset f s asset_id tenant_id) w1 w'
          h1 in
      let (accepted, after) =
        raise_if-lem (not (tenant_accepted tenant_id)) invalid_tenant w1 w2 u' valid in
      let (r, found, owner, (filename, mime, bounded, taken, gone)) =
        take_asset-Taken asset_id tenant_id (find_asset asset_id w2.records) w2 w' a h2 in
      let (before, live) =
        purge_expired-live f now w w1 u asset_id r purged
          (ap (λ x. find_asset asset_id x.records) (sym after) ∙ found) in
      record {
        record_found = r;
        found = before;
        owner = owner;
        live = live;
        filename = filename;
        declared_mime = mime;
        bounded = bounded;
        taken = taken;
        gone = gone;
      }
