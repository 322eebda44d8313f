-- ===== src/Assets/Purged.antt =====
-- What the purge leaves, and what no call brings back.
use media_bridge.Base.{
  ℕ, ◌<◌, String, false, none, some, List, [], ◌∷◌, ◌≡◌, refl, sym, ap, ◌∙◌, arith, any, ◌==◌,
  string_eq, eq_iff, if◌then◌else◌, Bool-cases, inl, inr,
}
use media_bridge.Base.{ok}
use media_bridge.Base.Steps.{◌>>◌, >>=-eq-ok, Preserves, Preserves-then}
use media_bridge.Assets.{
  AssetRecord, AssetEntry, AssetError, cleanup_failed, cleanup_not_verified, FileSystem, World,
  find_asset, remove_asset, forget, delete_file, check_gone, purge_entries, expired, purge_expired,
}

-- The store has no record of an asset.
abbrev pub IsGone : String → World → Type 0
IsGone asset_id w = find_asset asset_id w.records ≡ none

find-remove :
    (asset_id other : String) (es : List AssetEntry)
    → find_asset asset_id (remove_asset other es)
      ≡ (if other == asset_id then none else find_asset asset_id es)
unfolding find_asset remove_asset
find-remove asset_id other [] = ground arith
find-remove asset_id other (e ∷ es) = ground (
  arith,
  eq_iff e.asset_id other,
  eq_iff e.asset_id asset_id,
  eq_iff other asset_id,
  find-remove asset_id other es,
)

pub remove_asset-IsGone :
    (asset_id : String) (es : List AssetEntry)
    → find_asset asset_id (remove_asset asset_id es) ≡ none
remove_asset-IsGone asset_id es =
    find-remove asset_id asset_id es ∙ ground (arith, eq_iff asset_id asset_id)

pub forget-Preserves : (asset_id other : String) → Preserves (IsGone asset_id) (forget other)
unfolding forget
forget-Preserves asset_id other w gone = find-remove asset_id other w.records ∙ ground (arith, gone)

-- What is found after a removal was there before.
find-removed :
    (asset_id other : String) (es : List AssetEntry) (r : AssetRecord)
    → find_asset asset_id (remove_asset other es) ≡ some r
    → find_asset asset_id es ≡ some r
find-removed asset_id other es r h = ground (arith, h, find-remove asset_id other es)

module _ (f : FileSystem) where
  pub delete_file-Preserves :
      (asset_id path : String) (e : AssetError) → Preserves (IsGone asset_id) (delete_file f path e)
  unfolding delete_file
  delete_file-Preserves asset_id path e w gone =
      elim (Bool-cases (f.unlink_missing_ok path w.calls)) [
        | inl done ↦ rw done gone
        | inr failed ↦ rw failed gone
      ]

  pub check_gone-Preserves :
      (asset_id path : String) (e : AssetError) → Preserves (IsGone asset_id) (check_gone f path e)
  unfolding check_gone
  check_gone-Preserves asset_id path e w gone = elim (Bool-cases (f.is_there path w.calls)) [
    | inl there ↦ rw there gone
    | inr away ↦ rw away gone
  ]

  purge_entries-Preserves :
      (asset_id : String) (es : List AssetEntry) → Preserves (IsGone asset_id) (purge_entries f es)
  unfolding purge_entries
  purge_entries-Preserves asset_id [] = λ w gone. gone
  purge_entries-Preserves asset_id (e ∷ es) =
      let gone = check_gone f e.value.path cleanup_not_verified in
      Preserves-then (IsGone asset_id) (delete_file f e.value.path cleanup_failed)
        (gone >> (forget e.asset_id >> purge_entries f es))
        (delete_file-Preserves asset_id e.value.path cleanup_failed)
        (Preserves-then (IsGone asset_id) gone (forget e.asset_id >> purge_entries f es)
          (check_gone-Preserves asset_id e.value.path cleanup_not_verified)
          (Preserves-then (IsGone asset_id) (forget e.asset_id) (purge_entries f es)
            (forget-Preserves asset_id e.asset_id) (purge_entries-Preserves asset_id es)))

  pub purge_expired-Preserves :
      (asset_id : String) (now : ℕ) → Preserves (IsGone asset_id) (purge_expired f now)
  unfolding purge_expired
  purge_expired-Preserves asset_id now w =
      purge_entries-Preserves asset_id (expired f now w.records) w

  delete_file-records :
      (path : String) (e : AssetError) (w w' : World) (u : Unit {0})
      → delete_file f path e w ≡ (ok u, w')
      → w'.records ≡ w.records
  unfolding delete_file
  delete_file-records path e w w' u h = elim (Bool-cases (f.unlink_missing_ok path w.calls)) [
    | inl done ↦ ap (λ p. p.1.records) (sym (rw done at h))
    | inr failed ↦ ap (λ p. p.1.records) (sym (rw failed at h))
  ]

  check_gone-records :
      (path : String) (e : AssetError) (w w' : World) (u : Unit {0})
      → check_gone f path e w ≡ (ok u, w')
      → w'.records ≡ w.records
  unfolding check_gone
  check_gone-records path e w w' u h = elim (Bool-cases (f.is_there path w.calls)) [
    | inl there ↦ ap (λ p. p.1.records) (sym (rw there at h))
    | inr away ↦ ap (λ p. p.1.records) (sym (rw away at h))
  ]

  -- The records after a purge of entries that went through.
  removed_all : List AssetEntry → List AssetEntry → List AssetEntry
  removed_all [] es = es
  removed_all (x ∷ xs) es = removed_all xs (remove_asset x.asset_id es)

  purge_entries-records :
      (xs : List AssetEntry) (w w' : World) (u : Unit {0})
      → purge_entries f xs w ≡ (ok u, w')
      → w'.records ≡ removed_all xs w.records
  unfolding purge_entries removed_all forget
  purge_entries-records [] w w' u h = ap (λ p. p.1.records) (sym h)
  purge_entries-records (x ∷ xs) w w' u h =
      let (u1, w1, deleted, h1) =
        >>=-eq-ok (delete_file f x.value.path cleanup_failed)
          (λ _.
            check_gone f x.value.path cleanup_not_verified
            >> (forget x.asset_id >> purge_entries f xs))
          w w' h in
      let (u2, w2, gone, h2) =
        >>=-eq-ok (check_gone f x.value.path cleanup_not_verified)
          (λ _. forget x.asset_id >> purge_entries f xs) w1 w' h1 in
      let same : w2.records ≡ w.records =
        check_gone-records x.value.path cleanup_not_verified w1 w2 u2 gone
        ∙ delete_file-records x.value.path cleanup_failed w w1 u1 deleted in
      purge_entries-records xs (forget x.asset_id w2).1 w' u h2
      ∙ ap (λ es. removed_all xs (remove_asset x.asset_id es)) same

  find-removed_all :
      (asset_id : String) (xs es : List AssetEntry) (r : AssetRecord)
      → find_asset asset_id (removed_all xs es) ≡ some r
      → (find_asset asset_id es ≡ some r) × (any (λ x. x.asset_id == asset_id) xs ≡ false)
  unfolding removed_all
  find-removed_all asset_id [] es r h = (h, refl)
  find-removed_all asset_id (x ∷ xs) es r h =
      let (found, others) = find-removed_all asset_id xs (remove_asset x.asset_id es) r h in
      (
        find-removed asset_id x.asset_id es r found,
        ground (arith, others, found, find-remove asset_id x.asset_id es),
      )

  find-expired :
      (asset_id : String) (now : ℕ) (es : List AssetEntry) (r : AssetRecord)
      → find_asset asset_id es ≡ some r
      → any (λ x. x.asset_id == asset_id) (expired f now es) ≡ false
      → now < r.expires_at
  unfolding find_asset
  find-expired asset_id now [] r h k = absurd (cc h)
  find-expired asset_id now (e ∷ es) r h k = ground (arith, h, k, find-expired asset_id now es r)

  -- What is found after the purge was there before, and is live.
  pub purge_expired-live :
      (now : ℕ) (w w' : World) (u : Unit {0}) (asset_id : String) (r : AssetRecord)
      → purge_expired f now w ≡ (ok u, w')
      → find_asset asset_id w'.records ≡ some r
      → (find_asset asset_id w.records ≡ some r) × (now < r.expires_at)
  unfolding purge_expired
  purge_expired-live now w w' u asset_id r h found =
      let records = purge_entries-records (expired f now w.records) w w' u h in
      let (before, others) =
        find-removed_all asset_id (expired f now w.records) w.records r
          (ap (find_asset asset_id) (sym records) ∙ found) in
      (before, find-expired asset_id now w.records r before others)
