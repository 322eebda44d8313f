-- ===== src/Assets.antt =====
-- The store of one-shot assets (media_bridge/assets.py). The file system is a function of the calls made
-- on it so far, so a file may change between two calls; a token and the readings of the clock are
-- arguments. The calls run one after the other, as the lock makes them.
pub mod Purged
pub mod Consumed
pub mod Once
use media_bridge.Base.{
  ℕ, ◌+◌, String, Bool, true, false, not, ◌&&◌, ◌||◌, Option, none, some, List, [], ◌∷◌, length,
  keep, ltb, leb, concat, text_length, ◌==◌, string_eq, if◌then◌else◌,
}
use media_bridge.Base.{Result, ok, err}
use media_bridge.Base.Steps.{Steps, ◌>>=◌, ◌>>◌, pure, fail}
use media_bridge.State.Identifiers.{tenant_accepted}

pub record ConsumedAsset : Type 0 where
  pub content : List ℕ
  pub filename : Option String
  pub declared_mime : Option String

pub record AssetRecord : Type 0 where
  pub tenant_id : String
  pub path : String
  pub filename : Option String
  pub declared_mime : Option String
  pub expires_at : ℕ

pub record AssetEntry : Type 0 where
  pub asset_id : String
  pub value : AssetRecord

-- The messages of `AssetAccessError`, an `OSError` of the write, and a `ValueError`.
pub data AssetError : Type 0 where
  invalid_tenant too_large unsafe_filename unavailable not_consumed not_verified not_deleted :
      AssetError
  cleanup_failed cleanup_not_verified shutdown_failed shutdown_not_verified : AssetError
  write_failed value_error : AssetError

pub data FileCall : Type 0 where
  opened wrote read unlinked looked : String → FileCall

abbrev pub Calls : Type 0
Calls = List FileCall

-- The operating system's part, each call on the history before it: bytes or an `OSError` of a read,
-- whether a new file can be opened, a write or a deletion succeeds, whether a file is there, and `Path(name).name`.
pub record FileSystem : Type 0 where
  pub open_new : String → Calls → Bool
  pub write_bytes : String → List ℕ → Calls → Bool
  pub read_bytes : String → Calls → Option (List ℕ)
  pub unlink : String → Calls → Bool
  pub unlink_missing_ok : String → Calls → Bool
  pub is_there : String → Calls → Bool
  pub base_name : String → String

pub record Settings : Type 0 where
  pub max_bytes : ℕ
  pub ttl_seconds : ℕ

-- `AssetStore.__init__`
unfoldable pub make_settings : ℕ → ℕ → Result AssetError Settings
make_settings max_bytes ttl =
    if ltb max_bytes 1 || (ltb ttl 1 || ltb 3600 ttl)
    then err value_error
    else ok (record { max_bytes = max_bytes; ttl_seconds = ttl })

pub record World : Type 0 where
  pub records : List AssetEntry
  pub calls : Calls

abbrev pub Action : Type 0 → Type 0
Action = Steps AssetError World

-- `_records.get(asset_id)`
unfoldable pub find_asset : String → List AssetEntry → Option AssetRecord
find_asset asset_id [] = none
find_asset asset_id (e ∷ es) =
    if e.asset_id == asset_id then some e.value else find_asset asset_id es

-- `del _records[asset_id]`
unfoldable pub remove_asset : String → List AssetEntry → List AssetEntry
remove_asset asset_id = keep (λ e. not (e.asset_id == asset_id))

-- `_records[asset_id] = ...`, in place where the key is there.
unfoldable pub assign_asset : AssetEntry → List AssetEntry → List AssetEntry
assign_asset new [] = new ∷ []
assign_asset new (e ∷ es) = if e.asset_id == new.asset_id then new ∷ es else e ∷ assign_asset new es

abbrev pub called : FileCall → World → World
called c w = record w { calls = c ∷ w.calls }

abbrev pub raise_if : Bool → AssetError → Action (Unit {0})
raise_if test e = if test then fail e else pure tt

abbrev pub validate_tenant_id : String → Action (Unit {0})
validate_tenant_id tenant_id = raise_if (not (tenant_accepted tenant_id)) invalid_tenant

unfoldable pub forget : String → Action (Unit {0})
forget asset_id w = (ok tt, record w { records = remove_asset asset_id w.records })

module _ (f : FileSystem) where
  -- A deletion, which raises the error where it fails.
  unfoldable pub delete_file : String → AssetError → Action (Unit {0})
  delete_file path e w =
      if f.unlink_missing_ok path w.calls
      then (ok tt, called (unlinked path) w)
      else (err e, called (unlinked path) w)

  -- `if path.exists(): raise ...`
  unfoldable pub check_gone : String → AssetError → Action (Unit {0})
  check_gone path e w =
      if f.is_there path w.calls
      then (err e, called (looked path) w)
      else (ok tt, called (looked path) w)

  unfoldable pub purge_entries : List AssetEntry → Action (Unit {0})
  purge_entries [] = pure tt
  purge_entries (e ∷ es) = do
    delete_file e.value.path cleanup_failed
    check_gone e.value.path cleanup_not_verified
    forget e.asset_id
    purge_entries es

  abbrev pub expired : ℕ → List AssetEntry → List AssetEntry
  expired now = keep (λ e. leb e.value.expires_at now)

  -- `purge_expired`
  unfoldable pub purge_expired : ℕ → Action (Unit {0})
  purge_expired now w = purge_entries (expired now w.records) w

  abbrev unsafe : Option String → Bool
  unsafe none = false
  unsafe (some name) = not (f.base_name name == name) || ltb 255 (text_length name)

  -- The end of a write that failed: what it left is deleted.
  unfoldable pub abandon : String → Action String
  abandon path w =
      if f.is_there path w.calls
      then (err write_failed, called (unlinked path) (called (looked path) w))
      else (err write_failed, called (looked path) w)

  -- The write into the file that was opened.
  unfoldable pub fill_file : String → List ℕ → Action String
  fill_file path content w =
      if f.write_bytes path content w.calls
      then (ok path, called (wrote path) w)
      else abandon path (called (wrote path) w)

  -- A file that is there already, or cannot be opened, is left as it is.
  unfoldable pub write_file : String → List ℕ → Action String
  unfolding fill_file
  write_file path content w =
      if f.open_new path w.calls
      then fill_file path content (called (opened path) w)
      else (err write_failed, called (opened path) w)

  unfoldable pub keep_record : String → AssetRecord → Action String
  keep_record asset_id r w = (
    ok asset_id,
    record w { records = assign_asset (record { asset_id = asset_id; value = r }) w.records },
  )

  abbrev record_of : String → String → Option String → Option String → ℕ → AssetRecord
  record_of tenant_id path filename declared_mime expires_at = record {
    tenant_id = tenant_id;
    path = path;
    filename = filename;
    declared_mime = declared_mime;
    expires_at = expires_at;
  }

  abbrev pub id_of : String → String
  id_of token = concat "mb_" token

  -- `put`, for the token that it draws.
  unfoldable pub put :
      Settings → ℕ → ℕ → String → String → List ℕ → Option String → Option String → Action String
  put s purged_at stored_at token tenant_id content filename declared_mime = do
    purge_expired purged_at
    validate_tenant_id tenant_id
    raise_if (ltb s.max_bytes (length content)) too_large
    raise_if (unsafe filename) unsafe_filename
    path ← write_file (concat (id_of token) ".bin") content
    keep_record (id_of token)
        (record_of tenant_id path filename declared_mime (stored_at + s.ttl_seconds))

  -- The record of an asset, if it is the tenant's.
  abbrev pub owned : String → Option AssetRecord → Option AssetRecord
  owned tenant_id none = none
  owned tenant_id (some r) = if r.tenant_id == tenant_id then some r else none

  unfoldable pub unlink_read : String → List ℕ → Action (List ℕ)
  unlink_read path content w =
      if f.unlink path w.calls
      then (ok content, called (unlinked path) w)
      else (err not_consumed, called (unlinked path) w)

  unfoldable pub read_result : String → Option (List ℕ) → Action (List ℕ)
  read_result path none = fail not_consumed
  read_result path (some content) = unlink_read path content

  -- The bytes of a file, which is deleted.
  unfoldable pub take_file : String → Action (List ℕ)
  take_file path w = read_result path (f.read_bytes path w.calls) (called (read path) w)

  abbrev pub asset_of : AssetRecord → List ℕ → ConsumedAsset
  asset_of r content = record {
    content = content;
    filename = r.filename;
    declared_mime = r.declared_mime;
  }

  unfoldable pub take_record : Settings → String → Option AssetRecord → Action ConsumedAsset
  take_record s asset_id none = fail unavailable
  take_record s asset_id (some r) = do
    content ← take_file r.path
    check_gone r.path not_verified
    forget asset_id
    raise_if (ltb s.max_bytes (length content)) too_large
    pure (asset_of r content)

  unfoldable pub take_asset : Settings → String → String → Action ConsumedAsset
  take_asset s asset_id tenant_id w =
      take_record s asset_id (owned tenant_id (find_asset asset_id w.records)) w

  -- `consume`
  unfoldable pub consume : Settings → ℕ → String → String → Action ConsumedAsset
  consume s now asset_id tenant_id = do
    purge_expired now
    validate_tenant_id tenant_id
    take_asset s asset_id tenant_id

  unfoldable pub drop_record : String → Option AssetRecord → Action Bool
  drop_record asset_id none = pure false
  drop_record asset_id (some r) = do
    delete_file r.path not_deleted
    check_gone r.path not_verified
    forget asset_id
    pure true

  unfoldable pub drop_asset : String → String → Action Bool
  drop_asset asset_id tenant_id w =
      drop_record asset_id (owned tenant_id (find_asset asset_id w.records)) w

  -- `delete`
  unfoldable pub delete : ℕ → String → String → Action Bool
  delete now asset_id tenant_id = do
    purge_expired now
    validate_tenant_id tenant_id
    drop_asset asset_id tenant_id

  unfoldable pub delete_files : List AssetEntry → Action (Unit {0})
  delete_files [] = pure tt
  delete_files (e ∷ es) = do
    delete_file e.value.path shutdown_failed
    check_gone e.value.path shutdown_not_verified
    delete_files es

  unfoldable pub forget_all : Action (Unit {0})
  forget_all w = (ok tt, record w { records = [] })

  -- `clear`
  unfoldable pub clear : Action (Unit {0})
  clear w = (delete_files w.records >> forget_all) w
