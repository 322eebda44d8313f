-- ===== src/Assets/Once.antt =====
-- An asset is consumed once.
use media_bridge.Base.{
  ℕ, ◌+◌, String, Bool, true, false, not, Option, none, some, List, [], ◌∷◌, ◌≡◌, ◌≢◌, refl, sym,
  ap, ◌∙◌, arith, any, length, ltb, concat, ◌==◌, string_eq, eq_iff, if◌then◌else◌,
}
use media_bridge.Base.{ok}
use media_bridge.Base.Steps.{◌>>=◌, ◌>>◌, pure, Preserves, Preserves-bind, Preserves-then}
use media_bridge.State.Identifiers.{tenant_accepted}
use media_bridge.Assets.{
  ConsumedAsset, AssetRecord, AssetEntry, AssetError, invalid_tenant, too_large, unsafe_filename,
  not_verified, not_deleted, shutdown_failed, shutdown_not_verified, FileSystem, Settings, World,
  Action, find_asset, assign_asset, raise_if, validate_tenant_id, forget, delete_file, check_gone,
  purge_expired, unsafe, abandon, fill_file, write_file, keep_record, record_of, id_of, put, owned,
  unlink_read, read_result, take_file, asset_of, take_record, take_asset, consume, drop_record,
  drop_asset, delete, delete_files, forget_all, clear,
}
use media_bridge.Assets.Purged.{
  IsGone, forget-Preserves, delete_file-Preserves, check_gone-Preserves, purge_expired-Preserves,
}
use media_bridge.Assets.Consumed.{consume-Consumed}

find-assign :
    (asset_id : String) (new : AssetEntry) (es : List AssetEntry)
    → find_asset asset_id (assign_asset new es)
      ≡ (if new.asset_id == asset_id then some new.value else find_asset asset_id es)
unfolding find_asset assign_asset
find-assign asset_id new [] = refl
find-assign asset_id new (e ∷ es) = ground (
  arith,
  eq_iff e.asset_id new.asset_id,
  eq_iff e.asset_id asset_id,
  eq_iff new.asset_id asset_id,
  find-assign asset_id new es,
)

raise_if-Preserves :
    (asset_id : String) (test : Bool) (e : AssetError)
    → Preserves (IsGone asset_id) (raise_if test e)
raise_if-Preserves asset_id true e w gone = gone
raise_if-Preserves asset_id false e w gone = gone

module _ (f : FileSystem) (s : Settings) (asset_id : String) where
  abbrev Keeps : {A : Type 0} → Action A → Type 0
  Keeps call = Preserves (IsGone asset_id) call

  write_file-Keeps : (path : String) (content : List ℕ) → Keeps (write_file f path content)
  unfolding write_file fill_file abandon
  write_file-Keeps path content w gone = ground (arith, gone)

  keep_record-Keeps :
      (id : String) (r : AssetRecord) → (id == asset_id) ≡ false → Keeps (keep_record f id r)
  unfolding keep_record
  keep_record-Keeps id r other w gone =
      find-assign asset_id (record { asset_id = id; value = r }) w.records
      ∙ ground (arith, other, gone)

  put-Keeps :
      (purged_at stored_at : ℕ) (token tenant_id : String) (content : List ℕ)
      (filename declared_mime : Option String)
      → (id_of f token == asset_id) ≡ false
      → Keeps (put f s purged_at stored_at token tenant_id content filename declared_mime)
  unfolding put
  put-Keeps purged_at stored_at token tenant_id content filename declared_mime other =
      let path = concat (id_of f token) ".bin" in
      let keeping : String → Action String = λ p.
        keep_record f (id_of f token)
          (record_of f tenant_id p filename declared_mime (stored_at + s.ttl_seconds)) in
      let written = write_file f path content >>= keeping in
      let named = raise_if (unsafe f filename) unsafe_filename >> written in
      let sized = raise_if (ltb s.max_bytes (length content)) too_large >> named in
      Preserves-then (IsGone asset_id) (purge_expired f purged_at)
        (validate_tenant_id tenant_id >> sized) (purge_expired-Preserves f asset_id purged_at)
        (Preserves-then (IsGone asset_id) (validate_tenant_id tenant_id) sized
          (raise_if-Preserves asset_id (not (tenant_accepted tenant_id)) invalid_tenant)
          (Preserves-then (IsGone asset_id) (raise_if (ltb s.max_bytes (length content)) too_large)
            named (raise_if-Preserves asset_id (ltb s.max_bytes (length content)) too_large)
            (Preserves-then (IsGone asset_id) (raise_if (unsafe f filename) unsafe_filename) written
              (raise_if-Preserves asset_id (unsafe f filename) unsafe_filename)
              (Preserves-bind (IsGone asset_id) (write_file f path content) keeping
                (write_file-Keeps path content)
                (λ p.
                  keep_record-Keeps (id_of f token)
                    (record_of f tenant_id p filename declared_mime (stored_at + s.ttl_seconds))
                    other)))))

  read_result-Keeps : (path : String) (found : Option (List ℕ)) → Keeps (read_result f path found)
  unfolding read_result unlink_read
  read_result-Keeps path none w gone = gone
  read_result-Keeps path (some content) w gone = ground (arith, gone)

  take_file-Keeps : (path : String) → Keeps (take_file f path)
  unfolding take_file
  take_file-Keeps path w gone = read_result-Keeps path (f.read_bytes path w.calls) _ gone

  take_record-Keeps : (id : String) (found : Option AssetRecord) → Keeps (take_record f s id found)
  unfolding take_record
  take_record-Keeps id none = λ w gone. gone
  take_record-Keeps id (some r) =
      let last : List ℕ → Action ConsumedAsset = λ content.
        raise_if (ltb s.max_bytes (length content)) too_large >> pure (asset_of f r content) in
      let forgotten : List ℕ → Action ConsumedAsset = λ content. forget id >> last content in
      Preserves-bind (IsGone asset_id) (take_file f r.path)
        (λ content. check_gone f r.path not_verified >> forgotten content) (take_file-Keeps r.path)
        λ content.
          Preserves-then (IsGone asset_id) (check_gone f r.path not_verified) (forgotten content)
            (check_gone-Preserves f asset_id r.path not_verified)
            (Preserves-then (IsGone asset_id) (forget id) (last content)
              (forget-Preserves asset_id id)
              (Preserves-then (IsGone asset_id)
                (raise_if (ltb s.max_bytes (length content)) too_large)
                (pure (asset_of f r content))
                (raise_if-Preserves asset_id (ltb s.max_bytes (length content)) too_large)
                (λ w gone. gone)))

  consume-Keeps : (now : ℕ) (id tenant_id : String) → Keeps (consume f s now id tenant_id)
  unfolding consume take_asset
  consume-Keeps now id tenant_id =
      let taking = take_asset f s id tenant_id in
      Preserves-then (IsGone asset_id) (purge_expired f now)
        (validate_tenant_id tenant_id >> taking) (purge_expired-Preserves f asset_id now)
        (Preserves-then (IsGone asset_id) (validate_tenant_id tenant_id) taking
          (raise_if-Preserves asset_id (not (tenant_accepted tenant_id)) invalid_tenant)
          (λ w. take_record-Keeps id (owned f tenant_id (find_asset id w.records)) w))

  drop_record-Keeps : (id : String) (found : Option AssetRecord) → Keeps (drop_record f id found)
  unfolding drop_record
  drop_record-Keeps id none = λ w gone. gone
  drop_record-Keeps id (some r) =
      let last : Action Bool = forget id >> pure true in
      Preserves-then (IsGone asset_id) (delete_file f r.path not_deleted)
        (check_gone f r.path not_verified >> last)
        (delete_file-Preserves f asset_id r.path not_deleted)
        (Preserves-then (IsGone asset_id) (check_gone f r.path not_verified) last
          (check_gone-Preserves f asset_id r.path not_verified)
          (Preserves-then (IsGone asset_id) (forget id) (pure true) (forget-Preserves asset_id id)
            (λ w gone. gone)))

  delete-Keeps : (now : ℕ) (id tenant_id : String) → Keeps (delete f now id tenant_id)
  unfolding delete drop_asset
  delete-Keeps now id tenant_id =
      let dropping = drop_asset f id tenant_id in
      Preserves-then (IsGone asset_id) (purge_expired f now)
        (validate_tenant_id tenant_id >> dropping) (purge_expired-Preserves f asset_id now)
        (Preserves-then (IsGone asset_id) (validate_tenant_id tenant_id) dropping
          (raise_if-Preserves asset_id (not (tenant_accepted tenant_id)) invalid_tenant)
          (λ w. drop_record-Keeps id (owned f tenant_id (find_asset id w.records)) w))

  delete_files-Keeps : (es : List AssetEntry) → Keeps (delete_files f es)
  unfolding delete_files
  delete_files-Keeps [] = λ w gone. gone
  delete_files-Keeps (e ∷ es) =
      let rest = delete_files f es in
      Preserves-then (IsGone asset_id) (delete_file f e.value.path shutdown_failed)
        (check_gone f e.value.path shutdown_not_verified >> rest)
        (delete_file-Preserves f asset_id e.value.path shutdown_failed)
        (Preserves-then (IsGone asset_id) (check_gone f e.value.path shutdown_not_verified) rest
          (check_gone-Preserves f asset_id e.value.path shutdown_not_verified)
          (delete_files-Keeps es))

  forget_all-Keeps : Keeps (forget_all f)
  unfolding forget_all find_asset
  forget_all-Keeps w gone = refl

  clear-Keeps : Keeps (clear f)
  unfolding clear
  clear-Keeps w =
      Preserves-then (IsGone asset_id) (delete_files f w.records) (forget_all f)
        (delete_files-Keeps w.records) forget_all-Keeps w

-- A call of the store, with the readings of its clock; a put with the token that it draws.
pub data Call : Type 0 where
  puts : ℕ → ℕ → String → String → List ℕ → Option String → Option String → Call
  consumes : ℕ → String → String → Call
  deletes : ℕ → String → String → Call
  purges : ℕ → Call
  clears : Call

module _ (f : FileSystem) (s : Settings) where
  -- The state that a call leaves, whether it returns or raises.
  pub after_call : Call → World → World
  after_call (puts purged stored token tenant_id content filename mime) w =
      (put f s purged stored token tenant_id content filename mime w).1
  after_call (consumes now id tenant_id) w = (consume f s now id tenant_id w).1
  after_call (deletes now id tenant_id) w = (delete f now id tenant_id w).1
  after_call (purges now) w = (purge_expired f now w).1
  after_call clears w = (clear f w).1

  pub after_calls : List Call → World → World
  after_calls [] w = w
  after_calls (c ∷ cs) w = after_calls cs (after_call c w)

  -- A put that draws the token of an asset.
  abbrev pub draws : String → Call → Bool
  draws asset_id (puts _ _ token _ _ _ _) = id_of f token == asset_id
  draws asset_id _ = false

  after_call-IsGone :
      (asset_id : String) (c : Call) (w : World)
      → draws asset_id c ≡ false
      → IsGone asset_id w
      → IsGone asset_id (after_call c w)
  unfolding after_call
  after_call-IsGone asset_id (puts purged stored token tenant_id content filename mime) w h gone =
      put-Keeps f s asset_id purged stored token tenant_id content filename mime h w gone
  after_call-IsGone asset_id (consumes now id tenant_id) w h gone =
      consume-Keeps f s asset_id now id tenant_id w gone
  after_call-IsGone asset_id (deletes now id tenant_id) w h gone =
      delete-Keeps f s asset_id now id tenant_id w gone
  after_call-IsGone asset_id (purges now) w h gone = purge_expired-Preserves f asset_id now w gone
  after_call-IsGone asset_id clears w h gone = clear-Keeps f s asset_id w gone

  after_calls-IsGone :
      (asset_id : String) (cs : List Call) (w : World)
      → any (draws asset_id) cs ≡ false
      → IsGone asset_id w
      → IsGone asset_id (after_calls cs w)
  unfolding after_calls
  after_calls-IsGone asset_id [] w h gone = gone
  after_calls-IsGone asset_id (c ∷ cs) w h gone =
      after_calls-IsGone asset_id cs (after_call c w) (ground (arith, h))
        (after_call-IsGone asset_id c w (ground (arith, h)) gone)

  -- Once an asset was consumed, no consumption of it returns, by any tenant and at any time, after any
  -- calls of the store that do not draw its token again.
  pub consume_once :
      (now later : ℕ) (asset_id tenant_id other : String) (w w' : World) (a b : ConsumedAsset)
      (cs : List Call)
      → consume f s now asset_id tenant_id w ≡ (ok a, w')
      → any (draws asset_id) cs ≡ false
      → (consume f s later asset_id other (after_calls cs w')).0 ≢ ok b
  consume_once now later asset_id tenant_id other w w' a b cs first fresh second =
      let gone = (consume-Consumed f s now asset_id tenant_id w w' a first).gone in
      let again = consume f s later asset_id other (after_calls cs w') in
      let found =
        consume-Consumed f s later asset_id other (after_calls cs w') again.1 b
          (ap (λ r. (r, again.1)) second) in
      cc (sym (after_calls-IsGone asset_id cs w' fresh gone) ∙ found.found)
