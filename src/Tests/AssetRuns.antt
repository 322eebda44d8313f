-- ===== src/Tests/AssetRuns.antt =====
-- One asset that is consumed.
use media_bridge.Base.{true, false, none, some, [], ◌∷◌, ◌≡◌, ◌≢◌, refl}
use media_bridge.Base.{ok}
use media_bridge.State.Identifiers.{tenant_accepted}
use media_bridge.Assets.{
  ConsumedAsset, FileSystem, Settings, World, looked, unlinked, read, find_asset, remove_asset,
  forget, check_gone, purge_entries, purge_expired, unlink_read, read_result, take_file,
  take_record, take_asset, consume,
}
use media_bridge.Assets.Consumed.{Consumed, consume-Consumed}
use media_bridge.Assets.Once.{after_calls, purges, consumes, puts, consume_once}

program : Unit {0}
unfolding tenant_accepted find_asset remove_asset forget check_gone purge_entries purge_expired
    unlink_read read_result take_file take_record take_asset consume
program = tt

abbrev files : FileSystem
files = record {
  open_new = λ path h. true;
  write_bytes = λ path content h. true;
  read_bytes = λ path h. some (1 ∷ 2 ∷ []);
  unlink = λ path h. true;
  unlink_missing_ok = λ path h. true;
  is_there = λ path h. false;
  base_name = λ name. name;
}

abbrev settings : Settings
settings = record { max_bytes = 10; ttl_seconds = 60 }

abbrev start : World
start = record {
  records =
      record {
        asset_id = "mb_x";
        value = record {
          tenant_id = "t";
          path = "mb_x.bin";
          filename = none;
          declared_mime = none;
          expires_at = 100;
        };
      }
      ∷ [];
  calls = [];
}

abbrev after : World
after = record {
  records = [];
  calls = looked "mb_x.bin" ∷ unlinked "mb_x.bin" ∷ read "mb_x.bin" ∷ [];
}

abbrev asset : ConsumedAsset
asset = record { content = 1 ∷ 2 ∷ []; filename = none; declared_mime = none }

run : consume files settings 50 "mb_x" "t" start ≡ (ok asset, after)
unfolding program
run = refl

consume-Consumed_example : Consumed files settings 50 "mb_x" "t" start after asset
consume-Consumed_example = consume-Consumed files settings 50 "mb_x" "t" start after asset run

consume_once_example :
    (consume files settings 70 "mb_x" "u" (
      after_calls files settings
        (puts 60 60 "y" "t" (3 ∷ []) none none ∷ purges 65 ∷ consumes 66 "mb_y" "t" ∷ [])
        after)).0
    ≢ ok asset
consume_once_example =
    consume_once files settings 50 70 "mb_x" "t" "u" start after asset asset
      (puts 60 60 "y" "t" (3 ∷ []) none none ∷ purges 65 ∷ consumes 66 "mb_y" "t" ∷ []) run refl
