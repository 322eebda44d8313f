-- ===== src/Interop/Wire.antt =====
-- `build_external_provider_messages` (media_bridge_gateway/hops.py).
use media_bridge.Base.{
  String, Bool, not, ◌||◌, List, [], ◌∷◌, any, contains, starts_with, string_eq, if◌then◌else◌,
}
use media_bridge.Base.{Result, ok, ◌>>=◌, ◌>>◌, raise_if}
use media_bridge.Json.{Fields, end, field, has_key}
use media_bridge.Interop.{InteropResult, provider_call_allowed}

-- A `HopGuardError`.
pub data WireError : Type 0 where
  not_authorized original_media : WireError

abbrev pub media_keys : List String
media_keys = "image" ∷ "image_url" ∷ "file_data" ∷ "asset_id" ∷ []

-- A key that stays inside the gateway.
abbrev pub is_internal : String → Bool
is_internal key =
    starts_with "_media_bridge" key
    || contains key ("provenance" ∷ "prepared_marker" ∷ "transformations" ∷ [])

-- The comprehension over a message's items.
unfoldable pub external_fields : Fields → Fields
external_fields end = end
external_fields (field key value fs) =
    let rest = external_fields fs in if is_internal key then rest else field key value rest

unfoldable pub external_messages : List Fields → Result WireError (List Fields)
external_messages [] = ok []
external_messages (message ∷ messages) = do
  raise_if (any (λ key. has_key key message) media_keys) original_media
  rest ← external_messages messages
  ok (external_fields message ∷ rest)

unfoldable pub build_external_provider_messages : InteropResult → Result WireError (List Fields)
build_external_provider_messages r = do
  raise_if (not (provider_call_allowed r)) not_authorized
  external_messages r.sanitized_messages
