-- ===== src/Hops.antt =====
-- The hop budget of a request between gateways (media_bridge_gateway/hops.py), over `HopMetadata` of
-- media_bridge/contracts_v2.py.
pub mod Budget
use media_bridge.Base.{
  ℕ, String, Bool, ◌&&◌, List, [], ◌∷◌, ◌++◌, all, contains, length, leb, text_length, string_eq,
  if◌then◌else◌,
}
use media_bridge.Base.{Result, ok, err, ◌>>=◌, ◌>>◌, raise_if}

pub record HopMetadata : Type 0 where
  pub hop_id : String
  pub visited_gateways : List String
  pub max_hops : ℕ

-- A `HopGuardError` for a loop or for the limit, or a `ValidationError`.
pub data HopError : Type 0 where
  loop_detected limit_exceeded invalid : HopError

-- `OpaqueId`
abbrev opaque_id_accepted : String → Bool
opaque_id_accepted s = leb 1 (text_length s) && leb (text_length s) 256

-- The constraints of `HopMetadata`.
unfoldable pub hop_accepted : HopMetadata → Bool
hop_accepted h =
    opaque_id_accepted h.hop_id
    && (leb (length h.visited_gateways) 16
        && (all opaque_id_accepted h.visited_gateways && (leb 1 h.max_hops && leb h.max_hops 16)))

unfoldable pub make_hop : HopMetadata → Result HopError HopMetadata
make_hop h = if hop_accepted h then ok h else err invalid

abbrev pub visiting : HopMetadata → String → HopMetadata
visiting h gateway_id = record h { visited_gateways = h.visited_gateways ++ gateway_id ∷ [] }

-- `advance_hop`
unfoldable pub advance_hop : HopMetadata → String → Result HopError HopMetadata
advance_hop h gateway_id = do
  raise_if (contains gateway_id h.visited_gateways) loop_detected
  raise_if (leb h.max_hops (length h.visited_gateways)) limit_exceeded
  make_hop (visiting h gateway_id)
