-- ===== src/State/Identifiers.antt =====
-- The identifiers of tenants, responses, credentials and targets, by their patterns
-- (media_bridge/assets.py, media_bridge_gateway/state.py).
use media_bridge.Base.{
  String, Bool, ◌||◌, ◌==◌, number_eq, is_alnum, is_lower, is_digit, full_match, codes,
}

-- `^[A-Za-z0-9][A-Za-z0-9._-]{0,127}$`
unfoldable pub tenant_accepted : String → Bool
tenant_accepted s =
    full_match is_alnum (λ c. is_alnum c || c == b'.' || c == b'_' || c == b'-') 127 (codes s)

-- `^[A-Za-z0-9][A-Za-z0-9._:-]{0,127}$`
unfoldable pub response_id_accepted : String → Bool
response_id_accepted s =
    full_match is_alnum (λ c. is_alnum c || c == b'.' || c == b'_' || c == b':' || c == b'-') 127
      (codes s)

-- `^[a-z0-9][a-z0-9./:_-]{0,127}$`
unfoldable pub target_id_accepted : String → Bool
target_id_accepted s =
    full_match (λ c. is_lower c || is_digit c)
      (λ c.
        is_lower c || is_digit c || c == b'.' || c == b'/' || c == b':' || c == b'_' || c == b'-')
      127 (codes s)
