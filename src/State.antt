-- ===== src/State.antt =====
-- Bounded, expiring state for follow-up requests (media_bridge_gateway/state.py,
-- media_bridge/responses_state.py): `Entries` is the ordered dictionary of both stores, `Gateway` and
-- `Legacy`. Times are natural numbers of seconds.
pub mod Identifiers
pub mod Entries
pub mod Gateway
pub mod Legacy
pub mod Isolation
pub mod Retention
