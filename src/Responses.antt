-- ===== src/Responses.antt =====
-- OpenAI Responses requests, normalized to the gate's contracts (media_bridge/openai_responses.py):
-- `References` finds media in JSON, `Parts` reads one user message, `Select` picks the current one,
-- and `Normalize` has the whole. The other children prove.
pub mod References
pub mod Parts
pub mod Select
pub mod Normalize
pub mod Locators
pub mod Nested
pub mod Accepted
pub mod Sources
