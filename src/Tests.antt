-- ===== src/Tests.antt =====
-- Concrete inputs: the theorems applied to them, and runs of the code.
mod Sample
mod AssetRuns
mod AuthRuns
mod ChatRuns
mod GateRuns
mod FollowUpRuns
mod HopsRuns
mod InteropRuns
mod IdempotencyRuns
mod RateLimitRuns
mod ReasoningRuns
mod ResponsesRuns
mod StateRuns
mod TransactionRuns
