-- ===== src/Transaction.antt =====
-- The gateway's transaction for one Responses request (media_bridge_gateway/transaction.py), with its
-- contracts (media_bridge_gateway/contracts.py): `Contracts` has the records, `Payload` what is sent to
-- the provider, `Seal` the checks before it, and `Invoke` the order of all. The other children prove.
pub mod Contracts
pub mod Payload
pub mod Seal
pub mod Invoke
pub mod Ready
pub mod Keeps
pub mod Sealing
pub mod Sent
pub mod Kept
pub mod Stored
