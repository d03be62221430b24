-- ===== src/Paymgr.antt =====
-- The payment manager, paymgr/.
pub mod Price
pub mod Types
pub mod Expiry
pub mod Outbound
pub mod Reserve
pub mod Inbound
pub mod Channels
pub mod Coverage
pub mod Relay
pub mod Apart
pub mod Reserving
pub mod Receiving
pub mod Sound
pub mod Examples
