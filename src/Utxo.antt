-- ===== src/Utxo.antt =====
-- blockstream.rs: the Bitcoin and Litecoin detector.
pub mod State
pub mod Outbox
pub mod Credit
pub mod Quiet
pub mod Progress
pub mod Once
pub mod Cycle
pub mod Process
pub mod Enqueue
pub mod Merge
pub mod Aggregate
pub mod Explorers
pub mod Block
pub mod Scan
pub mod Reorg
pub mod Requests
pub mod Credited
pub mod Addresses
pub mod Retry
pub mod Urls
pub mod Run
