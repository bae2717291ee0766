-- ===== src/Evm.antt =====
-- ethereum.rs: the detector of Ethereum and Base.
pub mod Chain
pub mod State
pub mod Cursors
pub mod Events
pub mod Receipts
pub mod Scan
pub mod Tokens
pub mod Loop
pub mod Known
pub mod Still
pub mod View
pub mod Native
pub mod Reached
pub mod Complete
pub mod Sources
pub mod Rounds
pub mod Amounts
pub mod Sweep
pub mod Tank
pub mod Announce
pub mod Credit
pub mod Walk
pub mod TokenWalk
pub mod Upkeep
pub mod Transfers
pub mod Quiet
pub mod Once
pub mod Steps
pub mod Settled
pub mod Cycle
pub mod RecoverPayment
pub mod Recover
pub mod Passive
pub mod Claims
pub mod Paid
pub mod Recovered
pub mod Requests
pub mod Failover
