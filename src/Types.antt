-- ===== src/Types.antt =====
-- types.rs and the data of persistence.rs: chains, payments, configuration and persisted state.
pub mod Chains
pub mod Payments
pub mod Recover
