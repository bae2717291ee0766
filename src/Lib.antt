-- ===== src/Lib.antt =====
-- A model of the payment detector: its Bitcoin and Litecoin side, and the detector and wallet
-- pool of its EVM side. The detector follows a chain block by block, finds payments to the
-- addresses it derives, keeps them in a durable outbox, announces each to the shop by a webhook,
-- sweeps the address, and credits the payment by a second webhook once it has its confirmations.
-- A reorganisation takes it back to the last common block.
--
-- Types models src/types.rs: the chains with their tables, and the payment, event and
-- configuration structs, with PersistedState of src/persistence.rs. Error/Defs is DetectorError
-- of src/error.rs, Error/Exec the way fallible methods run over a state, where what was written
-- before an error stays, and Error/Display what an error displays, and Error/Redact is
-- redact_urls of src/error.rs; its rounds are bounded by the length of the message, which is
-- enough since each takes a separator.
--
-- Webhook models send_webhook of src/webhook.rs, BitcoinSweep models sweep_address of
-- src/bitcoin_sweep.rs, and Utxo models ChainDetector of src/blockstream.rs: State has its
-- fields, Outbox has aggregate_utxo_payments, enqueue_or_confirm and persist_state, Credit has
-- maybe_sweep, process_pending_payment and process_confirmed, Explorers has try_explorers, Block
-- has the address lookup and scan_raw_block_parallel, and Scan has detect_reorg and the body of
-- run_block_scan_loop. Quiet, Progress, Once, Cycle, Process, Credited, Enqueue, Merge,
-- Aggregate, Reorg, Requests and Run are about these. Addresses compares its address table with
-- reverse_derive_address.
--
-- EvmPool models src/ethereum_pool.rs with the reservations in memory: the assignment of a
-- managed wallet to a user, the growth of the pool, and the release of a chain's reservations.
-- Its Store, Assign, Exclusive, Race and Release are about these; claim, grow_ethereum_pool and
-- give are the three parts of an assignment between which the source holds no lock.
--
-- Evm models EthereumDetector of src/ethereum.rs. Chain has what it reads of nodes, of Etherscan
-- and of its wallets, State its fields and its World, Cursors and Events the scan cursors and
-- the sets of events. Receipts has full_block, transaction_receipt and block_receipts, Scan
-- scan_native_eth, Tokens scan_erc20_logs, payment_from_log and scan_internal_calls, and Loop
-- scan_source and scan_new_blocks; the loop of scan_source runs on as many rounds as its range
-- has blocks, which is enough since each round takes one. Amounts has the fees, ratios and pegs,
-- Sweep the sweeps of one address, Tank maintain_gas_tank and sweep_orphan_balances, Announce
-- pending_to_webhook and enrich_fiat, Credit process_credits, and Cycle process_cycle.
-- RecoverPayment and Recover have recover_txid, with the answers of src/recover.rs in
-- Types/Recover and the search for the user's assignment of src/ethereum_pool.rs. Known, Still,
-- View, Native, Reached, Complete, Sources and Rounds are about the scan; Walk, TokenWalk,
-- Upkeep and Transfers about what is signed; Quiet, Steps, Once and Settled about the credits;
-- Passive, Claims, Paid and Recovered about the recovery. Requests has with_rpc_retry and
-- Failover read_rpc; an answer of the World is what these return.
--
-- LitecoinBlock models src/litecoin_block.rs over the bitcoin crate's decoders of single fields,
-- with the bytes that are left as its state, and LitecoinBlock/RoundTrip what it reads of what a
-- node writes.
--
-- Everything outside is a World: the answers of the webhook endpoint, the disk, the price
-- service and the explorers, numbered by a clock, and the payments that another task enqueues
-- while this one awaits. In World one request to an explorer stands for all its retries, which
-- Utxo/Retry models by themselves; Utxo/Urls models the explorer URLs. Credit cycles exclude
-- each other by credit_lock, so a cycle is one step of Reach, from the moment it holds the lock:
-- what other cycles and rollbacks do while it waits are steps before it. Enqueueing is not
-- excluded and may happen at every await. A recovery that changes active_explorer_index at an
-- await of the scan is not modelled, nor are a crash and a restart from the state file. In
-- ethereum.rs the scan holds scan_lock and the credit cycle credit_lock: at the awaits of a scan
-- other tasks enqueue, credit, ignore and remove events, at those of a credit cycle they enqueue
-- and move cursors; what else they write is not modelled. The EVM addresses, hashes and amounts
-- are numbers, their texts are the ethers crate's, and an amount that exceeds 256 bits, where
-- the source panics, is an error; so is the panic of a log line of the block loop that cuts a
-- hash after eight bytes (the model takes the line's level as enabled).
--
-- Texts are lists of code points. Machine integers are natural numbers below 2^64 with the wrap-
-- around of a release build written out; the values of f64 fields are an arbitrary type with the
-- operations that the source applies to them. Loops are structural: over lists, over the
-- attempts that are left, and down from a height; only redact_urls and the scan loop of
-- ethereum.rs run on fuel. Hash maps are association lists, sets are lists without duplicates.
--
-- Not modelled: HTTP, JSON and logging; key derivation, signatures and serialisation, which
-- belong to the bitcoin crate; sleeping; recover_txid of the UTXO detector, the loading of the
-- state file at start, the Redis reservations, the construction of the EVM clients, and the
-- Solana detector.
pub mod Base
pub mod Types
pub mod Error
pub mod BitcoinSweep
pub mod Webhook
pub mod Utxo
pub mod EvmPool
pub mod Evm
pub mod LitecoinBlock
mod Samples
mod Witnesses
mod EvmWitnesses
mod LitecoinWitnesses
mod EthereumSamples
mod EthereumWitnesses
