-- ===== src/Evm/Cycle.antt =====
-- One cycle of ethereum.rs: credits, scan, credits, upkeep of the gas tank.
use crypto_payment_detector.Base.{◌-◌, true, max}
use crypto_payment_detector.Base.Float.{Float}
use crypto_payment_detector.Error.Exec.{pure, lift, attempt, ◌>>=◌, ◌>>◌}
use crypto_payment_detector.Evm.Chain.{Ethers}
use crypto_payment_detector.Evm.State.{EthereumDetector, World, Action}
use crypto_payment_detector.Evm.Events.{request}
use crypto_payment_detector.Evm.Loop.{scan_new_blocks}
use crypto_payment_detector.Evm.Tank.{maybe_maintain_gas_tank}
use crypto_payment_detector.Evm.Credit.{process_credits}

-- Outside the two locks other tasks do as they like.
unfoldable pub process_cycle :
    {F : Type 0} → Float F → Ethers F → World F → EthereumDetector F → Action F (Unit {0})
unfolding request process_credits scan_new_blocks maybe_maintain_gas_tank
process_cycle fl eth w d = do
  current_block ← request eth w (λ o. true) w.block_number_answer
  process_credits fl eth w d current_block
  reservations ← request eth w (λ o. true) w.reservations_answer
  let safe_block = current_block - (max d.config.min_confirmations 1 - 1)
  scan_result ← attempt (scan_new_blocks eth w d reservations safe_block)
  process_credits fl eth w d current_block
  attempt (maybe_maintain_gas_tank fl eth w d (λ o. true)) >>= λ r. pure tt
  lift scan_result
