-- ===== src/Evm/Recovered.antt =====
-- What `recover_txid` of ethereum.rs credits, and for whom.
use crypto_payment_detector.Base.{◌≡◌, true, Option, some}
use crypto_payment_detector.Base.Text.{Text, trim, same}
use crypto_payment_detector.Base.Float.{Float}
use crypto_payment_detector.Types.Recover.{RecoverStatus, RecoverResponse, new_response}
use crypto_payment_detector.EvmPool.{EthereumReservation}
use crypto_payment_detector.Evm.Chain.{Ethers}
use crypto_payment_detector.Evm.State.{EthereumDetector, World, Machine}
use crypto_payment_detector.Evm.Passive.{Passive}
use crypto_payment_detector.Evm.Claims.{Answers}

module _ {F : Type 0} (fl : Float F) (eth : Ethers F) (w : World F) (d : EthereumDetector F) where
  module _ (user txid canonical id : Text) (m : Machine F) where
    abbrev mk : RecoverStatus → RecoverResponse F
    mk = new_response d.config.chain canonical id

    abbrev Fine : RecoverResponse F → Machine F → Type 0
    Fine r n = Answers fl eth w d user txid r.status m n

  module _ (raw_txid raw_user : Text) where
    abbrev user : Text
    user = trim (trim raw_user)

    -- The assignment that the search finds is the user's.
    abbrev Users : Option EthereumReservation → Type 0
    Users found = (r : EthereumReservation) → found ≡ some r → same r.user_id user ≡ true

    module _ (m : Machine F) where
      abbrev Right : RecoverResponse F → Machine F → Type 0
      Right r n = Answers fl eth w d user (trim raw_txid) r.status m n
