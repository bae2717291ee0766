-- ===== src/Types/Recover.antt =====
-- The answers of recover.rs.
use crypto_payment_detector.Base.{Option, none, some}
use crypto_payment_detector.Base.Text.{Text}
use crypto_payment_detector.Types.Chains.{Chain}

pub data RecoverStatus : Type 0 where
  was_credited already_credited pending_sweep : RecoverStatus
  address_not_owned wrong_user tx_not_found no_credit_amount : RecoverStatus

pub record RecoverResponse (F : Type 0) : Type 0 where
  pub chain : Chain
  pub status : RecoverStatus
  pub txid : Text
  pub user_id : Text
  pub asset : Option Text
  pub amount_coin : Option F

module _ {F : Type 0} where
  -- `RecoverResponse::new`
  abbrev pub new_response : Chain → Text → Text → RecoverStatus → RecoverResponse F
  new_response chain txid user_id status = record {
    chain = chain;
    status = status;
    txid = txid;
    user_id = user_id;
    asset = none;
    amount_coin = none;
  }

  abbrev pub with_asset : RecoverResponse F → Text → F → RecoverResponse F
  with_asset r asset amount_coin = record r { asset = some asset; amount_coin = some amount_coin }
