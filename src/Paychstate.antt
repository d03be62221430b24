-- ===== src/Paychstate.antt =====
-- The state of one payment channel, paychstate/state.go.
use fcr.Base.{ℕ, String}
use fcr.Base.Int.{ℤ}

pub record State : Type 0 where
  pub currency_id : ℕ
  pub from_addr : String
  pub to_addr : String
  pub ch_addr : String
  pub balance : ℤ
  pub redeemed : ℤ
  pub nonce : ℕ
  pub voucher : String
  pub network_loss_voucher : String
  pub state_nonce : ℕ
