-- ===== src/Paymgr/Types.antt =====
-- The cached state of a channel and its reservations, paymgr/types.go; the offers and the chain that
-- the payment manager is given, fcroffer/payoffer.go and trans/transactor.go.
use fcr.Base.{ℕ, String, Option, Result, ◌%◌, ◌^◌, List}
use fcr.Base.Int.{ℤ}
use fcr.Base.Map.{Map}
use fcr.Paychstate.{State}
use fcr.Paymgr.Price.{Rate}

-- time.Time and time.Duration, in nanoseconds; `pos 0` is the zero time.
abbrev pub Time : Type 0
Time = ℤ

-- uint64 arithmetic wraps around.
abbrev pub u64 : ℕ → ℕ
u64 n = n % 2 ^ 64

pub record PayOffer : Type 0 where
  pub currency_id : ℕ
  pub src_addr : String
  pub dest_addr : String
  pub ppp : ℤ
  pub period : ℤ
  pub amt : ℤ
  pub expiration : Time
  pub inactivity : Time
  pub res_to : String
  pub res_ch : String
  pub res_id : ℕ
  pub nonce : ℕ
  pub signature_type : ℕ
  pub signature : List ℕ

pub record Reservation : Type 0 where
  pub inbound : Rate
  pub petty_amt_received : ℤ
  pub surcharge_received : ℤ
  pub outbound : Rate
  pub petty_amt_paid : ℤ
  pub surcharge_paid : ℤ
  pub remain : ℤ
  pub last_accessed : Time
  pub expiration : Time
  pub inactivity : Time
  pub offer : Option PayOffer

pub record CachedPaychState : Type 0 where
  pub state : State
  pub reserved_amt : ℤ
  pub reserved_nonce : ℕ
  pub reservations : Map ℕ Reservation

-- What a voucher says: the results of VerifyVoucher.
pub record VoucherInfo : Type 0 where
  pub sender : String
  pub channel : String
  pub lane : ℕ
  pub nonce : ℕ
  pub redeemed : ℤ

-- What the chain says of a channel: the results of Check.
pub record ChainState : Type 0 where
  pub settling_at : ℤ
  pub min_settling_at : ℤ
  pub current_height : ℤ
  pub redeemed : ℤ
  pub balance : ℤ
  pub sender : String
  pub recipient : String

-- The transactor stands before a wallet and a chain. Its answers may differ from call to call, so an
-- operation that asks twice takes two of them.
pub record Transactor : Type 0 where
  pub generate_voucher : ℕ → String → ℕ → ℕ → ℤ → Result String
  pub verify_voucher : ℕ → String → Result VoucherInfo
  pub check : ℕ → String → Result ChainState
