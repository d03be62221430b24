-- ===== src/Paymgr/Sound.antt =====
-- The invariant of an outbound channel of the payment manager, and what keeps it: the writes of
-- paymgr/paymentmgr_impl.go and paymgr/utils.go to a cached channel state.
pub mod Release
pub mod Reserve
pub mod Pending
pub mod Pay
pub mod History
pub mod Manager
use fcr.Base.{nat_key, ℕ, ◌≤◌, ◌<◌, ◌+◌, ◌^◌, ◌≡◌, arith, none, some, true, []}
use fcr.Base.Int.{ℤ, pos, ◌+ℤ◌, ◌≤ℤ◌, int_laws}
use fcr.Base.Map.{Map, lookup}
use fcr.Base.Sum.{total, All, Distinct}
use fcr.Paymgr.Types.{Reservation, CachedPaychState}
use fcr.Paymgr.Outbound.{has_loss}

abbrev pub remain_of : Reservation → ℤ
remain_of r = r.remain

abbrev pub IsFilled : ℕ → ℕ → Reservation → Type 0
IsFilled n id r = (id ≤ n) × (pos 0 ≤ℤ r.remain)

-- What is reserved is the sum of what the reservations have left, and is covered, with what is spent,
-- by the balance. Ids are distinct and not above the nonce. While network loss stands, nothing is
-- reserved.
pub record IsSound (cs : CachedPaychState) : Type 0 where
  pub reserved : cs.reserved_amt ≡ total remain_of cs.reservations
  pub filled : All (IsFilled cs.reserved_nonce) cs.reservations
  pub distinct : Distinct cs.reservations
  pub solvent : cs.reserved_amt +ℤ cs.state.redeemed ≤ℤ cs.state.balance
  pub lost : has_loss cs.state ≡ true → cs.reservations ≡ []
