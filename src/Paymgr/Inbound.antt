-- ===== src/Paymgr/Inbound.antt =====
-- Receiving through one inbound channel: Receive of paymgr/paymentmgr_impl.go. The voucher is
-- checked under a read lock and once more under the write lock, which is kept until commit or revert.
use fcr.Base.{
  nat_key, ◌>>=◌, ◌>>◌, String, ℕ, Result, fail_if, ok, Option, some, none, err, panic, ◌+◌, not,
  nat_eq, if◌then◌else◌, leb, text_key,
}
use fcr.Paymgr.Types.{Transactor, VoucherInfo, u64}
use fcr.Base.Int.{ℤ, ltb_ℤ, ◌-ℤ◌}
use fcr.Paychstate.{State}
use fcr.Base.Nested.{Nested, find_channel, peer_map, set_channel}
use fcr.Base.Map.{lookup}

-- How Receive ends on a channel: with the gross amount and the state that commit writes, or refused,
-- with the recorded voucher that goes back to the payer as
-- proof of network loss, or none (""). The text of the error is left out.
pub data Receipt : Type 0 where
  accepted : ℤ → State → Receipt
  refused : String → Receipt
  crashed : Receipt

-- The balance to check a voucher against: the recorded one, or the chain's where that is not enough.
unfoldable pub covering_balance : Transactor → ℕ → VoucherInfo → State → Result ℤ
covering_balance chain cur v s =
    if ltb_ℤ (s.balance) (v.redeemed)
    then (do
      c ← chain.check cur (v.channel)
      fail_if (ltb_ℤ (c.balance) (v.redeemed))
          "invalid voucher received, redeemed is larger than balance"
      ok (c.balance))
    else ok (s.balance)

-- The provisional check; none where it passes.
unfoldable pub receive_check : Transactor → ℕ → VoucherInfo → State → Option Receipt
receive_check chain cur v s =
    if leb (v.nonce) (s.nonce)
    then some (refused (s.voucher))
    else if ltb_ℤ (v.redeemed) (s.redeemed)
    then some (refused (s.voucher))
    else elim (covering_balance chain cur v s) [
      | ok b ↦ none
      | err e ↦ some (refused "")
      | panic ↦ some crashed
    ]

-- The state that commit writes.
unfoldable pub received_state : State → String → VoucherInfo → ℤ → State
received_state s voucher v balance = record s {
  balance = balance;
  redeemed = v.redeemed;
  nonce = v.nonce;
  voucher = voucher;
  state_nonce = u64 (s.state_nonce + 1);
}

-- The part under the write lock.
unfoldable pub receive_attempt : Transactor → ℕ → String → VoucherInfo → State → Receipt
receive_attempt chain cur voucher v s =
    if leb (v.nonce) (s.nonce)
    then refused (s.voucher)
    else if ltb_ℤ (v.redeemed) (s.redeemed)
    then refused ""
    else elim (covering_balance chain cur v s) [
      | ok b ↦ accepted (v.redeemed -ℤ s.redeemed) (received_state s voucher v b)
      | err e ↦ refused ""
      | panic ↦ crashed
    ]

-- Receive on the inbound half of `active`, from the read lock (`seen`) to the write lock (`m`). The
-- write lock's state comes from the sender's map of channels, which is held all along.
unfoldable pub receive :
    Transactor → Transactor → ℕ → String → Nested State → Nested State → Receipt
receive chain chain' cur voucher seen m = elim (chain.verify_voucher cur voucher) [
  | err e ↦ refused ""
  | panic ↦ crashed
  | ok v ↦
      if not (nat_eq (v.lane) 0)
      then refused ""
      else elim (find_channel cur (v.sender) (v.channel) seen) [
        | err e ↦ refused ""
        | panic ↦ crashed
        | ok s ↦ elim (receive_check chain cur v s) [
          | some r ↦ r
          | none ↦ elim (lookup (v.channel) (peer_map cur (v.sender) m)) [
            | none ↦ crashed
            | some s' ↦ receive_attempt chain' cur voucher v s'
          ]
        ]
      ]
]

-- The function that Receive returns to commit; its revert only gives the lock back.
abbrev receive_commit : ℕ → VoucherInfo → State → Nested State → Nested State
receive_commit cur v s m = set_channel cur (v.sender) (v.channel) s m
