-- ===== src/Paymgr/Receiving.antt =====
-- Receive of paymgr/paymentmgr_impl.go: what an accepted voucher changes, and that a voucher of
-- Pay's is accepted by the peer that it is for.
use fcr.Base.{
  arith, ℕ, ◌≡◌, ok, inl, Result-cases, inr, ok-injective, String, ◌<◌, ◌≤◌, some, ◌+◌, ◌^◌, none,
  dec_le, false, ap, refl, ◌∙◌, leb,
}
use fcr.Paymgr.Types.{Transactor, VoucherInfo, Time, CachedPaychState}
use fcr.Paychstate.{State}
use fcr.Base.Int.{ℤ, ◌≤ℤ◌, lt-cases, ◌+ℤ◌, pos, ◌-ℤ◌, int_laws, ltb_ℤ, le→ltb}
use fcr.Paymgr.Inbound.{
  covering_balance, receive_attempt, received_state, receive_check, accepted, refused, Receipt,
}
use fcr.Paymgr.Outbound.{Payment, Pending, pay_attempt, pay_commit, paid_state}
use fcr.Paymgr.Sound.{IsSound}
use fcr.Paymgr.Expiry.{release_expired_amount}
use fcr.Paymgr.Sound.Pay.{pay_attempt-Paid, pay_commit-IsSound}
use fcr.Paymgr.Sound.Release.{reserved-nonneg}

covering_balance-covers :
    (chain : Transactor) (cur : ℕ) (v : VoucherInfo) (s : State) {b : ℤ}
    → covering_balance chain cur v s ≡ ok b
    → v.redeemed ≤ℤ b
unfolding covering_balance
covering_balance-covers chain cur v s e = elim (lt-cases s.balance v.redeemed) [
  | inl (short, l) ↦ elim (Result-cases (chain.check cur v.channel)) [
    | inl (c, q) ↦ elim (lt-cases c.balance v.redeemed) [
      | inl (still, k) ↦ absurd (cc (rw (short, q, still) at e))
      | inr (covers, k) ↦ rw (← ok-injective (rw (short, q, covers) at e)) k
    ]
    | inr bad ↦ absurd (ground arith)
  ]
  | inr (enough, l) ↦ rw (← ok-injective (rw enough at e)) l
]

abbrev gross_of : Receipt → ℤ → ℤ
gross_of (accepted g s) d = g
gross_of _ d = d

abbrev state_of : Receipt → State → State
state_of (accepted g s) d = s
state_of _ d = d

-- An accepted voucher has a higher nonce than the last one; the new state redeems what it says, which
-- is no less than before and is covered by the new balance, and the gross amount is the difference.
receive_attempt_accepted :
    (chain : Transactor) (cur : ℕ) (voucher : String) (v : VoucherInfo) (s : State) {gross : ℤ}
    {s' : State}
    → receive_attempt chain cur voucher v s ≡ accepted gross s'
    → (s.nonce < s'.nonce)
      × (s'.redeemed ≡ s.redeemed +ℤ gross)
      × (pos 0 ≤ℤ gross)
      × (s'.redeemed ≤ℤ s'.balance)
      × (s'.voucher ≡ voucher)
unfolding receive_attempt received_state
receive_attempt_accepted chain cur voucher v s {gross} {s'} e = elim (dec_le v.nonce s.nonce) [
  | yes stale ↦ absurd (ground arith)
  | no new ↦ elim (lt-cases v.redeemed s.redeemed) [
    | inl (less, l) ↦ absurd (ground arith)
    | inr (more, m) ↦ elim (Result-cases (covering_balance chain cur v s)) [
      | inl (b, q) ↦
          let fresh : leb v.nonce s.nonce ≡ false = ground arith in
          let e' = rw (fresh, more, q) at e in
          let covers = covering_balance-covers chain cur v s q in
          rw (← ap (λ r. gross_of r gross) e', ← ap (λ r. state_of r s') e')
            (omega arith, omega int_laws, omega int_laws, covers, refl)
      | inr bad ↦ absurd (ground arith)
    ]
  ]
]

-- A voucher whose nonce is not new changes nothing and is answered with the voucher on record, at the
-- first check and at the second.
pub stale_voucher_refused :
    (chain : Transactor) (cur : ℕ) (voucher : String) (v : VoucherInfo) (s : State)
    → v.nonce ≤ s.nonce
    → (receive_check chain cur v s ≡ some (refused s.voucher))
      × (receive_attempt chain cur voucher v s ≡ refused s.voucher)
unfolding receive_check receive_attempt
stale_voucher_refused chain cur voucher v s h = (ground arith, ground arith)

-- The payer's side of a channel and the payee's, after the same payments.
pub record InSync (payer payee : State) : Type 0 where
  pub redeemed : payee.redeemed ≡ payer.redeemed
  pub nonce : payee.nonce ≡ payer.nonce
  pub balance : payer.balance ≤ℤ payee.balance

-- If both sides are in step, the payer's channel is sound and can count one payment more, the payment
-- does not lower what is redeemed, and the voucher reads as what was signed, then the payee accepts the payer's voucher for the same gross
-- amount at both checks, and both sides are in step once both commit.
pub voucher_accepted :
    (chain chain' : Transactor) (cleaned now : Time) (p : Payment) (cs : CachedPaychState)
    (s : State) {w : Pending} (v : VoucherInfo)
    → IsSound cs
    → (pay_attempt chain cleaned now p cs).1 ≡ ok w
    → InSync cs.state s
    → cs.state.nonce + 1 < 2 ^ 64
    → cs.state.redeemed ≤ℤ w.state.redeemed
    → v.nonce ≡ w.state.nonce
    → v.redeemed ≡ w.state.redeemed
    → (receive_check chain' p.currency_id v s ≡ none)
      × (receive_attempt chain' p.currency_id w.voucher v s
          ≡ accepted
              (w.state.redeemed -ℤ cs.state.redeemed)
              (received_state s w.voucher v s.balance))
      × InSync w.state (received_state s w.voucher v s.balance)
unfolding receive_check receive_attempt received_state covering_balance pay_commit paid_state
    release_expired_amount
voucher_accepted chain chain' cleaned now p cs s {w} v h e sync small grows n r =
    let (fine, same, d) = pay_attempt-Paid chain cleaned now p cs e in
    let kept = pay_commit-IsSound chain cleaned now (pos 0) p cs h e in
    let covered : w.state.redeemed ≤ℤ w.state.balance =
      omega (int_laws, kept.solvent, reserved-nonneg _ kept) in
    let balance : w.state.balance ≡ cs.state.balance = ap (λ t. t.balance) d.new_state in
    let nonce : w.state.nonce ≡ cs.state.nonce + 1 = ap (λ t. t.nonce) d.new_state ∙ omega arith in
    let fits : v.redeemed ≤ℤ s.balance =
      rw r (omega (int_laws, rw balance at covered, sync.balance)) in
    let new : leb v.nonce s.nonce ≡ false = ground (arith, sync.nonce, nonce) in
    let more : ltb_ℤ v.redeemed s.redeemed ≡ false =
      le→ltb v.redeemed s.redeemed (rw (r, sync.redeemed) grows) in
    let enough : ltb_ℤ s.balance v.redeemed ≡ false = le→ltb s.balance v.redeemed fits in
    (
      rw (new, more, enough),
      rw (new, more, enough, r, sync.redeemed),
      record { redeemed = r; nonce = n; balance = rw balance sync.balance },
    )
