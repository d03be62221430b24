-- ===== src/Paymgr/Sound/History.antt =====
-- Everything that happens to an outbound channel of paymgr/paymentmgr_impl.go, in any order.
use fcr.Base.{
  List, [], ◌∷◌, ◌≢◌, not, ◌&&◌, ◌||◌, ◌==◌, text_key, nat_key, Bool, ◌+◌, ◌<◌, ◌^◌, ◌≡◌, ok,
  String, ℕ, refl, Result-cases, inl, Bool-cases, inr, ok-injective, arith, ◌∙◌, ap,
}
use fcr.Paymgr.Sound.{IsSound, remain_of}
use fcr.Paymgr.Types.{CachedPaychState, Time, Reservation, Transactor, VoucherInfo}
use fcr.Base.Int.{ℤ, ltb_ℤ, pos, ◌≤ℤ◌, int_laws, ◌+ℤ◌, eqb_ℤ}
use fcr.Paymgr.Reserve.{try_reserve, add_reservation}
use fcr.Paymgr.Outbound.{
  Payment, Pending, pay_attempt, pay_commit, pay_revert, has_loss, paid_state, proves_loss,
}
use fcr.Paymgr.Expiry.{release_expired_amount, available}
use fcr.Paymgr.Channels.{update_balance, bear_loss, fresh_channel}
use fcr.Paymgr.Sound.Reserve.{try_reserve-IsSound}
use fcr.Paymgr.Sound.Pay.{
  pay_commit-IsSound, pay_attempt-IsSound, pay_revert-IsSound, pay_attempt-Paid,
}
use fcr.Paymgr.Sound.Release.{release-IsSound, reserved-nonneg}
use fcr.Paychstate.{State}
use fcr.Base.Sum.{total}

-- An amount is one of those that this side has signed a voucher for.
pub data Signed (a : ℤ) : List ℤ → Type 0 where
  newest : {l : List ℤ} → Signed a (a ∷ l)
  older : {b : ℤ} {l : List ℤ} → Signed a l → Signed a (b ∷ l)

-- Each step is one critical section under the channel's write lock, or Pay and the function that ends it; the
-- second state is with the amounts of the vouchers signed so far. Nothing is reserved below zero, and the
-- reservation ids do not wrap. The chain's balance does not fall while a channel is open. A voucher that
-- verifies as the proof of a network loss is one that this side has signed.
pub data Step (cs : CachedPaychState) (signed : List ℤ) : CachedPaychState → List ℤ → Type 0 where
  reserves :
      (taken : Bool) (now : Time) (r : Reservation)
      → pos 0 ≤ℤ r.remain
      → cs.reserved_nonce + 1 < 2 ^ 64
      → Step cs signed (try_reserve taken now r cs).0 signed
  pays :
      (chain : Transactor) (cleaned now t : Time) (p : Payment) (w : Pending)
      → (pay_attempt chain cleaned now p cs).1 ≡ ok w
      → Step cs signed
          (pay_commit p w t (pay_attempt chain cleaned now p cs).0)
          (w.state.redeemed ∷ signed)
  fails_to_pay :
      (chain : Transactor) (cleaned now : Time) (p : Payment)
      → ((w : Pending) → (pay_attempt chain cleaned now p cs).1 ≢ ok w)
      → Step cs signed (pay_attempt chain cleaned now p cs).0 signed
  reverts :
      (chain : Transactor) (cleaned now : Time) (p : Payment) (w : Pending) (loss : String)
      → (pay_attempt chain cleaned now p cs).1 ≡ ok w
      → Step cs signed
          (pay_revert chain p loss (pay_attempt chain cleaned now p cs).0)
          (w.state.redeemed ∷ signed)
  cleans : (now : Time) → Step cs signed (release_expired_amount now cs) signed
  tops_up :
      (chain : Transactor) (cur : ℕ) (ch : String) {cs' : CachedPaychState}
      → update_balance chain cur ch cs ≡ ok cs'
      → cs.state.balance ≤ℤ cs'.state.balance
      → Step cs signed cs' signed
  bears :
      (chain : Transactor) (cur : ℕ) {cs' : CachedPaychState}
      → bear_loss chain cur cs ≡ ok cs'
      → ((i : VoucherInfo)
          → chain.verify_voucher cur cs.state.network_loss_voucher ≡ ok i
          → Signed i.redeemed signed)
      → Step cs signed cs' signed

pub data Reach (start : CachedPaychState) : CachedPaychState → List ℤ → Type 0 where
  here : Reach start start []
  next :
      {cs cs' : CachedPaychState} {signed signed' : List ℤ}
      → Reach start cs signed
      → Step cs signed cs' signed'
      → Reach start cs' signed'

-- No voucher is for more than the balance.
abbrev Backed : ℤ → List ℤ → Type 0
Backed b signed = (a : ℤ) → Signed a signed → a ≤ℤ b

redeemed_covered : (cs : CachedPaychState) → IsSound cs → cs.state.redeemed ≤ℤ cs.state.balance
redeemed_covered cs h = let n = reserved-nonneg cs h in omega (int_laws, n, h.solvent)

Backed-grows : (a b : ℤ) {signed : List ℤ} → a ≤ℤ b → Backed a signed → Backed b signed
Backed-grows a b le h x m = let below = h x m in omega (arith, le, below)

Backed-signs : (b x : ℤ) (signed : List ℤ) → x ≤ℤ b → Backed b signed → Backed b (x ∷ signed)
Backed-signs b x signed le h a newest = le
Backed-signs b x signed le h a (older m) = h a m

-- Pay, its commit and its revert leave the balance as it is, and sign for no more than it.
attempt_balance :
    (chain : Transactor) (cleaned now : Time) (p : Payment) (cs : CachedPaychState)
    → (pay_attempt chain cleaned now p cs).0.state ≡ cs.state
unfolding pay_attempt release_expired_amount
attempt_balance chain cleaned now p cs = elim (Bool-cases (has_loss cs.state)) [
  | inl lost ↦ rw lost refl
  | inr fine ↦ rw fine refl
]

signed_balance :
    (chain : Transactor) (cleaned now : Time) (p : Payment) (cs : CachedPaychState) {w : Pending}
    → (pay_attempt chain cleaned now p cs).1 ≡ ok w
    → w.state.balance ≡ cs.state.balance
unfolding release_expired_amount paid_state
signed_balance chain cleaned now p cs e =
    let (fine, same, d) = pay_attempt-Paid chain cleaned now p cs e in
    ap (λ (x : State). x.balance) d.new_state

signed_covered :
    (chain : Transactor) (cleaned now : Time) (p : Payment) (cs : CachedPaychState) {w : Pending}
    → IsSound cs
    → (pay_attempt chain cleaned now p cs).1 ≡ ok w
    → w.state.redeemed ≤ℤ cs.state.balance
unfolding pay_commit
signed_covered chain cleaned now p cs {w} h e =
    let c = redeemed_covered _ (pay_commit-IsSound chain cleaned now (pos 0) p cs h e) in
    rw (← signed_balance chain cleaned now p cs e) c

revert_balance :
    (chain : Transactor) (p : Payment) (loss : String) (cs : CachedPaychState)
    → (pay_revert chain p loss cs).state.balance ≡ cs.state.balance
unfolding pay_revert
revert_balance chain p loss cs =
    elim (Bool-cases (not (loss == "") && proves_loss chain p.currency_id cs.state loss)) [
      | inl proved ↦ rw proved refl
      | inr other ↦ rw other refl
    ]

reserve_balance :
    (taken : Bool) (now : Time) (r : Reservation) (cs : CachedPaychState)
    → (try_reserve taken now r cs).0.state.balance ≡ cs.state.balance
unfolding try_reserve release_expired_amount add_reservation
reserve_balance taken now r cs = elim (Bool-cases (has_loss cs.state)) [
  | inl lost ↦ rw lost refl
  | inr fine ↦
      elim (Bool-cases (ltb_ℤ (available (release_expired_amount now cs)) r.remain || taken)) [
        | inl none_left ↦ rw (fine, none_left) refl
        | inr granted ↦ rw (fine, granted) refl
      ]
]

tops_up-IsSound :
    (chain : Transactor) (cur : ℕ) (ch : String) (cs : CachedPaychState) {cs' : CachedPaychState}
    → IsSound cs
    → update_balance chain cur ch cs ≡ ok cs'
    → cs.state.balance ≤ℤ cs'.state.balance
    → IsSound cs'
unfolding update_balance
tops_up-IsSound chain cur ch cs {cs'} h e grows = elim (Result-cases (chain.check cur ch)) [
  | inl (c, q) ↦ elim (Bool-cases (eqb_ℤ (cs.state.balance) (c.balance))) [
    | inl same ↦ absurd (cc (rw (q, same) at e))
    | inr changed ↦
        let new = ok-injective (rw (q, changed) at e) in
        let grown = rw (← new) at grows in
        rw (← new) (record {
          reserved = h.reserved;
          filled = h.filled;
          distinct = h.distinct;
          solvent = omega (int_laws, h.solvent, grown);
          lost = h.lost;
        })
  ]
  | inr bad ↦ absurd (ground arith)
]

clean-Backed :
    (now : Time) (cs : CachedPaychState) (signed : List ℤ)
    → Backed cs.state.balance signed
    → Backed (release_expired_amount now cs).state.balance signed
unfolding release_expired_amount
clean-Backed now cs signed b = b

bears-IsSound :
    (chain : Transactor) (cur : ℕ) (cs : CachedPaychState) (signed : List ℤ)
    {cs' : CachedPaychState}
    → IsSound cs
    → Backed cs.state.balance signed
    → bear_loss chain cur cs ≡ ok cs'
    → ((i : VoucherInfo)
        → chain.verify_voucher cur cs.state.network_loss_voucher ≡ ok i
        → Signed i.redeemed signed)
    → IsSound cs' × (cs'.state.balance ≡ cs.state.balance)
unfolding bear_loss
bears-IsSound chain cur cs signed {cs'} h backed e own = elim (Bool-cases (has_loss cs.state)) [
  | inl lost ↦ elim (Result-cases (chain.verify_voucher cur (cs.state.network_loss_voucher))) [
    | inl (v, q) ↦
        let new = ok-injective (rw (lost, q) at e) in
        let covers = backed v.redeemed (own v q) in
        let nothing = h.reserved ∙ ap (total remain_of) (h.lost lost) in
        rw (← new) (
          record {
            reserved = h.reserved;
            filled = h.filled;
            distinct = h.distinct;
            solvent = rw nothing (omega (int_laws, covers));
            lost = λ l. h.lost lost;
          },
          refl,
        )
    | inr bad ↦ absurd (ground arith)
  ]
  | inr fine ↦ absurd (cc (rw fine at e))
]

-- What every step keeps.
abbrev Kept : CachedPaychState → List ℤ → Type 0
Kept cs signed = IsSound cs × Backed cs.state.balance signed

Step-Kept :
    {cs cs' : CachedPaychState} {signed signed' : List ℤ}
    → Step cs signed cs' signed'
    → Kept cs signed
    → Kept cs' signed'
unfolding pay_commit
Step-Kept {cs} (reserves taken now r nonneg small) (h, b) =
    (try_reserve-IsSound taken now r _ h nonneg small, rw (reserve_balance taken now r cs) b)
Step-Kept {cs} {signed = l} (pays chain cleaned now t p w e) (h, b) = (
  pay_commit-IsSound chain cleaned now t p _ h e,
  rw (signed_balance chain cleaned now p cs e) (
      Backed-signs cs.state.balance w.state.redeemed l (signed_covered chain cleaned now p cs h e)
        b),
)
Step-Kept {cs} (fails_to_pay chain cleaned now p e) (h, b) =
    (pay_attempt-IsSound chain cleaned now p _ h, rw (attempt_balance chain cleaned now p cs) b)
Step-Kept {cs} {signed = l} (reverts chain cleaned now p w loss e) (h, b) = (
  pay_revert-IsSound chain p loss _ (pay_attempt-IsSound chain cleaned now p _ h),
  rw
      (
        revert_balance chain p loss (pay_attempt chain cleaned now p cs).0,
        attempt_balance chain cleaned now p cs,
      )
      (Backed-signs cs.state.balance w.state.redeemed l (signed_covered chain cleaned now p cs h e)
        b),
)
Step-Kept {cs} {signed = l} (cleans now) (h, b) = (release-IsSound now _ h, clean-Backed now cs l b)
Step-Kept {cs} {cs'} (tops_up chain cur ch e grows) (h, b) = (
  tops_up-IsSound chain cur ch _ h e grows,
  Backed-grows cs.state.balance cs'.state.balance grows b,
)
Step-Kept {cs} {signed = l} (bears chain cur e own) (h, b) =
    let (sound, same) = bears-IsSound chain cur cs l h b e own in (sound, rw same b)

no_vouchers : (b : ℤ) → Backed b []
no_vouchers b a m = elim m [ ]

Reach-Kept :
    {start cs : CachedPaychState} {signed : List ℤ}
    → IsSound start
    → Reach start cs signed
    → Kept cs signed
Reach-Kept {start} h here = (h, no_vouchers start.state.balance)
Reach-Kept h (next r s) = Step-Kept s (Reach-Kept h r)

fresh-IsSound : (s : State) → s.redeemed ≤ℤ s.balance → IsSound (fresh_channel s)
unfolding fresh_channel
fresh-IsSound s h = record {
  reserved = refl;
  filled = tt;
  distinct = tt;
  solvent = omega int_laws;
  lost = λ l. refl;
}

-- After any history of a channel that was added with no more redeemed than its balance, what is
-- redeemed and all that its reservations may still take are together covered by its balance, and so is each
-- voucher that it has signed, committed or not. In a history, in any order, Reserve takes amounts that are not
-- negative, with ids that do not wrap; Pay fails, or is committed or reverted; expired amounts are
-- released; UpdateOutboundChannelBalance finds a balance that has not fallen; and BearNetworkLoss takes over
-- a voucher that, where it verifies, this side has signed in this history.
pub history_covered :
    (s : State) {cs : CachedPaychState} {signed : List ℤ}
    → s.redeemed ≤ℤ s.balance
    → Reach (fresh_channel s) cs signed
    → (cs.state.redeemed +ℤ total remain_of cs.reservations ≤ℤ cs.state.balance)
      × (cs.state.redeemed ≤ℤ cs.state.balance)
      × ((a : ℤ) → Signed a signed → a ≤ℤ cs.state.balance)
history_covered s {cs} h r =
    let (sound, backed) = Reach-Kept (fresh-IsSound s h) r in
    let solvent = rw sound.reserved at sound.solvent in
    (omega int_laws, redeemed_covered cs sound, backed)
