-- ===== src/Paymgr/Sound/Pay.antt =====
-- Pay of paymgr/paymentmgr_impl.go, with its commit and its revert, keeps the books of its channel.
use fcr.Base.{
  nat_key, ◌≡◌, ok, some, inl, inr, ◌+◌, false, Bool-cases, ◌∙◌, refl, String, not, ◌==◌, ◌&&◌,
  text_key, ap,
}
use fcr.Paymgr.Types.{Reservation, Time, Transactor, CachedPaychState, u64}
use fcr.Paymgr.Outbound.{
  Payment, Pending, paid_state, has_loss, pay_commit, pay_attempt, pay_revert, proves_loss,
}
use fcr.Base.Int.{◌≤ℤ◌, int_laws, ◌+ℤ◌}
use fcr.Base.Map.{lookup}
use fcr.Paymgr.Sound.{IsSound}
use fcr.Paymgr.Expiry.{release_expired_amount}
use fcr.Paymgr.Sound.Release.{release-IsSound, reserved-nonneg}
use fcr.Paymgr.Price.{Tally, calculate_gross_amount_to_pay}
use fcr.Paymgr.Sound.Pending.{Paid, pay_provisional-Paid, commit-IsSound}

has_loss-release :
    (now : Time) (cs : CachedPaychState)
    → has_loss ((release_expired_amount now cs).state) ≡ has_loss cs.state
unfolding release_expired_amount
has_loss-release now cs = refl

-- The part of Pay under the write lock, up to its commit or refusal, leaves a sound channel sound,
-- though it may have released reservations.
pub pay_attempt-IsSound :
    (chain : Transactor) (cleaned now : Time) (p : Payment) (cs : CachedPaychState)
    → IsSound cs
    → IsSound (pay_attempt chain cleaned now p cs).0
unfolding pay_attempt
pay_attempt-IsSound chain cleaned now p cs h = elim (Bool-cases (has_loss cs.state)) [
  | inl lost ↦ rw lost h
  | inr fine ↦ rw fine (release-IsSound cleaned cs h)
]

-- A pending payment was found on a channel without loss, whose expired reservations are released.
pub pay_attempt-Paid :
    (chain : Transactor) (cleaned now : Time) (p : Payment) (cs : CachedPaychState) {w : Pending}
    → (pay_attempt chain cleaned now p cs).1 ≡ ok w
    → (has_loss cs.state ≡ false)
      × ((pay_attempt chain cleaned now p cs).0 ≡ release_expired_amount cleaned cs)
      × Paid chain now p (release_expired_amount cleaned cs) w
unfolding pay_attempt
pay_attempt-Paid chain cleaned now p cs e = elim (Bool-cases (has_loss cs.state)) [
  | inl lost ↦ absurd (cc (rw lost at e))
  | inr fine ↦ (fine, rw fine, pay_provisional-Paid chain now p _ (rw fine at e))
]

-- Committing a payment keeps its channel sound: the reservation shrinks by what is redeemed, and the
-- sum of both stays covered by the balance.
pub pay_commit-IsSound :
    (chain : Transactor) (cleaned now t : Time) (p : Payment) (cs : CachedPaychState) {w : Pending}
    → IsSound cs
    → (pay_attempt chain cleaned now p cs).1 ≡ ok w
    → IsSound (pay_commit p w t (pay_attempt chain cleaned now p cs).0)
pay_commit-IsSound chain cleaned now t p cs {w} h e =
    let (fine, same, d) = pay_attempt-Paid chain cleaned now p cs e in
    rw same (
      commit-IsSound chain now t p w (release_expired_amount cleaned cs)
        (release-IsSound cleaned cs h) (has_loss-release cleaned cs ∙ fine) d)

-- A pending payment signs a voucher, under the next nonce (modulo 2 ^ 64) and for what its new state
-- says is redeemed: the old amount and the gross amount computed from the reservation it found. It
-- takes no more than that reservation has left, and the reserved amount falls by as much.
pub pay_signs :
    (chain : Transactor) (cleaned now : Time) (p : Payment) (cs : CachedPaychState) {w : Pending}
    → (pay_attempt chain cleaned now p cs).1 ≡ ok w
    → (r : Reservation) × (t : Tally) × (lookup p.res_id
          (release_expired_amount cleaned cs).reservations
        ≡ some r)
      × (calculate_gross_amount_to_pay r.outbound r.petty_amt_paid r.surcharge_paid
            p.petty_amt_required
          ≡ ok t)
      × (t.amount ≤ℤ r.remain)
      × (w.state.redeemed ≡ cs.state.redeemed +ℤ t.amount)
      × (w.state.nonce ≡ u64 (cs.state.nonce + 1))
      × (w.reserved_amt +ℤ t.amount ≡ (release_expired_amount cleaned cs).reserved_amt)
      × (chain.generate_voucher cs.state.currency_id cs.state.ch_addr 0 w.state.nonce
            w.state.redeemed
          ≡ ok w.voucher)
      × (w.state.voucher ≡ w.voucher)
unfolding release_expired_amount paid_state
pay_signs chain cleaned now p cs {w} e =
    let (fine, same, d) = pay_attempt-Paid chain cleaned now p cs e in
    let new = d.new_state in
    (
      d.found,
      d.price,
      d.is_found,
      d.priced,
      d.fits,
      ap (λ s. s.redeemed) new,
      ap (λ s. s.nonce) new,
      rw d.new_reserved (omega int_laws),
      rw (ap (λ s. s.nonce) new, ap (λ s. s.redeemed) new) (d.signed),
      ap (λ s. s.voucher) new,
    )

-- Reverting keeps a channel sound, whatever voucher is handed in as proof of loss.
pub pay_revert-IsSound :
    (chain : Transactor) (p : Payment) (loss : String) (cs : CachedPaychState)
    → IsSound cs
    → IsSound (pay_revert chain p loss cs)
unfolding pay_revert
pay_revert-IsSound chain p loss cs h =
    elim (Bool-cases (not (loss == "") && proves_loss chain p.currency_id cs.state loss)) [
      | inl proved ↦ rw proved (record {
        reserved = refl;
        filled = tt;
        distinct = tt;
        solvent = omega (int_laws, h.solvent, reserved-nonneg cs h);
        lost = λ l. refl;
      })
      | inr other ↦ rw other h
    ]
