-- ===== src/Paymgr/Sound/Pending.antt =====
-- What a pending payment of Pay (paymgr/paymentmgr_impl.go) has found and booked, and what its commit
-- does to the invariant.
use fcr.Base.{
  nat_key, ◌≡◌, ok, some, none, if◌then◌else◌, arith, Result-cases, inl, inr, ◌+◌, false,
  Bool-cases, sym, ◌∙◌, text_key,
}
use fcr.Paymgr.Types.{Reservation, Time, Transactor, CachedPaychState, u64}
use fcr.Paymgr.Outbound.{
  receive_for, pay_from, pay_provisional, Payment, Pending, paid_state, find_reservation, has_loss,
  pay_commit,
}
use fcr.Base.Int.{ℤ, ◌-ℤ◌, ◌≤ℤ◌, eqb_ℤ, pos, int_laws, ◌+ℤ◌}
use fcr.Base.Map.{lookup}
use fcr.Paymgr.Sound.{IsSound, IsFilled, remain_of}
use fcr.Base.Sum.{
  lookup-All, total-erase, erase-All, erase-Distinct, total-insert, insert-All, insert-Distinct,
}
use fcr.Paymgr.Price.{Tally, calculate_gross_amount_to_pay}

-- What receiving books leaves the paying side of a reservation alone.
pub record KeepsPaying (r r' : Reservation) : Type 0 where
  pub remain : r'.remain ≡ r.remain
  pub outbound : r'.outbound ≡ r.outbound
  pub paid : r'.petty_amt_paid ≡ r.petty_amt_paid
  pub surcharge : r'.surcharge_paid ≡ r.surcharge_paid

receive_for-KeepsPaying :
    (p : Payment) (r : Reservation) {r' : Reservation} → receive_for p r ≡ ok r' → KeepsPaying r r'
unfolding receive_for
receive_for-KeepsPaying p r e = ground arith

pay_from-priced :
    (p : Payment) (r : Reservation) {q : Reservation × ℤ}
    → pay_from p r ≡ ok q
    → (t : Tally) × (calculate_gross_amount_to_pay r.outbound r.petty_amt_paid r.surcharge_paid
          p.petty_amt_required
        ≡ ok t)
      × (q.1 ≡ t.amount)
      × (q.0.remain ≡ r.remain -ℤ t.amount)
      × (t.amount ≤ℤ r.remain)
unfolding pay_from
pay_from-priced p r e =
    elim (Result-cases (
      calculate_gross_amount_to_pay r.outbound r.petty_amt_paid r.surcharge_paid
        p.petty_amt_required)) [
          | inl (t, q) ↦ (t, q, ground arith, ground arith, grind int_laws)
          | inr bad ↦ absurd (ground arith)
        ]

find_reservation-found :
    (now : Time) (p : Payment) (cs : CachedPaychState) {r : Reservation}
    → find_reservation now p cs ≡ ok r
    → lookup p.res_id cs.reservations ≡ some r
unfolding find_reservation
find_reservation-found now p cs e = ground arith

-- A payment that is ready to commit: the reservation it found, and the gross amount it takes.
pub record Paid (chain : Transactor) (now : Time) (p : Payment) (cs : CachedPaychState)
    (w : Pending) : Type 0 where
  pub found : Reservation
  pub left : Reservation
  pub price : Tally
  pub is_found : lookup p.res_id cs.reservations ≡ some found
  pub priced :
      calculate_gross_amount_to_pay found.outbound found.petty_amt_paid found.surcharge_paid
        p.petty_amt_required
      ≡ ok price
  pub takes : left.remain ≡ found.remain -ℤ price.amount
  pub fits : price.amount ≤ℤ found.remain
  pub signed :
      chain.generate_voucher cs.state.currency_id cs.state.ch_addr 0
        (u64 (cs.state.nonce + 1))
        (cs.state.redeemed +ℤ price.amount)
      ≡ ok w.voucher
  pub new_state : w.state ≡ paid_state cs.state w.voucher price.amount
  pub new_reserved : w.reserved_amt ≡ cs.reserved_amt -ℤ price.amount
  pub new_reservation : w.reservation ≡ (if eqb_ℤ left.remain (pos 0) then none else some left)

pub pay_provisional-Paid :
    (chain : Transactor) (now : Time) (p : Payment) (cs : CachedPaychState) {w : Pending}
    → pay_provisional chain now p cs ≡ ok w
    → Paid chain now p cs w
unfolding pay_provisional
pay_provisional-Paid chain now p cs e = elim (Result-cases (find_reservation now p cs)) [
  | inl (r, q1) ↦ elim (Result-cases (receive_for p r)) [
    | inl (r', q2) ↦ elim (Result-cases (pay_from p r')) [
      | inl ((left, gross), q3) ↦
          let kept = receive_for-KeepsPaying p r q2 in
          let (t, priced, g, taken, fits) = pay_from-priced p r' q3 in
          record {
            found = r;
            left = left;
            price = t;
            is_found = find_reservation-found now p cs q1;
            priced = rw (kept.outbound, kept.paid, kept.surcharge) at priced;
            takes = ground (arith, taken, kept.remain);
            fits = rw kept.remain at fits;
            signed = ground arith;
            new_state = ground arith;
            new_reserved = ground arith;
            new_reservation = ground arith;
          }
      | inr bad ↦ absurd (ground arith)
    ]
    | inr bad ↦ absurd (ground arith)
  ]
  | inr bad ↦ absurd (ground arith)
]

-- Committing keeps a channel sound.
pub commit-IsSound :
    (chain : Transactor) (now t : Time) (p : Payment) (w : Pending) (cs : CachedPaychState)
    → IsSound cs
    → has_loss cs.state ≡ false
    → Paid chain now p cs w
    → IsSound (pay_commit p w t cs)
unfolding pay_commit paid_state
commit-IsSound chain now t p w cs h fine d =
    let old =
      lookup-All (IsFilled cs.reserved_nonce) p.res_id d.found cs.reservations h.filled
        d.is_found in
    elim (Bool-cases (eqb_ℤ d.left.remain (pos 0))) [
      | inl used_up ↦
          rw (d.new_state, d.new_reserved, d.new_reservation, used_up)
            (record {
              reserved = grind (
                int_laws,
                h.reserved,
                d.takes,
                total-erase remain_of p.res_id d.found cs.reservations h.distinct d.is_found,
              );
              filled = erase-All _ p.res_id cs.reservations h.filled;
              distinct = erase-Distinct p.res_id cs.reservations h.distinct;
              solvent = omega (int_laws, h.solvent);
              lost = λ l. absurd (cc (sym fine ∙ l));
            })
      | inr more ↦
          let kept : Reservation = record (d.left) { last_accessed = t; expiration = pos 0 } in
          rw (d.new_state, d.new_reserved, d.new_reservation, more)
            (record {
              reserved = grind (
                int_laws,
                h.reserved,
                d.takes,
                total-insert remain_of p.res_id kept d.found cs.reservations d.is_found,
              );
              filled =
                  insert-All _ p.res_id kept cs.reservations
                    (old.0, rw (d.takes) (omega (int_laws, d.fits))) h.filled;
              distinct = insert-Distinct p.res_id kept cs.reservations h.distinct;
              solvent = omega (int_laws, h.solvent);
              lost = λ l. absurd (cc (sym fine ∙ l));
            })
    ]
