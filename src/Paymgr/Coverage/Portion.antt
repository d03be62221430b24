-- ===== src/Paymgr/Coverage/Portion.antt =====
-- One portion paid from a reservation: Pay and calculateGrossAmountToPay (paymgr/paymentmgr_impl.go,
-- paymgr/utils.go) on what the reservation has left.
use native.Mathlib.Nat.{mul-le-mul_right}
use fcr.Base.{arith, ℕ, ◌≤◌, inl, ap, ◌*◌, inr, ◌≡◌, ◌+◌, ok, sym, ◌∙◌, ◌<◌, ◌-◌, refl, err}
use fcr.Paymgr.Types.{Reservation}
use fcr.Paymgr.Price.RoundTrip.{Settled, IsRate, receive-pay}
use fcr.Base.Int.{pos, pos-add, pos_part, le→ltb, pos-sub, lt→ltb}
use fcr.Paymgr.Price.{calculate_petty_amount_to_receive}
use fcr.Paymgr.Price.Conserve.{receive_conserves}
use fcr.Paymgr.Outbound.{Payment, pay_from}
use fcr.Paymgr.Price.Periods.{rate, tally}

Settled-mono : (p d x y s t : ℕ) → x ≤ y → Settled p d x s → Settled p d y t → s ≤ t
Settled-mono p d x y s t h a b = elim a.used [
  | inl free ↦ omega (arith, a.charged, b.charged, ap (λ (q : ℕ). a.started * q) free)
  | inr u ↦ elim b.used [
    | inl free ↦ omega (arith, a.charged, b.charged, ap (λ (q : ℕ). a.started * q) free)
    | inr v ↦
        let less : a.started ≤ b.started = grind arith in
        grind (arith, a.charged, b.charged, mul-le-mul_right p less)
  ]
]

-- A reservation at the rate of `p` per `d`, made for a petty amount `whole` with surcharge `due`, of
-- which `x` with surcharge `s` is paid.
pub record Covers (p d whole due x s : ℕ) (r : Reservation) : Type 0 where
  pub left : ℕ
  pub priced : r.outbound ≡ rate p d
  pub paid : r.petty_amt_paid ≡ pos x
  pub charged : r.surcharge_paid ≡ pos s
  pub remains : r.remain ≡ pos left
  pub settled : Settled p d x s
  pub in_full : Settled p d whole due
  pub budget : left + x + s ≡ whole + due

-- One payment's gross amount is what it adds to the two totals.
exchange_amount :
    (p d x s a s' g : ℕ)
    → calculate_petty_amount_to_receive (rate p d) (pos x) (pos s) (pos g) ≡ ok (tally (x + a) s' a)
    → x + a + s' ≡ x + s + g
exchange_amount p d x s a s' g e =
    let total = (receive_conserves (rate p d) (pos x) (pos s) (pos g) e).0 in
    let flat : pos (x + a + s') ≡ pos (x + s + g) =
      sym (pos-add (x + a) s') ∙ total ∙ rw (pos-add x s, pos-add (x + s) g) in
    ap pos_part flat

pub pay_from-fits :
    (p d whole due x s a : ℕ) (q : Payment) (r : Reservation)
    → IsRate p d
    → q.petty_amt_required ≡ pos a
    → 0 < a
    → Covers p d whole due x s r
    → x + a ≤ whole
    → (r' : Reservation) × (g : ℕ) × (s' : ℕ) × (pay_from q r ≡ ok (r', pos g))
      × Covers p d whole due (x + a) s' r'
unfolding pay_from
pay_from-fits p d whole due x s a q r valid asks h c fits =
    let (s', g, pays, receives, settled) = receive-pay p d x s a valid c.settled h in
    let adds = exchange_amount p d x s a s' g receives in
    let bound = Settled-mono p d (x + a) whole s' due fits settled c.in_full in
    let budget = c.budget in
    (
      record r { petty_amt_paid = pos (x + a); surcharge_paid = pos s'; remain = pos (c.left - g) },
      g,
      s',
      rw (
        c.priced,
        c.paid,
        c.charged,
        asks,
        pays,
        c.remains,
        le→ltb (pos c.left) (pos g) (omega arith),
        pos-sub c.left g (omega arith),
      ),
      record {
        left = c.left - g;
        priced = c.priced;
        paid = refl;
        charged = refl;
        remains = refl;
        settled = settled;
        in_full = c.in_full;
        budget = omega arith;
      },
    )

pub pay_from-exceeds :
    (p d whole due x s a : ℕ) (q : Payment) (r : Reservation)
    → IsRate p d
    → q.petty_amt_required ≡ pos a
    → 0 < a
    → Covers p d whole due x s r
    → whole < x + a
    → pay_from q r ≡ err "reservation remain does not cover gross amount to pay"
unfolding pay_from
pay_from-exceeds p d whole due x s a q r valid asks h c exceeds =
    let (s', g, pays, receives, settled) = receive-pay p d x s a valid c.settled h in
    let adds = exchange_amount p d x s a s' g receives in
    let bound = Settled-mono p d whole (x + a) due s' (omega arith) c.in_full settled in
    let budget = c.budget in
    rw (
      c.priced,
      c.paid,
      c.charged,
      asks,
      pays,
      c.remains,
      lt→ltb (pos c.left) (pos g) (omega arith),
    )
