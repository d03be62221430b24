-- ===== src/Paymgr/Price/RoundTrip.antt =====
-- The payer's calculateGrossAmountToPay against the receiver's calculatePettyAmountToReceive,
-- paymgr/utils.go: two peers that hold the same totals.
use fcr.Base.{
  ℕ, zero, suc, ◌+◌, ◌-◌, ◌*◌, ◌/◌, ◌≤◌, ◌<◌, ◌≡◌, refl, ap, ◌∙◌, ◌⊎◌, inl, inr, arith, ok,
}
use fcr.Base.Int.{pos, pos-add, pos-sub, lt→ltb, lt→leb}
use fcr.Paymgr.Price.{calculate_gross_amount_to_pay, calculate_petty_amount_to_receive, fill_period}
use mathlib.Core.Path.{ap₂}
use fcr.Paymgr.Price.Periods.{
  Starts, tally, rate, Starts-div, fill_period-within, surcharge_remainder-full, surcharge_on-pos,
  tally-eq, fill_period-beyond, surcharge_remainder-zero,
}

-- Reserve and the offers allow a price of nothing, or a positive price for a positive period.
abbrev pub IsRate : ℕ → ℕ → Type 0
IsRate p d = ((p ≡ 0) × (d ≡ 0)) ⊎ ((0 < p) × (0 < d))

-- Totals after a petty amount `x` in all: the surcharge is `p` for each period that `x` starts.
pub record Settled (p d x s : ℕ) : Type 0 where
  pub started : ℕ
  pub charged : s ≡ started * p
  pub used : (p ≡ 0) ⊎ Starts d x started

Starts-mono : (d x a k j : ℕ) → Starts (suc d) x k → Starts (suc d) (x + a) j → k ≤ j
Starts-mono d x a k j s t = grind arith

gross_to_pay-pos :
    (p d x k m a : ℕ)
    → 0 < a
    → suc ((x + a - 1) / suc d) ≡ k + m
    → calculate_gross_amount_to_pay (rate (suc p) (suc d)) (pos x) (pos (k * suc p)) (pos a)
      ≡ ok (tally (x + a) ((k + m) * suc p) (a + m * suc p))
unfolding calculate_gross_amount_to_pay
gross_to_pay-pos p d x k m a h e =
    rw
      (
        lt→ltb (pos 0) (pos (suc p)) (omega arith),
        pos-add x a,
        surcharge_on-pos (suc p) d (x + a) (omega arith),
        e,
        pos-add (x + a) ((k + m) * suc p),
        pos-add x (k * suc p),
        pos-sub (x + a + (k + m) * suc p) (x + k * suc p) (omega arith),
      )
      (ap (λ g. ok (tally (x + a) ((k + m) * suc p) g)) (omega arith))

-- What is left for the current period and those after it.
fill_period-pos :
    (p d k m x a : ℕ)
    → 0 < a
    → x ≤ k * suc d
    → Starts (suc d) (x + a) (k + m)
    → fill_period (rate (suc p) (suc d)) (tally x (k * suc p) 0) (pos (a + m * suc p))
      ≡ ok (tally (x + a) ((k + m) * suc p) a)
fill_period-pos p d k zero x a h c s =
    ap (λ g. fill_period (rate (suc p) (suc d)) (tally x (k * suc p) 0) (pos g)) (omega arith)
    ∙ fill_period-within p d k x 0 a h (omega arith)
    ∙ ap ok (tally-eq _ _ _ _ refl (ap pos (omega arith)) (ap pos (omega arith)))
fill_period-pos p d k (suc m) x a h c s =
    fill_period-beyond p d k x 0 a m c (omega arith) (omega arith)
    ∙ ap ok (tally-eq _ _ _ _ refl (ap pos (omega arith)) (ap pos (omega arith)))

petty_to_receive-pos :
    (p d x k m a : ℕ)
    → 0 < a
    → Starts (suc d) x k
    → Starts (suc d) (x + a) (k + m)
    → calculate_petty_amount_to_receive
        (rate (suc p) (suc d))
        (pos x)
        (pos (k * suc p))
        (pos (a + m * suc p))
      ≡ ok (tally (x + a) ((k + m) * suc p) a)
unfolding calculate_petty_amount_to_receive
petty_to_receive-pos p d x zero zero a h s t = absurd (omega arith)
petty_to_receive-pos p d x zero (suc m) a h s t =
    let none_started : 0 * suc p ≡ 0 = omega arith in
    rw
      (
        lt→ltb (pos 0) (pos (suc p)) (omega arith),
        none_started,
        surcharge_remainder-zero (suc p),
        lt→leb (pos (a + suc m * suc p)) (pos (suc p)) (omega arith),
        pos-add 0 (suc p),
        pos-sub (a + suc m * suc p) (suc p) (omega arith),
      )
      (ap₂ (λ y g. fill_period (rate (suc p) (suc d)) (tally x y 0) (pos g)) (omega arith)
          (omega arith)
        ∙ fill_period-pos p d 1 m x a h (omega arith) (omega arith)
        ∙ ap ok (tally-eq _ _ _ _ refl (ap pos (omega arith)) refl))
petty_to_receive-pos p d x (suc k) m a h s t =
    rw
      (
        lt→ltb (pos 0) (pos (suc p)) (omega arith),
        surcharge_remainder-full p k,
        lt→leb (pos (a + m * suc p)) (pos 0) (omega arith),
        pos-add (suc k * suc p) 0,
        pos-sub (a + m * suc p) 0 (omega arith),
      )
      (ap₂ (λ y g. fill_period (rate (suc p) (suc d)) (tally x y 0) (pos g)) (omega arith)
          (omega arith)
        ∙ fill_period-pos p d (suc k) m x a h s.covers t)

-- One exchange from petty total `x` and surcharge `s`: what is paid for `a` is received as `a`, and
-- leaves both sides with the same totals.
abbrev pub Exchanges : ℕ → ℕ → ℕ → ℕ → ℕ → Type 0
Exchanges p d x s a =
    (s' : ℕ) × (g : ℕ) × (calculate_gross_amount_to_pay (rate p d) (pos x) (pos s) (pos a)
      ≡ ok (tally (x + a) s' g))
    × (calculate_petty_amount_to_receive (rate p d) (pos x) (pos s) (pos g)
        ≡ ok (tally (x + a) s' a))
    × Settled p d (x + a) s'

exchange_priced :
    (p d x k a : ℕ) → Starts (suc d) x k → 0 < a → Exchanges (suc p) (suc d) x (k * suc p) a
exchange_priced p d x k a s h =
    let j = suc ((x + a - 1) / suc d) in
    let t = Starts-div d (x + a) (omega arith) in
    let kept = Starts-mono d x a k j s t in
    let e : j ≡ k + (j - k) = omega arith in
    let t' : Starts (suc d) (x + a) (k + (j - k)) = rw (← e) t in
    (
      (k + (j - k)) * suc p,
      a + (j - k) * suc p,
      gross_to_pay-pos p d x k (j - k) a h e,
      petty_to_receive-pos p d x k (j - k) a h s t',
      record { started = k + (j - k); charged = refl; used = inr t' },
    )

exchange_free : (d x s a : ℕ) → Settled 0 d x s → Exchanges 0 d x s a
unfolding calculate_gross_amount_to_pay calculate_petty_amount_to_receive
exchange_free d x s a t = (
  s,
  a,
  rw (pos-add x a),
  rw (pos-add x a),
  record { started = t.started; charged = t.charged; used = inl refl },
)

-- With a valid rate and settled totals, a positive petty amount is paid by a gross amount from which
-- the receiver, holding the same totals and rate, computes exactly that petty amount; both then hold
-- the same new totals, which are settled again.
pub receive-pay : (p d x s a : ℕ) → IsRate p d → Settled p d x s → 0 < a → Exchanges p d x s a
receive-pay zero d x s a r t h = exchange_free d x s a t
receive-pay (suc p) zero x s a r t h = absurd (omega arith)
receive-pay (suc p) (suc d) x s a r t h = elim t.used [
  | inl free ↦ absurd (omega arith)
  | inr used ↦ rw t.charged (exchange_priced p d x t.started a used h)
]
