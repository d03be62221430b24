-- ===== src/Paymgr/Price/Periods.antt =====
-- Started periods: what calculateGrossAmountToPay and calculatePettyAmountToReceive of
-- paymgr/utils.go come to once rates and totals are not negative.
use fcr.Base.{ℕ, zero, suc, ◌+◌, ◌-◌, ◌*◌, ◌/◌, ◌≤◌, ◌<◌, ◌≡◌, refl, arith, ok, ap, ℕ_discrete, ◌∙◌}
use fcr.Base.Int.{pos, div, pos-add, pos-sub, pos-mul, lt→ltb, lt→leb, le→leb}
use fcr.Paymgr.Price.{
  Rate, Tally, fill_last, fill_periods, fill_period, surcharge_on, surcharge_remainder,
}

div_unique : (a d q : ℕ) → q * d ≤ a → a < q * d + d → a / d ≡ q
div_unique a d q h k = grind arith

mul-div : (k p : ℕ) → k * suc p / suc p ≡ k
mul-div k p = grind arith

-- `k` periods of length `d` are started by an amount `a`.
pub record Starts (d a k : ℕ) : Type 0 where
  pub covers : a ≤ k * d
  pub last_used : k * d < a + d

Starts-unique : (d a k j : ℕ) → Starts d a k → Starts d a j → k ≡ j
Starts-unique d a k j s t = grind arith

pub Starts-div : (d a : ℕ) → 0 < a → Starts (suc d) a (suc ((a - 1) / suc d))
Starts-div d a h = grind arith

abbrev pub tally : ℕ → ℕ → ℕ → Tally
tally x y z = record { petty = pos x; surcharge = pos y; amount = pos z }

abbrev pub rate : ℕ → ℕ → Rate
rate p d = record { ppp = pos p; period = pos d }

pub surcharge_on-pos :
    (p d a : ℕ)
    → 0 < a
    → surcharge_on (rate p (suc d)) (pos a) ≡ ok (pos (suc ((a - 1) / suc d) * p))
unfolding surcharge_on div
surcharge_on-pos p d a h =
    rw (pos-sub a 1 h, pos-add ((a - 1) / suc d) 1, pos-mul ((a - 1) / suc d + 1) p) (ground arith)

pub surcharge_remainder-zero : (p : ℕ) → surcharge_remainder (pos p) (pos 0) ≡ ok (pos p)
unfolding surcharge_remainder
surcharge_remainder-zero p = ground arith

pub surcharge_remainder-full :
    (p k : ℕ) → surcharge_remainder (pos (suc p)) (pos (suc k * suc p)) ≡ ok (pos 0)
unfolding surcharge_remainder div
surcharge_remainder-full p k =
    rw
      (
        pos-sub (suc k * suc p) 1 (omega arith),
        div_unique (suc k * suc p - 1) (suc p) k (omega arith) (omega arith),
        pos-add k 1,
        pos-mul (k + 1) (suc p),
      )
      (ground (arith, pos-sub (suc k * suc p) (suc k * suc p)))

div-pos : (n m : ℕ) → 0 < m → div (pos n) (pos m) ≡ ok (pos (n / m))
unfolding div
div-pos n zero h = absurd (omega arith)
div-pos n (suc m) h = refl

pub tally-eq :
    (t : Tally) (x y z : ℕ)
    → t.petty ≡ pos x
    → t.surcharge ≡ pos y
    → t.amount ≡ pos z
    → t ≡ tally x y z
tally-eq t x y z h k l = λ i. record { petty = h i; surcharge = k i; amount = l i }

-- `fill_periods` once the quotient `n` and what is left are known.
fill_periods-at :
    (p d g n left x y z : ℕ)
    → 0 < g
    → g / (d + p) ≡ n
    → 0 < d + p
    → left + n * (d + p) ≡ g
    → fill_periods (rate p d) (tally x y z) (pos g)
      ≡ ok (fill_last (rate p d) (tally (x + n * d) (y + n * p) (z + n * d)) (pos left))
unfolding fill_periods
fill_periods-at p d g n left x y z h q nz e =
    rw
      (
        pos-add d p,
        lt→ltb (pos 0) (pos g) (omega arith),
        div-pos g (d + p) nz,
        q,
        pos-mul n d,
        pos-mul n p,
        pos-mul n (d + p),
        pos-add x (n * d),
        pos-add y (n * p),
        pos-add z (n * d),
        pos-sub g (n * (d + p)) (omega arith),
      )
      (ap (λ l. ok (fill_last (rate p d) (tally (x + n * d) (y + n * p) (z + n * d)) (pos l)))
        (omega arith))

fill_periods-pos :
    (p d m a x y z : ℕ)
    → m * suc d < a
    → a ≤ suc m * suc d
    → fill_periods (rate (suc p) (suc d)) (tally x y z) (pos (a + suc m * suc p))
      ≡ ok (tally (x + a) (y + suc m * suc p) (z + a))
unfolding fill_last
fill_periods-pos p d m a x y z low high = elim (ℕ_discrete a (suc m * suc d)) [
  | yes whole ↦
      fill_periods-at (suc p) (suc d) (a + suc m * suc p) (suc m) 0 x y z (omega arith)
        (div_unique _ _ (suc m) (omega arith) (omega arith)) (omega arith) (omega arith)
      ∙ ap ok (tally-eq _ _ _ _ (ap pos (omega arith)) refl (ap pos (omega arith)))
  | no part ↦
      let left = a + suc p - m * suc d in
      fill_periods-at (suc p) (suc d) (a + suc m * suc p) m left x y z (omega arith)
        (div_unique _ _ m (omega arith) (omega arith)) (omega arith) (omega arith)
      ∙ ap ok (
          rw
            (lt→ltb (pos 0) (pos left) (omega arith), le→leb (pos (suc p)) (pos left) (omega arith))
            (tally-eq _ _ _ _
              (rw (pos-sub left (suc p) (omega arith), pos-add) (ap pos (omega arith)))
              (rw pos-add (ap pos (omega arith)))
              (rw (pos-sub left (suc p) (omega arith), pos-add) (ap pos (omega arith)))))
]

-- A payment within the current period.
pub fill_period-within :
    (p d k x z g : ℕ)
    → 0 < g
    → x + g ≤ k * suc d
    → fill_period (rate (suc p) (suc d)) (tally x (k * suc p) z) (pos g)
      ≡ ok (tally (x + g) (k * suc p) (z + g))
unfolding fill_period
fill_period-within p d k x z g h fits = rw (
  lt→ltb (pos 0) (pos g) (omega arith),
  div-pos (k * suc p) (suc p) (omega arith),
  mul-div k p,
  pos-mul k (suc d),
  pos-sub (k * suc d) x (omega arith),
  le→leb (pos g) (pos (k * suc d - x)) (omega arith),
  pos-add x g,
  pos-add z g,
)

-- A payment that starts `m + 1` more periods.
pub fill_period-beyond :
    (p d k x z a m : ℕ)
    → x ≤ k * suc d
    → k * suc d + m * suc d < x + a
    → x + a ≤ k * suc d + suc m * suc d
    → fill_period (rate (suc p) (suc d)) (tally x (k * suc p) z) (pos (a + suc m * suc p))
      ≡ ok (tally (x + a) (k * suc p + suc m * suc p) (z + a))
unfolding fill_period
fill_period-beyond p d k x z a m h low high =
    let rest = k * suc d - x in
    rw
      (
        lt→ltb (pos 0) (pos (a + suc m * suc p)) (omega arith),
        div-pos (k * suc p) (suc p) (omega arith),
        mul-div k p,
        pos-mul k (suc d),
        pos-sub (k * suc d) x (omega arith),
        lt→leb (pos (a + suc m * suc p)) (pos rest) (omega arith),
        pos-add x rest,
        pos-add z rest,
        pos-sub (a + suc m * suc p) rest (omega arith),
      )
      (ap
          (λ g.
            fill_periods (rate (suc p) (suc d)) (tally (x + rest) (k * suc p) (z + rest)) (pos g))
          (omega arith)
        ∙ fill_periods-pos p d m (a - rest) (x + rest) (k * suc p) (z + rest) (omega arith)
            (omega arith)
        ∙ ap ok (tally-eq _ _ _ _ (ap pos (omega arith)) refl (ap pos (omega arith))))
