-- ===== src/Paymgr/Price/Conserve.antt =====
-- Nothing that is received gets lost: calculatePettyAmountToReceive of paymgr/utils.go.
use fcr.Base.{◌≡◌, arith, inl, inr, ok, zero, suc, ok-injective, ◌/◌, Result-cases, ◌∙◌}
use fcr.Base.Int.{
  ℤ, pos, negsuc, ◌+ℤ◌, ◌-ℤ◌, ◌*ℤ◌, ◌≤ℤ◌, div, int_laws, *ℤ_distrib, *ℤ_parts, lt-cases, sub_ℕ,
  le-cases, +ℤ_comm,
}
use fcr.Paymgr.Price.{
  Rate, Tally, fill_last, fill_periods, fill_period, calculate_petty_amount_to_receive,
  surcharge_remainder,
}

-- The remainder of a Euclidean division is not negative.
div_remainder : (a b : ℤ) {q : ℤ} → div a b ≡ ok q → q *ℤ b ≤ℤ a
unfolding div
div_remainder (pos n) (pos zero) h = cc
div_remainder (pos n) (pos (suc d)) h =
    rw (← ok-injective h) (omega (arith, *ℤ_parts (pos (n / suc d)) (pos (suc d))))
div_remainder (pos n) (negsuc d) h =
    rw (← ok-injective h) (grind (int_laws, *ℤ_parts (sub_ℕ 0 (n / suc d)) (negsuc d)))
div_remainder (negsuc n) (pos zero) h = cc
div_remainder (negsuc n) (pos (suc d)) h =
    rw (← ok-injective h) (omega (arith, *ℤ_parts (negsuc (n / suc d)) (pos (suc d))))
div_remainder (negsuc n) (negsuc d) h =
    rw (← ok-injective h) (omega (arith, *ℤ_parts (pos (suc (n / suc d))) (negsuc d)))

-- A step that books `gross`: it moves the totals by `gross`, and the amount like the petty amount.
abbrev Books : Tally → ℤ → Tally → Type 0
Books t gross u =
    (u.petty +ℤ u.surcharge ≡ t.petty +ℤ t.surcharge +ℤ gross)
    × (u.amount +ℤ t.petty ≡ u.petty +ℤ t.amount)

fill_last-Books :
    (r : Rate) (t : Tally) (gross : ℤ) → pos 0 ≤ℤ gross → Books t gross (fill_last r t gross)
unfolding fill_last
fill_last-Books r t gross h = grind int_laws

fill_periods-Books :
    (r : Rate) (t : Tally) (gross : ℤ) {u : Tally}
    → pos 0 ≤ℤ gross
    → fill_periods r t gross ≡ ok u
    → Books t gross u
unfolding fill_periods
fill_periods-Books r t gross h e = elim (lt-cases (pos 0) gross) [
  | inl (more, m) ↦ elim (Result-cases (div gross (r.period +ℤ r.ppp))) [
    | inl (n, q) ↦
        let t' : Tally = record {
          petty = t.petty +ℤ n *ℤ r.period;
          surcharge = t.surcharge +ℤ n *ℤ r.ppp;
          amount = t.amount +ℤ n *ℤ r.period;
        } in
        let left = gross -ℤ n *ℤ (r.period +ℤ r.ppp) in
        let kept = div_remainder gross (r.period +ℤ r.ppp) q in
        let last = fill_last-Books r t' left (omega int_laws) in
        rw (← ok-injective (rw (more, q) at e))
          (grind (int_laws, *ℤ_distrib n r.period r.ppp, last.0, last.1))
    | inr (inl (_, q)) ↦ cc (rw (more, q) at e)
    | inr (inr q) ↦ cc (rw (more, q) at e)
  ]
  | inr (done, none_left) ↦ rw (← ok-injective (rw done at e)) (omega int_laws)
]

fill_period-Books :
    (r : Rate) (t : Tally) (gross : ℤ) {u : Tally}
    → pos 0 ≤ℤ gross
    → fill_period r t gross ≡ ok u
    → Books t gross u
unfolding fill_period
fill_period-Books r t gross h e = elim (lt-cases (pos 0) gross) [
  | inl (more, m) ↦ elim (Result-cases (div t.surcharge r.ppp)) [
    | inl (paid, q) ↦
        let rest = paid *ℤ r.period -ℤ t.petty in
        let t' : Tally = record t { petty = t.petty +ℤ rest; amount = t.amount +ℤ rest } in
        elim (le-cases gross rest) [
          | inl (fits, f) ↦ rw (← ok-injective (rw (more, q, fits) at e)) (omega int_laws)
          | inr (over, o) ↦
              let booked =
                fill_periods-Books r t' (gross -ℤ rest) (omega int_laws)
                  (rw (more, q, over) at e) in
              (grind (int_laws, booked.0), grind (int_laws, booked.1))
        ]
    | inr (inl (_, q)) ↦ cc (rw (more, q) at e)
    | inr (inr q) ↦ cc (rw (more, q) at e)
  ]
  | inr (done, none_left) ↦ rw (← ok-injective (rw done at e)) (omega int_laws)
]

-- The surcharge filled up first, and the rest booked after it.
Books-after :
    (petty surcharge rest gross : ℤ) (u : Tally)
    → Books
        (record { petty = petty; surcharge = surcharge +ℤ rest; amount = pos 0 })
        (gross -ℤ rest)
        u
    → (u.petty +ℤ u.surcharge ≡ petty +ℤ surcharge +ℤ gross) × (petty +ℤ u.amount ≡ u.petty)
Books-after petty surcharge rest gross u (total, grown) =
    (total ∙ omega int_laws, +ℤ_comm petty u.amount ∙ grown ∙ omega int_laws)

-- Whatever the rates and totals are, and unless a division by zero panics: the two totals grow by
-- exactly the gross amount received, and the petty amount returned is the growth of the petty total.
pub receive_conserves :
    (r : Rate) (petty surcharge gross : ℤ) {u : Tally}
    → calculate_petty_amount_to_receive r petty surcharge gross ≡ ok u
    → (u.petty +ℤ u.surcharge ≡ petty +ℤ surcharge +ℤ gross) × (petty +ℤ u.amount ≡ u.petty)
unfolding calculate_petty_amount_to_receive
receive_conserves r petty surcharge gross e = elim (lt-cases (pos 0) r.ppp) [
  | inl (charged, c) ↦ elim (Result-cases (surcharge_remainder r.ppp surcharge)) [
    | inl (rest, q) ↦
        let t' : Tally = record { petty = petty; surcharge = surcharge +ℤ rest; amount = pos 0 } in
        elim (le-cases gross rest) [
          | inl (fits, f) ↦ rw (← ok-injective (rw (charged, q, fits) at e)) (omega int_laws)
          | inr (over, o) ↦
              Books-after petty surcharge rest gross _ (
                fill_period-Books r t' (gross -ℤ rest) (omega int_laws)
                  (rw (charged, q, over) at e))
        ]
    | inr (inl (_, q)) ↦ cc (rw (charged, q) at e)
    | inr (inr q) ↦ cc (rw (charged, q) at e)
  ]
  | inr (free, f) ↦ rw (← ok-injective (rw free at e)) (omega int_laws)
]
