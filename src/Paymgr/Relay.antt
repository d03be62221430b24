-- ===== src/Paymgr/Relay.antt =====
-- What a relaying peer asks of the previous hop: the inbound price that Reserve of
-- paymgr/paymentmgr_impl.go puts together from the channel's own price and the next hop's.
use native.Mathlib.Nat.{mul-le-mul_right, mul-le-mul_left}
use fcr.Base.{
  arith, ℕ, ◌<◌, ◌≤◌, ◌+◌, inl, ap, ◌*◌, inr, ◌≡◌, ◌⊎◌, true, some, ◌&&◌, sym, ◌∙◌, if◌then◌else◌,
  ltb, dec_le, suc,
}
use fcr.Paymgr.Price.RoundTrip.{Settled, IsRate}
use fcr.Paymgr.Reserve.{inbound_rate, is_rate}
use fcr.Paymgr.Price.Periods.{rate, Starts}
use fcr.Base.Int.{pos-add}

-- Longer periods are fewer.
Starts-antitone : (d e x k j : ℕ) → 0 < e → e ≤ d → Starts e x k → Starts d x j → j ≤ k
Starts-antitone d e x k j h le s t = elim (dec_le j k) [
  | yes fewer ↦ fewer
  | no more ↦
      let above : suc k ≤ j = omega arith in
      absurd (omega (arith, s.covers, t.last_used, mul-le-mul_right d above, mul-le-mul_left k le))
]

-- The surcharge of the previous hop's totals is no less than that of the next hop's.
surcharge_covers :
    (own p d x s t e : ℕ) → 0 < e → e ≤ d → Settled (own + p) e x s → Settled p d x t → t ≤ s
surcharge_covers own p d x s t e h le a b = elim b.used [
  | inl free ↦ omega (arith, b.charged, ap (λ (q : ℕ). b.started * q) free)
  | inr v ↦ elim a.used [
    | inl free ↦
        let none_asked : p ≡ 0 = omega arith in
        omega (arith, b.charged, ap (λ (q : ℕ). b.started * q) none_asked)
    | inr u ↦
        let more = Starts-antitone d e x a.started b.started h le u v in
        omega (arith, a.charged, b.charged, mul-le-mul_right p more)
  ]
]

-- The shorter of the two periods, where the next hop has one.
abbrev pub shorter : ℕ → ℕ → ℕ
shorter d own_period = if ltb 0 d && ltb d own_period then d else own_period

pub inbound_rate-shorter :
    (own own_period p d : ℕ)
    → IsRate own own_period
    → inbound_rate true (rate p d) (rate own own_period)
      ≡ some (rate (own + p) (shorter d own_period))
unfolding inbound_rate is_rate
inbound_rate-shorter own own_period p d valid = rw (pos-add own p) (ground arith)

-- If the channel's rate and the next hop's are valid, and the channel has a price or the next hop has
-- none, then the inbound rate is the sum of both prices for some period, and is valid again.
inbound_rate_valid :
    (own own_period p d : ℕ)
    → IsRate own own_period
    → IsRate p d
    → (0 < own) ⊎ (p ≡ 0)
    → (period : ℕ) × (inbound_rate true (rate p d) (rate own own_period)
        ≡ some (rate (own + p) period))
      × IsRate (own + p) period
inbound_rate_valid own own_period p d valid next priced =
    (shorter d own_period, inbound_rate-shorter own own_period p d valid, ground arith)

-- If both rates are valid and there is an inbound rate, then for every petty amount, what a relaying peer charges for the periods that the amount starts at its
-- inbound rate is at least what the next hop charges it for the same amount.
pub inbound_rate_covers :
    (own own_period p d period x s t : ℕ)
    → IsRate own own_period
    → IsRate p d
    → inbound_rate true (rate p d) (rate own own_period) ≡ some (rate (own + p) period)
    → Settled (own + p) period x s
    → Settled p d x t
    → t ≤ s
inbound_rate_covers own own_period p d period x s t valid next asked a b =
    let e : period ≡ shorter d own_period =
      same_period (sym asked ∙ inbound_rate-shorter own own_period p d valid) in
    elim next [
      | inl free ↦ omega (arith, b.charged, ap (λ (q : ℕ). b.started * q) free.0)
      | inr priced ↦ elim valid [
        | inl gratis ↦ elim a.used [
          | inl none_asked ↦ absurd (omega arith)
          | inr u ↦ absurd (ground (arith, ap (λ (q : ℕ). a.started * q) e, u.covers, u.last_used))
        ]
        | inr own_price ↦ surcharge_covers own p d x s t period (ground arith) (ground arith) a b
      ]
    ]
  where
    same_period : {k : ℕ} → some (rate (own + p) period) ≡ some (rate (own + p) k) → period ≡ k
    same_period h = ground arith
