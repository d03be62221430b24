-- ===== src/Offerproto/Checked.antt =====
-- The checks of paynet/protos/offerproto/requesters.go on the offer that a query brings.
use fcr.Base.{
  String, ℕ, Bool, Result, ok, true, false, not, fail_if, ◌>>◌, ◌≡◌, refl, arith, nat_eq_iff,
  text_key, nat_eq, ◌==◌,
}
use fcr.Base.Int.{ℤ, pos, ltb_ℤ, ◌≤ℤ◌}
use fcr.Paymgr.Types.{PayOffer, Time}
use fcr.Offerproto.{check_received_offer, is_offer_price}

-- An offer for a route from `first` to `last` that pays for the amount.
pub record Fits (cur : ℕ) (first last : String) (amt : ℤ) (now : Time) (o : PayOffer) : Type 0 where
  pub same_currency : o.currency_id ≡ cur
  pub from_first : o.src_addr ≡ first
  pub to_last : o.dest_addr ≡ last
  pub has_price : is_offer_price o.ppp o.period ≡ true
  pub covers : amt ≤ℤ o.amt
  pub fresh : now ≤ℤ o.expiration

pub past {ℓ} :
    {A : Type ℓ} {a : A} (b : Bool) (e : String) (rest : Result A)
    → (fail_if b e >> rest) ≡ ok a
    → (b ≡ false) × (rest ≡ ok a)
past true e rest h = cc
past false e rest h = (refl, h)

past_last : (b : Bool) (e : String) → fail_if b e ≡ ok tt → b ≡ false
past_last true e h = cc
past_last false e h = refl

pub not-false : (b : Bool) → not b ≡ false → b ≡ true
not-false true h = refl
not-false false h = ground arith

ge : (a b : ℤ) → ltb_ℤ a b ≡ false → b ≤ℤ a
ge a b h = ground arith

is_offer_price-nonneg :
    (p q : ℤ) → is_offer_price p q ≡ true → (ltb_ℤ p (pos 0) ≡ false) × (ltb_ℤ q (pos 0) ≡ false)
is_offer_price-nonneg p q h = (ground arith, ground arith)

pub check_received_offer-Fits :
    (cur : ℕ) (first last : String) (amt : ℤ) (now : Time) (o : PayOffer)
    → check_received_offer cur first last amt now o ≡ ok tt
    → Fits cur first last amt now o
unfolding check_received_offer
check_received_offer-Fits cur first last amt now o e =
    let (a, e₁) = past (not (nat_eq o.currency_id cur)) "Invalid offer, currency id" _ e in
    let (b, e₂) = past (not (o.src_addr == first)) "Invalid offer, src addr" _ e₁ in
    let (c, e₃) = past (not (o.dest_addr == last)) "Invalid offer, dest addr" _ e₂ in
    let (d, e₄) = past (ltb_ℤ o.ppp (pos 0)) "Invalid offer, expect non-negative ppp" _ e₃ in
    let (f, e₅) = past (ltb_ℤ o.period (pos 0)) "Invalid offer, expect non-negative period" _ e₄ in
    let (g, e₆) =
      past (not (is_offer_price o.ppp o.period))
        "ppp and period must be either both 0 or both positive" _ e₅ in
    let (h, e₇) = past (ltb_ℤ o.amt amt) "Invalid offer, amount" _ e₆ in
    record {
      same_currency = (nat_eq_iff _ _).0 (not-false _ a);
      from_first = (text_key.beq_iff _ _).0 (not-false _ b);
      to_last = (text_key.beq_iff _ _).0 (not-false _ c);
      has_price = not-false _ g;
      covers = ge o.amt amt h;
      fresh =
          ge o.expiration now
            (past_last (ltb_ℤ o.expiration now) "Invalid offer, expiration in the past" e₇);
    }

pub Fits-check_received_offer :
    (cur : ℕ) (first last : String) (amt : ℤ) (now : Time) (o : PayOffer)
    → Fits cur first last amt now o
    → check_received_offer cur first last amt now o ≡ ok tt
unfolding check_received_offer
Fits-check_received_offer cur first last amt now o fits =
    let (p, q) = is_offer_price-nonneg o.ppp o.period fits.has_price in
    let a = (text_key.beq_iff _ _).1 fits.from_first in
    let b = (text_key.beq_iff _ _).1 fits.to_last in
    let n = (nat_eq_iff _ _).1 fits.same_currency in
    let c : ltb_ℤ o.amt amt ≡ false = ground (arith, fits.covers) in
    let f : ltb_ℤ o.expiration now ≡ false = ground (arith, fits.fresh) in
    rw (n, a, b, p, q, fits.has_price, c, f) refl
