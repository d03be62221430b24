-- ===== src/Offerproto/Relay.antt =====
-- What the previous hop makes of the price that Reserve of paymgr/paymentmgr_impl.go asks of it, in QueryOffer
-- of paynet/protos/offerproto/requesters.go.
use fcr.Base.{
  ℕ, String, List, ◌∷◌, ◌≡◌, ok, some, true, arith, ◌<◌, ◌+◌, ◌⊎◌, inl, inr, ◌∙◌, sym, ap,
  some-injective,
}
use fcr.Base.Int.{ℤ, pos}
use fcr.Paymgr.Price.{Rate}
use fcr.Paymgr.Price.Periods.{rate}
use fcr.Paymgr.Price.RoundTrip.{IsRate}
use fcr.Paymgr.Reserve.{inbound_rate}
use fcr.Paymgr.Relay.{shorter, inbound_rate-shorter}
use fcr.Paymgr.Types.{PayOffer}
use fcr.Offerproto.{Query, query_offer, is_offer_price}
use fcr.Offerproto.Accepted.{queried_offer-Fits}

price_needed :
    (own own_period p d : ℕ)
    → IsRate own own_period
    → is_offer_price (pos (own + p)) (pos (shorter d own_period)) ≡ true
    → (0 < own) ⊎ (p ≡ 0)
price_needed own own_period p d (inl (free, none)) h = inr (ground arith)
price_needed own own_period p d (inr (priced, some_period)) h = inl priced

price_fine :
    (own own_period p d : ℕ)
    → IsRate own own_period
    → IsRate p d
    → (0 < own) ⊎ (p ≡ 0)
    → is_offer_price (pos (own + p)) (pos (shorter d own_period)) ≡ true
price_fine own own_period p d valid next h = ground arith

-- The rates of the channel and of the next hop's offer are valid, and an offer has the price and period that
-- Reserve makes of them. If QueryOffer of the previous hop returns that offer, then the channel is not served for
-- nothing or the next hop is; and if that is so, QueryOffer's test of price and period lets the
-- offer through. So a channel that is served for nothing relays no offer that costs something.
pub relayed_offer_price :
    (own own_period p d : ℕ) (r : Rate) (o : PayOffer)
    → IsRate own own_period
    → IsRate p d
    → inbound_rate true (rate p d) (rate own own_period) ≡ some r
    → o.ppp ≡ r.ppp
    → o.period ≡ r.period
    → ((c : Query) (cur : ℕ) (first next : String) (rest : List String) (amt : ℤ)
        → query_offer c cur (first ∷ next ∷ rest) amt ≡ ok o
        → (0 < own) ⊎ (p ≡ 0))
      × ((0 < own) ⊎ (p ≡ 0) → is_offer_price o.ppp o.period ≡ true)
relayed_offer_price own own_period p d r o valid next asked price period =
    let same = some-injective (sym asked ∙ inbound_rate-shorter own own_period p d valid) in
    let at_price : o.ppp ≡ pos (own + p) = price ∙ ap (λ (x : Rate). x.ppp) same in
    let at_period : o.period ≡ pos (shorter d own_period) =
      period ∙ ap (λ (x : Rate). x.period) same in
    (
      λ c cur first next rest amt e.
          let (fits, signed) = queried_offer-Fits c cur first next rest amt e in
          price_needed own own_period p d valid (rw (at_price, at_period) at fits.has_price),
      λ h. rw (at_price, at_period) (price_fine own own_period p d valid next h),
    )
