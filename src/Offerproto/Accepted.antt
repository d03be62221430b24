-- ===== src/Offerproto/Accepted.antt =====
-- A query of paynet/protos/offerproto/requesters.go: which offers it returns, and that it returns the one that
-- the handler of handlers.go makes.
use mathlib.Core.Path.{subst}
use fcr.Base.{
  arith, String, ℕ, List, some, ◌∷◌, ok, true, not, ◌≡◌, refl, >>=-eq-ok, ap, sym, ok-injective,
  ◌∙◌,
}
use fcr.Base.Int.{ℤ, ◌+ℤ◌, ◌≤ℤ◌}
use fcr.Paymgr.Types.{PayOffer}
use fcr.Offerproto.Handlers.{OfferServices, HandledQuery, Reserved, make_offer, handle_query_offer}
use fcr.Offerproto.{
  Query, query_offer, accept_offer, open_query, check_received_offer, end_of, is_offer_price,
}
use fcr.Offerproto.Checked.{Fits, past, check_received_offer-Fits, Fits-check_received_offer}
use fcr.Offerproto.Served.{Offers, answered_offer}
use fcr.Fcroffer
use fcr.Fcroffer.{offer_fields, offer_shape, Json}
use fcr.Fcroffer.Survive.{ReadsBack, signed_pay_offer_survives}

-- The node that the offer names has signed it.
abbrev pub IsSigned : Query → PayOffer → Type 0
IsSigned c o =
    (d : String) × (Fcroffer.to_be_signed c.json o ≡ ok d)
    × (c.verify o.currency_id d o.signature_type o.signature o.src_addr ≡ ok tt)

-- The offer that a query returns is in the currency asked for, from the first node of the route to the last,
-- free of charge or at a positive price for a positive period, for at least the amount, not
-- expired, and signed by the first node.
pub queried_offer-Fits :
    (c : Query) (cur : ℕ) (first next : String) (rest : List String) (amt : ℤ) {o : PayOffer}
    → query_offer c cur (first ∷ next ∷ rest) amt ≡ ok o
    → Fits cur first (end_of next rest) amt c.now o × IsSigned c o
unfolding query_offer accept_offer
queried_offer-Fits c cur first next rest amt {o} e =
    let (u, a, e₁) = >>=-eq-ok (open_query c first) _ e in
    let (request, b, e₂) = >>=-eq-ok (c.marshal_query (first ∷ next ∷ rest) amt) _ e₁ in
    let (w, d, e₃) = >>=-eq-ok (c.send request) _ e₂ in
    let (response, f, e₄) = >>=-eq-ok (c.get_response request) _ e₃ in
    let (g, e₅) = past (not response.0) "Peer fail to process request" _ e₄ in
    let (o', h, e₆) = >>=-eq-ok (Fcroffer.decode c.json response.1) _ e₅ in
    let (signed, k, e₇) = >>=-eq-ok (Fcroffer.to_be_signed c.json o') _ e₆ in
    let (x, l, e₈) =
      >>=-eq-ok (c.verify o'.currency_id signed o'.signature_type o'.signature o'.src_addr) _ e₇ in
    let (y, m, e₉) =
      >>=-eq-ok (check_received_offer cur first (end_of next rest) amt c.now o') _ e₈ in
    let same : o' ≡ o = ok-injective e₉ in
    let fits : Fits cur first (end_of next rest) amt c.now o' × IsSigned c o' =
      (check_received_offer-Fits _ _ _ _ _ _ m, (signed, k, l)) in
    subst (λ (z : PayOffer). Fits cur first (end_of next rest) amt c.now z × IsSigned c z) same fits

accept_offer-accepts :
    (c : Query) (cur : ℕ) (first last : String) (amt : ℤ) (body : String) (o : PayOffer)
    → Fcroffer.decode c.json body ≡ ok o
    → Fits cur first last amt c.now o
    → IsSigned c o
    → accept_offer c cur first last amt (true, body) ≡ ok o
unfolding accept_offer
accept_offer-accepts c cur first last amt body o d fits (raw, s, k) =
    rw (d, s, k, Fits-check_received_offer cur first last amt c.now o fits) refl

second_third :
    {a a' b b' : String} {l l' : List String} → (a ∷ b ∷ l) ≡ (a' ∷ b' ∷ l') → (b ≡ b') × (l ≡ l')
second_third e = (cc, cc)

-- A query returns the offer that the handler of the first node makes, with the channel, the id and the price of the
-- reservation that the handler keeps, for the amount asked for. The two ends use the same JSON,
-- which reads back what it wrote; the requester reaches the first node and gets the handler's
-- answer; a signature of that node verifies; and the requester's checks of the price and
-- the time let the reservation through.
pub honest_offer_accepted :
    (c : Query) (v : OfferServices) {h : HandledQuery} (cur : ℕ) (from_addr first next : String)
    (rest : List String) (amt : ℤ) (request body : String)
    → handle_query_offer v ≡ some h
    → h.response ≡ some (true, body)
    → v.request_in ≡ ok (cur, from_addr, first)
    → v.receive_data ≡ ok request
    → v.unmarshal_query request ≡ ok (first ∷ next ∷ rest, amt)
    → open_query c first ≡ ok tt
    → c.marshal_query (first ∷ next ∷ rest) amt ≡ ok request
    → c.send request ≡ ok tt
    → c.get_response request ≡ ok (true, body)
    → v.json ≡ c.json
    → ((o : PayOffer)
        → Fcroffer.encode c.json o ≡ ok body
        → ReadsBack c.json (offer_fields o) offer_shape)
    → ((d : String) (s : ℕ × List ℕ) → v.sign cur d ≡ ok s → c.verify cur d s.0 s.1 first ≡ ok tt)
    → ((r : Reserved) → h.reserved ≡ some r → is_offer_price r.ppp r.period ≡ true)
    → c.now ≤ℤ v.now +ℤ v.offer_expiry
    → (o : PayOffer) × (r : Reserved) × (query_offer c cur (first ∷ next ∷ rest) amt ≡ ok o)
      × (h.reserved ≡ some r)
      × (o.res_to ≡ next)
      × (o.res_ch ≡ r.res_ch)
      × (o.res_id ≡ r.res_id)
      × (o.ppp ≡ r.ppp)
      × (o.period ≡ r.period)
      × (o.amt ≡ amt)
unfolding query_offer make_offer Fcroffer.add_signature
honest_offer_accepted c v {h} cur from_addr first next rest amt request body e success came received
      decoded opens asks sends gets same_json reads_offer verifies price in_time =
    let w : Offers v h body = answered_offer v body e success in
    let who = ok-injective (sym w.came ∙ came) in
    let cur_eq : w.cur ≡ cur = ap (λ (x : ℕ × String × String). x.0) who in
    let to_eq : w.to_addr ≡ first = ap (λ (x : ℕ × String × String). x.2) who in
    let raw_eq : w.raw ≡ request = ok-injective (sym w.received ∙ received) in
    let asks_eq = ok-injective (sym decoded ∙ rw raw_eq at w.decoded) in
    let (next_eq, rest_eq) = second_third (ap (λ (x : List String × ℤ). x.0) asks_eq) in
    let amt_eq : amt ≡ w.amt = ap (λ (x : List String × ℤ). x.1) asks_eq in
    let s = w.is_signed.signature_of in
    let raw = w.is_signed.signing in
    let o : PayOffer = Fcroffer.add_signature s.0 s.1 w.unsigned in
    let k : Fcroffer.encode c.json o ≡ ok body =
      subst (λ j. Fcroffer.encode j o ≡ ok body) same_json w.is_signed.is_body in
    let b : Fcroffer.to_be_signed c.json w.unsigned ≡ ok raw =
      subst (λ j. Fcroffer.to_be_signed j w.unsigned ≡ ok raw) same_json w.is_signed.is_signing in
    let (d, same) = signed_pay_offer_survives c.json w.unsigned s.0 s.1 body (reads_offer o k) k in
    let made = w.is_for in
    let currency : o.currency_id ≡ cur = made.in_currency ∙ cur_eq in
    let source : o.src_addr ≡ first = made.from_node ∙ to_eq in
    let whole : o.amt ≡ amt = made.of_amt ∙ sym amt_eq in
    let fits : Fits cur first (end_of next rest) amt c.now o = record {
      same_currency = currency;
      from_first = source;
      to_last = made.to_end ∙ rw (next_eq, rest_eq) refl;
      has_price = rw (made.at_ppp, made.at_period) (price w.granted w.keeps);
      covers = ground (arith, whole);
      fresh = rw made.until in_time;
    } in
    let verified : c.verify o.currency_id raw s.0 s.1 o.src_addr ≡ ok tt =
      rw (currency, source) (verifies raw s (rw cur_eq at w.is_signed.is_signature)) in
    let signed : IsSigned c o = (raw, same ∙ b, verified) in
    let answer = accept_offer-accepts c cur first (end_of next rest) amt body o d fits signed in
    (
      o,
      w.granted,
      rw (opens, asks, sends, gets) answer,
      w.keeps,
      made.to_next ∙ sym next_eq,
      made.in_channel,
      made.of_id,
      made.at_ppp,
      made.at_period,
      whole,
    )
