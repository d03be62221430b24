-- ===== src/Offerproto/Examples.antt =====
-- The theorems on paynet/protos/offerproto/ at work: "alice" asks "bob" for an offer for a payment of two to
-- "carol".
use fcr.Base.{
  ◌<◌, ◌⊎◌, inl, inr, String, ℕ, Bool, Result, List, [], ◌∷◌, ok, err, true, false, some, ◌≡◌, refl,
  text_key, ◌==◌, ◌&&◌, nat_eq, if◌then◌else◌, arith, ok-injective, some-injective,
}
use fcr.Base.Int.{ℤ, pos, eqb_ℤ, ◌+ℤ◌, ◌≤ℤ◌}
use fcr.Paymgr.Types.{PayOffer}
use fcr.Fcroffer.{
  Json, Object, offer_fields, offer_shape, read_fields, number_at, text_at, big_at, bytes_at,
  moment_at, span_at, add_signature, encode, decode, to_be_signed,
}
use fcr.Fcroffer.Survive.{ReadsBack}
use fcr.Offerproto.{
  Query, query_offer, open_query, accept_offer, check_received_offer, end_of, is_offer_price,
}
use fcr.Offerproto.Handlers.{
  OfferServices, HandledQuery, Reserved, handle_query_offer, read_query, check_route, admit_asker,
  reserve_for, make_offer, sign_offer,
}
use fcr.Offerproto.Checked.{Fits}
use fcr.Offerproto.Served.{Offers, answered_offer}
use fcr.Offerproto.Accepted.{IsSigned, queried_offer-Fits, honest_offer_accepted}
use fcr.Routestore.Table.{length}
use fcr.Offerproto.Relay.{relayed_offer_price}
use fcr.Paymgr.Reserve.{inbound_rate, is_rate}
use fcr.Paymgr.Price.Periods.{rate}

abbrev offer : PayOffer
offer = record {
  currency_id = 1;
  src_addr = "bob";
  dest_addr = "carol";
  ppp = pos 1;
  period = pos 4;
  amt = pos 2;
  expiration = pos 15;
  inactivity = pos 3;
  res_to = "carol";
  res_ch = "ch";
  res_id = 9;
  nonce = 7;
  signature_type = 1;
  signature = [];
}

abbrev no_bytes : List ℕ → Bool
no_bytes [] = true
no_bytes (b ∷ bs) = false

-- Whether an object is that of the offer.
abbrev is_offer : PayOffer → Bool
is_offer o =
    nat_eq o.currency_id 1
    && (o.src_addr == "bob")
    && (o.dest_addr == "carol")
    && eqb_ℤ o.ppp (pos 1)
    && eqb_ℤ o.period (pos 4)
    && eqb_ℤ o.amt (pos 2)
    && eqb_ℤ o.expiration (pos 15)
    && eqb_ℤ o.inactivity (pos 3)
    && (o.res_to == "carol")
    && (o.res_ch == "ch")
    && nat_eq o.res_id 9
    && nat_eq o.nonce 7
    && nat_eq o.signature_type 1
    && no_bytes o.signature

abbrev read_offer : Object → PayOffer
read_offer o = record {
  currency_id = number_at "currency_id" o;
  src_addr = text_at "src_addr" o;
  dest_addr = text_at "dest_addr" o;
  ppp = big_at "ppp" o;
  period = big_at "period" o;
  amt = big_at "amt" o;
  expiration = moment_at "expiration" o;
  inactivity = span_at "inactivity" o;
  res_to = text_at "res_to" o;
  res_ch = text_at "res_ch" o;
  res_id = number_at "res_id" o;
  nonce = number_at "nonce" o;
  signature_type = number_at "signature_type" o;
  signature = bytes_at "signature" o;
}

abbrev wire : Json
wire = record {
  marshal = λ o. if is_offer (read_offer o) then ok "offer" else ok "data";
  unmarshal = λ shape d. ok (read_fields shape (offer_fields offer));
}

eqb_ℤ-eq : (a b : ℤ) → eqb_ℤ a b ≡ true → a ≡ b
eqb_ℤ-eq a b e = ground arith

no_bytes-eq : (b : List ℕ) → no_bytes b ≡ true → b ≡ []
no_bytes-eq [] e = refl
no_bytes-eq (b ∷ bs) e = absurd (ground arith)

offer_fields-eq : (o : PayOffer) → is_offer o ≡ true → offer_fields o ≡ offer_fields offer
unfolding offer_fields
offer_fields-eq o e = ground (
  arith,
  text_key.beq_iff o.src_addr "bob",
  text_key.beq_iff o.dest_addr "carol",
  text_key.beq_iff o.res_to "carol",
  text_key.beq_iff o.res_ch "ch",
  eqb_ℤ-eq o.ppp (pos 1),
  eqb_ℤ-eq o.period (pos 4),
  eqb_ℤ-eq o.amt (pos 2),
  eqb_ℤ-eq o.expiration (pos 15),
  eqb_ℤ-eq o.inactivity (pos 3),
  no_bytes-eq o.signature,
)

offered :
    (b : Bool)
    → ◌≡◌ {A = Result String} (if b then ok "offer" else ok "data") (ok "offer")
    → b ≡ true
offered true e = refl
offered false e =
    let d : "data" ≡ "offer" = ok-injective e in
    let b : false ≡ true = (text_key.beq_iff "data" "offer").1 d in absurd (ground arith)

is_offer-written : (o : PayOffer) → encode wire o ≡ ok "offer" → is_offer o ≡ true
unfolding encode offer_fields
is_offer-written o e = offered (is_offer o) e

reads_offer :
    (o : PayOffer) → encode wire o ≡ ok "offer" → ReadsBack wire (offer_fields o) offer_shape
reads_offer o e d w = rw (offer_fields-eq o (is_offer-written o e)) refl

abbrev services : OfferServices
services = record {
  json = wire;
  request_in = ok (1, "alice", "bob");
  receive_data = ok "ask";
  has_peer = ok true;
  is_blocked = ok false;
  add_peer = ok tt;
  unmarshal_query = λ raw. ok ("bob" ∷ "carol" ∷ [], pos 2);
  max_hop = λ cur. ok 4;
  list_servings = λ cur next. ok true;
  get_nonce = ok 7;
  now = pos 10;
  offer_expiry = pos 5;
  offer_inactivity = pos 3;
  reserve_final = λ cur next amt until inactivity from_addr.
      ok (record { ppp = pos 1; period = pos 4; res_ch = "ch"; res_id = 9 });
  query_next = λ cur route amt. err "not asked";
  reserve_intermediate = λ o from_addr. err "not asked";
  sign = λ cur raw. ok (1, []);
}

abbrev query : Query
query = record {
  json = wire;
  has_peer = λ to_addr. ok true;
  is_blocked = λ to_addr. ok false;
  connect_to_peer = λ to_addr. ok tt;
  new_stream = ok tt;
  new_request_out = ok tt;
  marshal_query = λ route amt. ok "ask";
  send = λ raw. ok tt;
  get_response = λ raw. ok (true, "offer");
  verify = λ cur raw sig_type signature signer.
      if signer == "bob" then ok tt else err "signature is not valid";
  now = pos 12;
}

abbrev handled : HandledQuery
handled = record {
  response = some (true, "offer");
  reserved = some (record { ppp = pos 1; period = pos 4; res_ch = "ch"; res_id = 9 });
}

handles : handle_query_offer services ≡ some handled
unfolding handle_query_offer read_query check_route admit_asker reserve_for make_offer sign_offer
    length end_of encode to_be_signed add_signature offer_fields ◌+ℤ◌
handles = refl

queries : query_offer query 1 ("bob" ∷ "carol" ∷ []) (pos 2) ≡ ok offer
unfolding query_offer open_query accept_offer check_received_offer decode to_be_signed read_fields
    offer_shape offer_fields end_of
queries = refl

opens : open_query query "bob" ≡ ok tt
unfolding open_query
opens = refl

in_time : pos 12 ≤ℤ pos 10 +ℤ pos 5
unfolding ◌+ℤ◌
in_time = ground arith

price_kept : (r : Reserved) → handled.reserved ≡ some r → is_offer_price r.ppp r.period ≡ true
price_kept r e = rw⁻¹ (some-injective e) refl

answered_offer_example : Offers services handled "offer"
answered_offer_example = answered_offer services "offer" handles refl

queried_offer-Fits_example :
    Fits 1 "bob" (end_of "carol" []) (pos 2) (pos 12) offer × IsSigned query offer
queried_offer-Fits_example = queried_offer-Fits query 1 "bob" "carol" [] (pos 2) queries

honest_offer_accepted_example :
    (o : PayOffer) × (r : Reserved) × (query_offer query 1 ("bob" ∷ "carol" ∷ []) (pos 2) ≡ ok o)
    × (handled.reserved ≡ some r)
    × (o.res_to ≡ "carol")
    × (o.res_ch ≡ r.res_ch)
    × (o.res_id ≡ r.res_id)
    × (o.ppp ≡ r.ppp)
    × (o.period ≡ r.period)
    × (o.amt ≡ pos 2)
honest_offer_accepted_example =
    honest_offer_accepted query services 1 "alice" "bob" "carol" [] (pos 2) "ask" "offer" handles
      refl refl refl refl opens refl refl refl refl reads_offer (λ d s e. refl) price_kept in_time

asked : inbound_rate true (rate 0 0) (rate 1 4) ≡ some (rate 1 4)
unfolding inbound_rate is_rate ◌+ℤ◌
asked = refl

relayed_offer_price_example :
    ((c : Query) (cur : ℕ) (first next : String) (rest : List String) (amt : ℤ)
      → query_offer c cur (first ∷ next ∷ rest) amt ≡ ok offer
      → (0 < 1) ⊎ (◌≡◌ {A = ℕ} 0 0))
    × ((0 < 1) ⊎ (◌≡◌ {A = ℕ} 0 0) → is_offer_price offer.ppp offer.period ≡ true)
relayed_offer_price_example =
    relayed_offer_price 1 4 0 0 (rate 1 4) offer (inr (omega arith, omega arith)) (inl (refl, refl))
      asked refl refl
