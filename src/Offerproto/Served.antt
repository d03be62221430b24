-- ===== src/Offerproto/Served.antt =====
-- What a handler of paynet/protos/offerproto/handlers.go has done where it answers with an offer.
use fcr.Base.{
  ◌≢◌, String, ℕ, Bool, List, some, [], ◌∷◌, ok, true, false, not, ◌≡◌, refl, arith, text_key, ◌==◌,
  ltb, >>=-eq-ok, ap, sym, ok-injective, ◌≤◌, ◌∙◌, Option, some-injective, Result-cases, inr, inl,
}
use fcr.Base.Int.{ℤ, ◌+ℤ◌}
use fcr.Offerproto.Handlers.{
  OfferServices, HandledQuery, Asked, Reserved, check_route, read_query, admit_asker, reserve_for,
  sign_offer, make_offer, handle_query_offer,
}
use fcr.Offerproto.Checked.{past, not-false}
use fcr.Fcroffer
use fcr.Offerproto.{end_of}
use fcr.Paymgr.Types.{PayOffer}
use fcr.Payproto.Handlers.{or_answer}
use fcr.Payproto.Handled.{or_answer-ok}
use fcr.Routestore.Table.{length}

-- The route of a request starts at this node, is not too long and goes to a node that is served.
pub record Serves (v : OfferServices) (cur : ℕ) (to_addr : String) (route : List String) (amt : ℤ)
    (q : Asked) : Type 0 where
  pub from_here : route ≡ to_addr ∷ q.next ∷ q.rest
  pub for_amt : amt ≡ q.amt
  pub short : (max : ℕ) × (v.max_hop cur ≡ ok max) × (length route ≤ max)
  pub next_served : v.list_servings cur q.next ≡ ok true
  pub own_nonce : v.get_nonce ≡ ok q.nonce

not_longer : (a b : ℕ) → ltb a b ≡ false → b ≤ a
not_longer a b h = ground arith

check_route-Serves :
    (v : OfferServices) (cur : ℕ) (to_addr : String) (route : List String) (amt : ℤ) {q : Asked}
    → check_route v cur to_addr (route, amt) ≡ ok q
    → Serves v cur to_addr route amt q
unfolding check_route
check_route-Serves v cur to_addr [] amt e = cc
check_route-Serves v cur to_addr (only ∷ []) amt e = cc
check_route-Serves v cur to_addr (first ∷ next ∷ rest) amt {q} e =
    let (max, a, e₁) = >>=-eq-ok (or_answer (v.max_hop cur) "Internal error") _ e in
    let (b, e₂) =
      past (ltb max (length (first ∷ next ∷ rest))) "Route too long, not supported" _ e₁ in
    let (c, e₃) = past (not (first == to_addr)) "Invalid route received" _ e₂ in
    let (served, d, e₄) = >>=-eq-ok (or_answer (v.list_servings cur next) "Internal error") _ e₃ in
    let (f, e₅) = past (not served) "No active serving found for route" _ e₄ in
    let (n, g, e₆) = >>=-eq-ok (or_answer v.get_nonce "Internal error") _ e₅ in
    let same = ok-injective e₆ in
    let here : first ≡ to_addr = (text_key.beq_iff _ _).0 (not-false (first == to_addr) c) in
    let n_eq : next ≡ q.next = ap (λ (x : Asked). x.next) same in
    let r_eq : rest ≡ q.rest = ap (λ (x : Asked). x.rest) same in
    record {
      from_here = rw (here, n_eq, r_eq) refl;
      for_amt = ap (λ (x : Asked). x.amt) same;
      short = (max, or_answer-ok _ _ a, not_longer _ _ b);
      next_served =
          rw (sym n_eq) (or_answer-ok _ _ d ∙ ap (λ (x : Bool). ok x) (not-false served f));
      own_nonce = or_answer-ok _ _ g ∙ ap (λ (x : Asked). ok x.nonce) same;
    }

read_query-Serves :
    (v : OfferServices) (cur : ℕ) (to_addr : String) {q : Asked}
    → read_query v cur to_addr ≡ ok q
    → (raw : String) × (asks : List String × ℤ) × (v.receive_data ≡ ok raw)
      × (v.unmarshal_query raw ≡ ok asks)
      × Serves v cur to_addr asks.0 asks.1 q
unfolding read_query
read_query-Serves v cur to_addr e =
    let (raw, a, e₁) = >>=-eq-ok (or_answer v.receive_data "") _ e in
    let (u, b, e₂) = >>=-eq-ok (admit_asker v) _ e₁ in
    let (asks, c, e₃) =
      >>=-eq-ok (or_answer (v.unmarshal_query raw) "Fail to decode request") _ e₂ in
    (
      raw,
      asks,
      or_answer-ok _ _ a,
      or_answer-ok _ _ c,
      check_route-Serves v cur to_addr asks.0 asks.1 e₃,
    )

-- How a node comes to a reservation for the amount of a request: the last one before the recipient reserves that
-- amount until the offer's end, one on the way reserves by the offer that the next node gave for it.
pub data Grants (v : OfferServices) (cur : ℕ) (from_addr next : String) (rest : List String)
    (amt : ℤ) (r : Reserved) : Type 0 where
  by_amount :
      rest ≡ []
      → v.reserve_final cur next amt (v.now +ℤ v.offer_expiry) v.offer_inactivity from_addr ≡ ok r
      → Grants v cur from_addr next rest amt r
  by_offer :
      (o : PayOffer)
      → rest ≢ []
      → v.query_next cur (next ∷ rest) amt ≡ ok o
      → v.reserve_intermediate o from_addr ≡ ok r
      → Grants v cur from_addr next rest amt r

-- An offer for a route and an amount, at the price and in the channel of a reservation.
pub record IsFor (v : OfferServices) (cur : ℕ) (to_addr next : String) (rest : List String)
    (amt : ℤ) (r : Reserved) (o : PayOffer) : Type 0 where
  pub in_currency : o.currency_id ≡ cur
  pub from_node : o.src_addr ≡ to_addr
  pub to_end : o.dest_addr ≡ end_of next rest
  pub to_next : o.res_to ≡ next
  pub of_amt : o.amt ≡ amt
  pub at_ppp : o.ppp ≡ r.ppp
  pub at_period : o.period ≡ r.period
  pub in_channel : o.res_ch ≡ r.res_ch
  pub of_id : o.res_id ≡ r.res_id
  pub new_nonce : v.get_nonce ≡ ok o.nonce
  pub until : o.expiration ≡ v.now +ℤ v.offer_expiry
  pub idle : o.inactivity ≡ v.offer_inactivity

-- The text is an offer with this node's signature on its signing data.
pub record IsSignedAs (v : OfferServices) (cur : ℕ) (o : PayOffer) (body : String) : Type 0 where
  pub signing : String
  pub signature_of : ℕ × List ℕ
  pub is_signing : Fcroffer.to_be_signed v.json o ≡ ok signing
  pub is_signature : v.sign cur signing ≡ ok signature_of
  pub is_body :
      Fcroffer.encode v.json (Fcroffer.add_signature signature_of.0 signature_of.1 o) ≡ ok body

reserve_for-Grants :
    (v : OfferServices) (cur : ℕ) (from_addr : String) (q : Asked) {r : Reserved}
    → reserve_for v cur from_addr q ≡ ok r
    → Grants v cur from_addr q.next q.rest q.amt r
unfolding reserve_for
reserve_for-Grants v cur from_addr q {r} e = go q.rest refl
  where
    go : (rest : List String) → q.rest ≡ rest → Grants v cur from_addr q.next q.rest q.amt r
    go [] none_left = by_amount none_left (or_answer-ok _ _ (rw (reserve_for, none_left) at e))
    go (x ∷ xs) more =
        let (o, a, b) =
          >>=-eq-ok
            (or_answer (v.query_next cur (q.next ∷ q.rest) q.amt)
              "Error query offer from next node in route")
            _ (rw (reserve_for, more) at e) in
        by_offer o (λ nil. cc (sym more ∙ nil)) (or_answer-ok _ _ a) (or_answer-ok _ _ b)

sign_offer-IsSignedAs :
    (v : OfferServices) (cur : ℕ) (o : PayOffer) {body : String}
    → sign_offer v cur o ≡ ok body
    → IsSignedAs v cur o body
unfolding sign_offer
sign_offer-IsSignedAs v cur o e =
    let (raw, a, e₁) =
      >>=-eq-ok (or_answer (Fcroffer.to_be_signed v.json o) "Internal error") _ e in
    let (s, b, e₂) = >>=-eq-ok (or_answer (v.sign cur raw) "Internal error") _ e₁ in
    record {
      signing = raw;
      signature_of = s;
      is_signing = or_answer-ok _ _ a;
      is_signature = or_answer-ok _ _ b;
      is_body = or_answer-ok _ _ e₂;
    }

make_offer-IsFor :
    (v : OfferServices) (cur : ℕ) (to_addr : String) (q : Asked) (r : Reserved)
    → v.get_nonce ≡ ok q.nonce
    → IsFor v cur to_addr q.next q.rest q.amt r (make_offer v cur to_addr q r)
unfolding make_offer
make_offer-IsFor v cur to_addr q r n = record {
  in_currency = refl;
  from_node = refl;
  to_end = refl;
  to_next = refl;
  of_amt = refl;
  at_ppp = refl;
  at_period = refl;
  in_channel = refl;
  of_id = refl;
  new_nonce = n;
  until = refl;
  idle = refl;
}

-- An answer that is an offer.
pub record Offers (v : OfferServices) (h : HandledQuery) (body : String) : Type 0 where
  pub cur : ℕ
  pub from_addr : String
  pub to_addr : String
  pub next : String
  pub rest : List String
  pub amt : ℤ
  pub granted : Reserved
  pub unsigned : PayOffer
  pub raw : String
  pub max : ℕ
  pub came : v.request_in ≡ ok (cur, from_addr, to_addr)
  pub received : v.receive_data ≡ ok raw
  pub decoded : v.unmarshal_query raw ≡ ok (to_addr ∷ next ∷ rest, amt)
  pub has_max : v.max_hop cur ≡ ok max
  pub short : length (to_addr ∷ next ∷ rest) ≤ max
  pub next_served : v.list_servings cur next ≡ ok true
  pub grants : Grants v cur from_addr next rest amt granted
  pub keeps : h.reserved ≡ some granted
  pub is_for : IsFor v cur to_addr next rest amt granted unsigned
  pub is_signed : IsSignedAs v cur unsigned body

abbrev Response : Type 0
Response = Option (Bool × String)

no_success :
    {e body : String} {r : Option Reserved} {h : HandledQuery} {A : Type 0}
    → ◌≡◌ {A = Option HandledQuery}
        (some (record { response = some (false, e); reserved = r }))
        (some h)
    → h.response ≡ some (true, body)
    → A
no_success same success =
    let same' = ap (λ (x : HandledQuery). x.response) (some-injective same) ∙ success in
    let b : false ≡ true = ap (λ (x : Bool × String). x.0) (some-injective same') in
    absurd (ground arith)

decoded_query :
    (v : OfferServices) (raw : String) (asks : List String × ℤ) (route : List String) (amt : ℤ)
    → v.unmarshal_query raw ≡ ok asks
    → asks.0 ≡ route
    → asks.1 ≡ amt
    → v.unmarshal_query raw ≡ ok (route, amt)
decoded_query v raw asks route amt e f g = e ∙ rw (← f, ← g) refl

-- A handler that answers with an offer was asked for an amount over a route that starts at its own address, is no
-- longer than the node's maximum and goes on to a node that it serves. It keeps a reservation: for that amount
-- until the offer ends where the next node is the recipient, else by an offer that the next node gave for the
-- rest of the route and that amount. The answer is an offer of the whole amount from this node to the end of
-- the route, in the reservation's channel, under its id and at its price, with a nonce of the offer
-- manager, the node's own expiry and inactivity, and the node's signature on its signing data.
pub answered_offer :
    (v : OfferServices) (body : String) {h : HandledQuery}
    → handle_query_offer v ≡ some h
    → h.response ≡ some (true, body)
    → Offers v h body
unfolding handle_query_offer
answered_offer v body {h} e success = elim (Result-cases v.request_in) [
  | inr (inr p) ↦ cc (rw (handle_query_offer, p) at e)
  | inr (inl (x, p)) ↦
      let same =
        ap (λ (y : HandledQuery). y.response) (some-injective (rw (handle_query_offer, p) at e))
        ∙ success in
      cc same
  | inl ((cur, from_addr, to_addr), p) ↦ elim (Result-cases (read_query v cur to_addr)) [
    | inr (inr k) ↦ cc (rw (handle_query_offer, p, k) at e)
    | inr (inl (x, k)) ↦ no_success (rw (handle_query_offer, p, k) at e) success
    | inl (q, k) ↦ elim (Result-cases (reserve_for v cur from_addr q)) [
      | inr (inr l) ↦ cc (rw (handle_query_offer, p, k, l) at e)
      | inr (inl (x, l)) ↦ no_success (rw (handle_query_offer, p, k, l) at e) success
      | inl (r, l) ↦ elim (Result-cases (sign_offer v cur (make_offer v cur to_addr q r))) [
        | inr (inr m) ↦ cc (rw (handle_query_offer, p, k, l, m) at e)
        | inr (inl (x, m)) ↦ no_success (rw (handle_query_offer, p, k, l, m) at e) success
        | inl (b, m) ↦
            let same = some-injective (rw (handle_query_offer, p, k, l, m) at e) in
            let b_eq : b ≡ body =
              ap (λ (x : Bool × String). x.1)
                (some-injective (ap (λ (y : HandledQuery). y.response) same ∙ success)) in
            let (raw, asks, t, u, s) = read_query-Serves v cur to_addr k in
            record {
              cur = cur;
              from_addr = from_addr;
              to_addr = to_addr;
              next = q.next;
              rest = q.rest;
              amt = q.amt;
              granted = r;
              unsigned = make_offer v cur to_addr q r;
              raw = raw;
              max = s.short.0;
              came = p;
              received = t;
              decoded =
                  decoded_query v raw asks (to_addr ∷ q.next ∷ q.rest) q.amt u s.from_here
                    s.for_amt;
              has_max = s.short.1;
              short = rw s.from_here at s.short.2;
              next_served = s.next_served;
              grants = reserve_for-Grants v cur from_addr q l;
              keeps = ap (λ (y : HandledQuery). y.reserved) (sym same);
              is_for = make_offer-IsFor v cur to_addr q r s.own_nonce;
              is_signed =
                  sign_offer-IsSignedAs v cur (make_offer v cur to_addr q r)
                    (m ∙ ap (λ (x : String). ok x) b_eq);
            }
      ]
    ]
  ]
]
