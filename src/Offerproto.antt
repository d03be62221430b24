-- ===== src/Offerproto.antt =====
-- The query of a payment offer, paynet/protos/offerproto/requesters.go. What the other parts of the
-- node, the network and the signatures answer during one query is the record `Query`. The record that a
-- goroutine adds to the history of the peer after a query that succeeds is not modelled.
pub mod Handlers
pub mod Checked
pub mod Served
pub mod Accepted
pub mod Relay
mod Examples
use fcr.Base.{
  String, ℕ, Bool, Result, List, [], ◌∷◌, ok, err, panic, not, true, false, fail_if, ◌>>=◌, ◌>>◌,
  nat_eq, text_key, ◌==◌, if◌then◌else◌, ◌&&◌, ◌||◌,
}
use fcr.Base.Int.{ℤ, pos, ltb_ℤ, eqb_ℤ}
use fcr.Paymgr.Types.{PayOffer, Time}
use fcr.Fcroffer
use fcr.Fcroffer.{Json}
use fcr.Routestore.Table.{length}

-- `route[len(route)-1]`
pub end_of : String → List String → String
end_of first [] = first
end_of first (next ∷ rest) = end_of next rest

-- The price of an offer: nothing for ever, or something for a period.
abbrev pub is_offer_price : ℤ → ℤ → Bool
is_offer_price ppp period =
    (eqb_ℤ ppp (pos 0) && eqb_ℤ period (pos 0)) || (ltb_ℤ (pos 0) ppp && ltb_ℤ (pos 0) period)

-- The checks on an offer that has been verified.
pub check_received_offer : ℕ → String → String → ℤ → Time → PayOffer → Result (Unit {0})
check_received_offer cur first last amt now o = do
  fail_if (not (nat_eq o.currency_id cur)) "Invalid offer, currency id"
  fail_if (not (o.src_addr == first)) "Invalid offer, src addr"
  fail_if (not (o.dest_addr == last)) "Invalid offer, dest addr"
  fail_if (ltb_ℤ o.ppp (pos 0)) "Invalid offer, expect non-negative ppp"
  fail_if (ltb_ℤ o.period (pos 0)) "Invalid offer, expect non-negative period"
  fail_if (not (is_offer_price o.ppp o.period))
      "ppp and period must be either both 0 or both positive"
  fail_if (ltb_ℤ o.amt amt) "Invalid offer, amount"
  fail_if (ltb_ℤ o.expiration now) "Invalid offer, expiration in the past"

pub record Query : Type 0 where
  pub json : Json
  pub has_peer : String → Result Bool
  pub is_blocked : String → Result Bool
  pub connect_to_peer : String → Result (Unit {0})
  pub new_stream : Result (Unit {0})
  pub new_request_out : Result (Unit {0})
  pub marshal_query : List String → ℤ → Result String
  pub send : String → Result (Unit {0})
  pub get_response : String → Result (Bool × String)
  pub verify : ℕ → String → ℕ → List ℕ → String → Result (Unit {0})
  pub now : Time

-- To the peer, if it is not blocked.
pub open_query : Query → String → Result (Unit {0})
open_query c to_addr = do
  exists ← c.has_peer to_addr
  (if exists
      then c.is_blocked to_addr >>= (λ blocked. fail_if blocked "peer has been blocked")
      else ok tt)
  c.connect_to_peer to_addr
  c.new_stream
  c.new_request_out

-- The response to a query, and the offer in it.
pub accept_offer : Query → ℕ → String → String → ℤ → Bool × String → Result PayOffer
accept_offer c cur first last amt response = do
  fail_if (not response.0) "Peer fail to process request"
  o ← Fcroffer.decode c.json response.1
  signed ← Fcroffer.to_be_signed c.json o
  c.verify o.currency_id signed o.signature_type o.signature o.src_addr
  check_received_offer cur first last amt c.now o
  ok o

pub query_offer : Query → ℕ → List String → ℤ → Result PayOffer
query_offer c cur [] amt = err "route must be at least 2 in length"
query_offer c cur (only ∷ []) amt = err "route must be at least 2 in length"
query_offer c cur (first ∷ next ∷ rest) amt = do
  open_query c first
  request ← c.marshal_query (first ∷ next ∷ rest) amt
  c.send request
  response ← c.get_response request
  accept_offer c cur first (end_of next rest) amt response
