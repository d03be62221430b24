-- ===== src/Paymgr/Reserve.antt =====
-- Reserving an amount on one of the channels to a recipient: Reserve of paymgr/paymentmgr_impl.go.
-- It starts one goroutine for each channel; the first to get its channel's write lock with enough
-- balance wins. The order of the write locks, and what each goroutine is told before, are arguments.
use fcr.Base.{
  ℕ, ◌+◌, String, Bool, true, false, not, ◌&&◌, ◌||◌, Option, none, some, Result, ok, err, panic,
  ◌>>=◌, ◌>>◌, fail_if, or_fail, if◌then◌else◌, ◌==◌, List, [], ◌∷◌, text_key, nat_key,
}
use fcr.Base.Int.{ℤ, pos, ◌+ℤ◌, ltb_ℤ, leb_ℤ, eqb_ℤ}
use fcr.Base.Map.{Map, lookup, insert}
use fcr.Paymgr.Price.{Rate, surcharge_on}
use fcr.Paymgr.Types.{Time, u64, Reservation, CachedPaychState, PayOffer}
use fcr.Paymgr.Expiry.{get_expired_amount, release_expired_amount, available}
use fcr.Paymgr.Outbound.{has_loss}

pub record Request : Type 0 where
  pub currency_id : ℕ
  pub to_addr : String
  pub petty_amt_required : ℤ
  pub served_required : Bool
  pub received_offer : Option PayOffer
  pub expiration : Time
  pub inactivity : Time
  pub peer_addr : String

-- The price of the next hop: that of the received offer, or nothing.
unfoldable pub outbound_rate : Option PayOffer → Rate
outbound_rate none = record { ppp = pos 0; period = pos 0 }
outbound_rate (some o) = record { ppp = o.ppp; period = o.period }

-- Both 0 or both positive.
unfoldable pub is_rate : Rate → Bool
is_rate r =
    (eqb_ℤ r.ppp (pos 0) && eqb_ℤ r.period (pos 0))
    || (ltb_ℤ (pos 0) r.ppp && ltb_ℤ (pos 0) r.period)

-- petty + ((petty - 1) / period + 1) * ppp
unfoldable pub gross_amt_required : Rate → ℤ → Result ℤ
gross_amt_required r petty =
    if ltb_ℤ (pos 0) r.ppp
    then (do surcharge ← surcharge_on r petty; ok (surcharge +ℤ petty))
    else ok petty

-- The parameter checks, and the gross amount to reserve.
unfoldable pub reserve_params : Time → Request → Result ℤ
reserve_params now q = do
  fail_if (ltb_ℤ q.expiration now) "expiration in the past"
  fail_if (leb_ℤ q.petty_amt_required (pos 0)) "petty amount required must be positive"
  fail_if (not (is_rate (outbound_rate q.received_offer)))
      "outbound ppp and period must be either both 0 or both positive"
  gross_amt_required (outbound_rate q.received_offer) q.petty_amt_required

-- The price asked of the previous hop: the channel's own price with the next hop's on top, for the
-- shorter of the two periods.
unfoldable pub inbound_rate : Bool → Rate → Rate → Option Rate
inbound_rate served_required outbound own =
    if served_required
    then (if is_rate own
        then some (record {
          ppp = own.ppp +ℤ outbound.ppp;
          period =
              if ltb_ℤ (pos 0) outbound.period && ltb_ℤ outbound.period own.period
              then outbound.period
              else own.period;
        })
        else none)
    else some (record { ppp = pos 0; period = pos 0 })

-- What one goroutine meets. `inspected` and `policy` are the answers of pservMgr.Inspect (served,
-- price) and reservMgr.GetPeerPolicy (unlimited, max); `seen` is its channel's state at the read
-- lock, at time `seen_at`; the locks are refused once another goroutine has cancelled.
pub record Turn : Type 0 where
  pub ch_addr : String
  pub inspected : Result (Bool × Rate)
  pub policy : Result (Bool × ℤ)
  pub read_locked : Bool
  pub seen_at : Time
  pub seen : CachedPaychState
  pub write_locked : Bool
  pub now : Time

-- Whether the policy lets the peer reserve `gross`.
unfoldable pub policy_allows : Request → ℤ → Turn → Bool
policy_allows q gross t = if q.peer_addr == "" then true else elim t.policy [
  | ok (unlimited, max) ↦ not (not unlimited && ltb_ℤ max gross)
  | err e ↦ false
  | panic ↦ false
]

-- The price to ask, or none where the goroutine returns before it looks at the channel.
unfoldable pub admit : Request → ℤ → Turn → Option Rate
admit q gross t = elim t.inspected [
  | ok (served, own) ↦
      if (q.served_required && not served) || not (policy_allows q gross t)
      then none
      else inbound_rate q.served_required (outbound_rate q.received_offer) own
  | err e ↦ none
  | panic ↦ none
]

-- The provisional check: enough is available once what expired is counted in.
unfoldable pub has_room : Time → ℤ → CachedPaychState → Bool
has_room now gross cs =
    not (has_loss cs.state) && not (ltb_ℤ (available cs +ℤ get_expired_amount now cs) gross)

unfoldable pub new_reservation : Request → ℤ → Rate → Reservation
new_reservation q gross inbound = record {
  inbound = inbound;
  petty_amt_received = pos 0;
  surcharge_received = pos 0;
  outbound = outbound_rate q.received_offer;
  petty_amt_paid = pos 0;
  surcharge_paid = pos 0;
  remain = gross;
  last_accessed = pos 0;
  expiration = q.expiration;
  inactivity = q.inactivity;
  offer = q.received_offer;
}

unfoldable pub add_reservation : Reservation → CachedPaychState → CachedPaychState
add_reservation r cs = record cs {
  reserved_amt = cs.reserved_amt +ℤ r.remain;
  reserved_nonce = u64 (cs.reserved_nonce + 1);
  reservations = insert (u64 (cs.reserved_nonce + 1)) r cs.reservations;
}

-- The part under the write lock, with the new reservation's id. `taken` says that another goroutine
-- has won already.
unfoldable pub try_reserve :
    Bool → Time → Reservation → CachedPaychState → CachedPaychState × Option ℕ
try_reserve taken now r cs =
    if has_loss cs.state
    then (cs, none)
    else let cs' = release_expired_amount now cs in
      if ltb_ℤ (available cs') r.remain || taken
      then (cs', none)
      else (add_reservation r cs', some (u64 (cs'.reserved_nonce + 1)))

pub record Won : Type 0 where
  pub inbound : Rate
  pub ch_addr : String
  pub res_id : ℕ

abbrev is_taken : Option Won → Bool
is_taken none = false
is_taken (some w) = true

-- The part of a goroutine under its channel's write lock, after which it may have won.
unfoldable pub locked_turn :
    Request → ℤ → Turn → Rate → CachedPaychState → Option Won → CachedPaychState × Option Won
locked_turn q gross t inbound cs won =
    let (cs', id) = try_reserve (is_taken won) t.now (new_reservation q gross inbound) cs in
    (
      cs',
      elim id [
        | none ↦ won
        | some n ↦ some (record { inbound = inbound; ch_addr = t.ch_addr; res_id = n })
      ],
    )

-- One goroutine on the channels `ps` of the recipient.
unfoldable pub take_turn :
    Request
    → ℤ
    → Turn
    → Map String CachedPaychState × Option Won
    → Map String CachedPaychState × Option Won
take_turn q gross t (ps, won) = elim (admit q gross t) [
  | none ↦ (ps, won)
  | some inbound ↦
      if t.read_locked && has_room t.seen_at gross t.seen && t.write_locked
      then elim (lookup t.ch_addr ps) [
        | none ↦ (ps, won)
        | some cs ↦
            let (cs', won') = locked_turn q gross t inbound cs won in
            (insert t.ch_addr cs' ps, won')
      ]
      else (ps, won)
]

unfoldable pub take_turns :
    Request
    → ℤ
    → List Turn
    → Map String CachedPaychState × Option Won
    → Map String CachedPaychState × Option Won
take_turns q gross [] a = a
take_turns q gross (t ∷ ts) a = take_turns q gross ts (take_turn q gross t a)

-- The outbound half of `active`: currency id, then recipient, then channel address.
abbrev pub Active : Type 0
Active = Map ℕ (Map String (Map String CachedPaychState))

abbrev pub peer_state : ℕ → String → Active → Result (Map String CachedPaychState)
peer_state currency_id to_addr m = do
  cur ← or_fail (lookup currency_id m) "no channels existed for currency id"
  or_fail (lookup to_addr cur) "no channels existed for recipient"

-- Writing through the maps that `peer_state` found.
abbrev pub set_peer_state : ℕ → String → Map String CachedPaychState → Active → Active
set_peer_state currency_id to_addr ps m = elim (lookup currency_id m) [
  | none ↦ m
  | some cur ↦ insert currency_id (insert to_addr ps cur) m
]

-- The checks before any goroutine starts: the gross amount and the channels to the recipient.
unfoldable pub reserve_target : Time → Request → Active → Result (ℤ × Map String CachedPaychState)
reserve_target now q m = do
  gross ← reserve_params now q
  ps ← peer_state q.currency_id q.to_addr m
  ok (gross, ps)

unfoldable pub reserve : Time → Request → List Turn → Active → Active × Result Won
reserve now q ts m = elim (reserve_target now q m) [
  | ok (gross, ps) ↦
      let (ps', won) = take_turns q gross ts (ps, none) in
      (set_peer_state q.currency_id q.to_addr ps' m, or_fail won "fail to reserve")
  | err e ↦ (m, err e)
  | panic ↦ (m, panic)
]
