-- ===== src/Paymgr/Reserving.antt =====
-- Reserve of paymgr/paymentmgr_impl.go: which channel gets the reservation, and that it gets it.
use fcr.Base.{
  arith, some, ◌≡◌, none, text_key, nat_key, true, Bool, false, err, ◌+◌, ap, refl, String, List,
  [], ◌∷◌, ◌≢◌, Option, ℕ, ◌&&◌, Option-cases, inl, inr, Bool-cases, ◌⊎◌, ◌∙◌, sym, ok,
  Result-cases, or_fail, >>=-eq-ok,
}
use fcr.Paymgr.Types.{CachedPaychState, Time, Transactor, Reservation, u64}
use fcr.Paymgr.Reserve.{
  try_reserve, has_room, add_reservation, Turn, Request, Won, take_turn, new_reservation, admit,
  locked_turn, take_turns, Active, reserve_params, peer_state, reserve, set_peer_state,
  reserve_target,
}
use mathlib.Core.Option.{some-injective}
use fcr.Base.Int.{ltb_ℤ, ℤ}
use fcr.Paymgr.Outbound.{pay_attempt, Payment, has_loss}
use fcr.Paymgr.Expiry.{release_expired_amount, available}
use fcr.Paymgr.Sound.Release.{available-release}
use fcr.Base.Map.{Map, lookup, lookup-insert_ne, lookup-insert_self, insert}
use fcr.Paymgr.Price.{Rate}

-- The provisional check is enough: where it sees room for `gross` and no other goroutine has won, the
-- part under the write lock, at the same state and time, adds the reservation.
has_room-try_reserve :
    (now : Time) (r : Reservation) (cs : CachedPaychState)
    → has_room now r.remain cs ≡ true
    → try_reserve false now r cs
      ≡ (add_reservation r (release_expired_amount now cs), some (u64 (cs.reserved_nonce + 1)))
unfolding has_room try_reserve
has_room-try_reserve now r cs e =
    let counted = available-release now cs in
    let fine : has_loss cs.state ≡ false = ground arith in
    let room : ltb_ℤ (available (release_expired_amount now cs)) r.remain ≡ false =
      rw counted (ground (arith, fine)) in
    rw (fine, room)
      (ap (λ n. (add_reservation r (release_expired_amount now cs), some (u64 (n + 1))))
        (nonce-release now cs))
  where
    nonce-release :
        (now : Time) (cs : CachedPaychState)
        → (release_expired_amount now cs).reserved_nonce ≡ cs.reserved_nonce
    nonce-release now cs = unfold release_expired_amount in refl

-- While network loss stands, no payment is made and nothing is reserved, and the channel stays as it is.
lost_blocks :
    (chain : Transactor) (cleaned now : Time) (p : Payment) (taken : Bool) (r : Reservation)
    (cs : CachedPaychState)
    → has_loss cs.state ≡ true
    → (pay_attempt chain cleaned now p cs ≡ (cs, err "network loss presents"))
      × (try_reserve taken now r cs ≡ (cs, none))
unfolding pay_attempt try_reserve
lost_blocks chain cleaned now p taken r cs lost = (rw lost, rw lost)

-- Channel addresses of the goroutines, which are the keys of one map.
abbrev Avoids : String → List Turn → Type 0
Avoids ch [] = Unit {0}
Avoids ch (t ∷ ts) = (t.ch_addr ≢ ch) × Avoids ch ts

abbrev DistinctTurns : List Turn → Type 0
DistinctTurns [] = Unit {0}
DistinctTurns (t ∷ ts) = Avoids t.ch_addr ts × DistinctTurns ts

-- The id that try_reserve returns holds the new reservation.
try_reserve-won :
    (now : Time) (r : Reservation) (cs : CachedPaychState) {n : ℕ}
    → (try_reserve false now r cs).1 ≡ some n
    → lookup n (try_reserve false now r cs).0.reservations ≡ some r
unfolding try_reserve add_reservation
try_reserve-won now r cs {n} e =
    let cs' = release_expired_amount now cs in
    let id = u64 (cs'.reserved_nonce + 1) in
    let held = lookup-insert_self id r cs'.reservations in ground (arith, held)

module _ (q : Request) (gross : ℤ) where
  -- A goroutine does nothing, or does its locked part on its own channel.
  take_turn-cases :
      (t : Turn) (ps : Map String CachedPaychState) (won : Option Won)
      → (take_turn q gross t (ps, won) ≡ (ps, won))
        ⊎ ((inbound : Rate) × (cs : CachedPaychState) × (take_turn q gross t (ps, won) ≡ (
          insert t.ch_addr (locked_turn q gross t inbound cs won).0 ps,
          (locked_turn q gross t inbound cs won).1,
        )))
  unfolding take_turn
  take_turn-cases t ps won = elim (Option-cases (admit q gross t)) [
    | inl e ↦ inl (rw (take_turn, e))
    | inr (inbound, e) ↦
        elim (Bool-cases (t.read_locked && has_room t.seen_at gross t.seen && t.write_locked)) [
          | inr f ↦ inl (rw (take_turn, e, f))
          | inl f ↦ elim (Option-cases (lookup t.ch_addr ps)) [
            | inl g ↦ inl (rw (take_turn, e, f, g))
            | inr (cs, g) ↦ inr (inbound, cs, rw (take_turn, e, f, g))
          ]
        ]
  ]

  locked_turn-taken :
      (t : Turn) (inbound : Rate) (cs : CachedPaychState) (w : Won)
      → (locked_turn q gross t inbound cs (some w)).1 ≡ some w
  unfolding locked_turn try_reserve
  locked_turn-taken t inbound cs w = ground arith

  locked_turn-won :
      (t : Turn) (inbound : Rate) (cs : CachedPaychState) {w : Won}
      → (locked_turn q gross t inbound cs none).1 ≡ some w
      → (w.ch_addr ≡ t.ch_addr)
        × (lookup w.res_id (locked_turn q gross t inbound cs none).0.reservations
            ≡ some (new_reservation q gross w.inbound))
  unfolding locked_turn
  locked_turn-won t inbound cs {w} e =
      let r = new_reservation q gross inbound in
      elim (Option-cases (try_reserve false t.now r cs).1) [
        | inl f ↦ absurd (ground arith)
        | inr (n, f) ↦
            let held = try_reserve-won t.now r cs f in
            let same : w ≡ record { inbound = inbound; ch_addr = t.ch_addr; res_id = n } =
              ground arith in
            rw same (refl, held)
      ]

  -- Once a goroutine has won, the later ones leave the winner and, on other channels, the state.
  take_turns-taken :
      (ts : List Turn) (ps : Map String CachedPaychState) (w : Won) (ch : String)
      → Avoids ch ts
      → ((take_turns q gross ts (ps, some w)).1 ≡ some w)
        × (lookup ch (take_turns q gross ts (ps, some w)).0 ≡ lookup ch ps)
  unfolding take_turns
  take_turns-taken [] ps w ch a = (refl, refl)
  take_turns-taken (t ∷ ts) ps w ch (ne, a) = elim (take_turn-cases t ps (some w)) [
    | inl e ↦ rw (take_turns, e) (take_turns-taken ts ps w ch a)
    | inr (inbound, cs, e) ↦
        let ps' = insert t.ch_addr (locked_turn q gross t inbound cs (some w)).0 ps in
        let (won, kept) = take_turns-taken ts ps' w ch a in
        rw (take_turns, e, locked_turn-taken t inbound cs w)
          (won, kept ∙ lookup-insert_ne t.ch_addr ch _ ps ne)
  ]

  take_turns-granted :
      (ts : List Turn) (ps : Map String CachedPaychState) {w : Won}
      → DistinctTurns ts
      → (take_turns q gross ts (ps, none)).1 ≡ some w
      → (cs : CachedPaychState) × (lookup w.ch_addr (take_turns q gross ts (ps, none)).0 ≡ some cs)
        × (lookup w.res_id cs.reservations ≡ some (new_reservation q gross w.inbound))
  unfolding take_turns
  take_turns-granted [] ps d won = absurd (ground arith)
  take_turns-granted (t ∷ ts) ps {w} (a, d) won = elim (take_turn-cases t ps none) [
    | inl e ↦ rw (take_turns, e) (take_turns-granted ts ps d (rw (take_turns, e) at won))
    | inr (inbound, cs, e) ↦
        let cs' = (locked_turn q gross t inbound cs none).0 in
        let ps' = insert t.ch_addr cs' ps in
        elim (Option-cases (locked_turn q gross t inbound cs none).1) [
          | inl f ↦
              rw (take_turns, e, f) (take_turns-granted ts ps' d (rw (take_turns, e, f) at won))
          | inr (v, f) ↦
              let (first, kept) = take_turns-taken ts ps' v t.ch_addr a in
              let (addr, held) = locked_turn-won t inbound cs f in
              let same : v ≡ w = some-injective _ _ (sym first ∙ rw (take_turns, e, f) at won) in
              rw (take_turns, e, f, ← same)
                (
                  cs',
                  ap (λ (k : String). lookup k (take_turns q gross ts (ps', some v)).0) addr
                      ∙ kept
                      ∙ lookup-insert_self t.ch_addr cs' ps,
                  held,
                )
        ]
  ]

peer_state-set_peer_state :
    (cur : ℕ) (to_addr : String) (m : Active) {ps : Map String CachedPaychState}
    (ps' : Map String CachedPaychState)
    → peer_state cur to_addr m ≡ ok ps
    → peer_state cur to_addr (set_peer_state cur to_addr ps' m) ≡ ok ps'
peer_state-set_peer_state cur to_addr m ps' e = elim (Option-cases (lookup cur m)) [
  | inl f ↦ absurd (ground arith)
  | inr (c, f) ↦
      let inner = lookup-insert_self to_addr ps' c in
      let outer = lookup-insert_self cur (insert to_addr ps' c) m in ground (arith, inner, outer)
]

reserve-admitted :
    (now : Time) (q : Request) (ts : List Turn) (m : Active) {gross : ℤ}
    {ps : Map String CachedPaychState}
    → reserve_params now q ≡ ok gross
    → peer_state q.currency_id q.to_addr m ≡ ok ps
    → reserve now q ts m ≡ (
      set_peer_state q.currency_id q.to_addr (take_turns q gross ts (ps, none)).0 m,
      or_fail (take_turns q gross ts (ps, none)).1 "fail to reserve",
    )
unfolding reserve take_turns reserve_target
reserve-admitted now q ts m g p = rw (reserve, reserve_target, g, p)

-- If the channels of the goroutines are distinct and Reserve succeeds, the parameters were accepted
-- with some gross amount, and the channel that it names holds, under the id that it returns, the new
-- reservation of that amount at the inbound price that it returns.
pub reserve_granted :
    (now : Time) (q : Request) (ts : List Turn) (m : Active) {w : Won}
    → DistinctTurns ts
    → (reserve now q ts m).1 ≡ ok w
    → (gross : ℤ) × (ps : Map String CachedPaychState) × (cs : CachedPaychState) × (reserve_params
          now q
        ≡ ok gross)
      × (peer_state q.currency_id q.to_addr (reserve now q ts m).0 ≡ ok ps)
      × (lookup w.ch_addr ps ≡ some cs)
      × (lookup w.res_id cs.reservations ≡ some (new_reservation q gross w.inbound))
unfolding reserve reserve_target
reserve_granted now q ts m {w} d e = elim (Result-cases (reserve_target now q m)) [
  | inr (inl (x, f)) ↦ absurd (ground arith)
  | inr (inr f) ↦ absurd (ground arith)
  | inl (_, f) ↦
      let (gross, g, rest) = >>=-eq-ok (reserve_params now q) _ f in
      let (ps, p, last) = >>=-eq-ok (peer_state q.currency_id q.to_addr m) _ rest in
      let done = reserve-admitted now q ts m g p in
      let won : (take_turns q gross ts (ps, none)).1 ≡ some w = ground arith in
      let (cs, found, held) = take_turns-granted q gross ts ps d won in
      let ps' = (take_turns q gross ts (ps, none)).0 in
      let written = peer_state-set_peer_state q.currency_id q.to_addr m ps' p in
      (gross, ps', cs, g, rw done written, found, held)
]
