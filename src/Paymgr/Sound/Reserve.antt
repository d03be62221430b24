-- ===== src/Paymgr/Sound/Reserve.antt =====
-- Reserve of paymgr/paymentmgr_impl.go keeps the books of the channel it reserves on.
use fcr.Base.{
  nat_key, ℕ, Bool, ◌<◌, ◌≡◌, none, [], refl, ◌∷◌, arith, ◌≤◌, ◌+◌, ◌^◌, Bool-cases, inl, inr,
  false, sym, ◌∙◌,
}
use fcr.Paymgr.Sound.{IsSound, IsFilled, remain_of}
use fcr.Paymgr.Reserve.{add_reservation, try_reserve}
use fcr.Base.Map.{Map, lookup}
use fcr.Paymgr.Expiry.{available, release_expired_amount}
use fcr.Paymgr.Types.{Reservation, Time, CachedPaychState, u64}
use fcr.Base.Sum.{All, total-insert_new, insert-All, insert-Distinct}
use fcr.Base.Int.{pos, ◌≤ℤ◌, int_laws, lt-cases}
use fcr.Paymgr.Sound.Release.{release-IsSound}
use fcr.Paymgr.Outbound.{has_loss}

-- The next id is above every id in use.
absent-above : (n k : ℕ) (m : Map ℕ Reservation) → All (IsFilled n) m → n < k → lookup k m ≡ none
absent-above n k [] h l = refl
absent-above n k ((id, r) ∷ m) h l = ground (arith, absent-above n k m h.1 l)

IsFilled-mono : (n k : ℕ) (m : Map ℕ Reservation) → n ≤ k → All (IsFilled n) m → All (IsFilled k) m
IsFilled-mono n k [] l h = tt
IsFilled-mono n k ((id, r) ∷ m) l h = ((omega arith, h.0.1), IsFilled-mono n k m l h.1)

add_reservation-IsSound :
    (r : Reservation) (cs : CachedPaychState)
    → IsSound cs
    → pos 0 ≤ℤ r.remain
    → r.remain ≤ℤ available cs
    → cs.reserved_nonce + 1 < 2 ^ 64
    → has_loss cs.state ≡ false
    → IsSound (add_reservation r cs)
unfolding add_reservation available
add_reservation-IsSound r cs h nonneg room small fine =
    let next : u64 (cs.reserved_nonce + 1) ≡ cs.reserved_nonce + 1 = omega arith in
    let new =
      absent-above cs.reserved_nonce (cs.reserved_nonce + 1) cs.reservations h.filled
        (omega arith) in
    rw next (record {
      reserved = grind (
        int_laws,
        h.reserved,
        total-insert_new remain_of (cs.reserved_nonce + 1) r cs.reservations new,
      );
      filled =
          insert-All _ (cs.reserved_nonce + 1) r cs.reservations (omega arith, nonneg)
            (IsFilled-mono cs.reserved_nonce (cs.reserved_nonce + 1) cs.reservations (omega arith)
              h.filled);
      distinct = insert-Distinct (cs.reserved_nonce + 1) r cs.reservations h.distinct;
      solvent = omega (int_laws, h.solvent);
      lost = λ l. absurd (cc (sym fine ∙ l));
    })

-- A goroutine's part under the write lock keeps a channel sound, whether it reserves or not, as long
-- as the amount to reserve is not negative and the reservation ids do not run out.
pub try_reserve-IsSound :
    (taken : Bool) (now : Time) (r : Reservation) (cs : CachedPaychState)
    → IsSound cs
    → pos 0 ≤ℤ r.remain
    → cs.reserved_nonce + 1 < 2 ^ 64
    → IsSound (try_reserve taken now r cs).0
unfolding try_reserve release_expired_amount
try_reserve-IsSound taken now r cs h nonneg small =
    let cs' = release_expired_amount now cs in
    let h' = release-IsSound now cs h in
    elim (Bool-cases (has_loss cs.state)) [
      | inl lost ↦ rw lost h
      | inr fine ↦ elim (lt-cases (available cs') r.remain) [
        | inl (short, s) ↦ rw (fine, short) h'
        | inr (room, l) ↦ elim (Bool-cases taken) [
          | inl t ↦ rw (fine, room, t) h'
          | inr f ↦ rw (fine, room, f) (add_reservation-IsSound r cs' h' nonneg l small fine)
        ]
      ]
    ]
