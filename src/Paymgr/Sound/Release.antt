-- ===== src/Paymgr/Sound/Release.antt =====
-- releaseExpiredAmount and getExpiredAmount of paymgr/utils.go keep the books.
use fcr.Base.{nat_key, ℕ, ◌≡◌, arith, [], ◌∷◌, none, refl}
use fcr.Base.Int.{ℤ, pos, ◌+ℤ◌, ◌≤ℤ◌, int_laws}
use fcr.Base.Map.{Map, lookup}
use fcr.Base.Sum.{total, All, Distinct}
use fcr.Paymgr.Types.{Time, Reservation, CachedPaychState}
use fcr.Paymgr.Expiry.{expired_from, live, get_expired_amount, release_expired_amount, available}
use fcr.Paymgr.Sound.{remain_of, IsFilled, IsSound}

-- What expired and what stays make up what there was.
total-live :
    (now : Time) (acc : ℤ) (m : Map ℕ Reservation)
    → total remain_of (live now m) +ℤ expired_from now acc m ≡ total remain_of m +ℤ acc
unfolding live expired_from
total-live now acc [] = refl
total-live now acc ((id, r) ∷ m) =
    grind (int_laws, total-live now acc m, total-live now (acc +ℤ r.remain) m)

expired_from-nonneg :
    (now : Time) (acc : ℤ) (n : ℕ) (m : Map ℕ Reservation)
    → All (IsFilled n) m
    → pos 0 ≤ℤ acc
    → pos 0 ≤ℤ expired_from now acc m
unfolding expired_from
expired_from-nonneg now acc n [] h k = k
expired_from-nonneg now acc n ((id, r) ∷ m) h k = grind (
  int_laws,
  expired_from-nonneg now acc n m h.1 k,
  expired_from-nonneg now (acc +ℤ r.remain) n m h.1,
)

live-All :
    (now : Time) (P : ℕ → Reservation → Type 0) (m : Map ℕ Reservation)
    → All P m
    → All P (live now m)
unfolding live
live-All now P [] h = tt
live-All now P ((id, r) ∷ m) h = ground (arith, live-All now P m h.1)

lookup-live_absent :
    (now : Time) (k : ℕ) (m : Map ℕ Reservation) → lookup k m ≡ none → lookup k (live now m) ≡ none
unfolding live
lookup-live_absent now k [] h = h
lookup-live_absent now k ((id, r) ∷ m) h = ground (arith, lookup-live_absent now k m)

live-Distinct : (now : Time) (m : Map ℕ Reservation) → Distinct m → Distinct (live now m)
unfolding live
live-Distinct now [] h = tt
live-Distinct now ((id, r) ∷ m) h =
    ground (arith, live-Distinct now m h.1, lookup-live_absent now id m)

-- Releasing what expired keeps a channel sound.
pub release-IsSound :
    (now : Time) (cs : CachedPaychState) → IsSound cs → IsSound (release_expired_amount now cs)
unfolding release_expired_amount live
release-IsSound now cs h = record {
  reserved = grind (int_laws, total-live now (pos 0) cs.reservations, h.reserved);
  filled = live-All now _ cs.reservations h.filled;
  distinct = live-Distinct now cs.reservations h.distinct;
  solvent = omega (
    int_laws,
    h.solvent,
    expired_from-nonneg now (pos 0) cs.reserved_nonce cs.reservations h.filled (omega arith),
  );
  lost = λ l. rw (h.lost l) refl;
}

-- What the provisional check counts on is what is there once the expired reservations are released.
pub available-release :
    (now : Time) (cs : CachedPaychState)
    → available (release_expired_amount now cs) ≡ available cs +ℤ get_expired_amount now cs
unfolding available release_expired_amount get_expired_amount
available-release now cs = omega int_laws

total-nonneg : (n : ℕ) (m : Map ℕ Reservation) → All (IsFilled n) m → pos 0 ≤ℤ total remain_of m
total-nonneg n [] h = omega arith
total-nonneg n ((id, r) ∷ m) h = omega (int_laws, h.0.1, total-nonneg n m h.1)

pub reserved-nonneg : (cs : CachedPaychState) → IsSound cs → pos 0 ≤ℤ cs.reserved_amt
reserved-nonneg cs h = rw h.reserved (total-nonneg cs.reserved_nonce cs.reservations h.filled)
