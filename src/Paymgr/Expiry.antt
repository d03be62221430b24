-- ===== src/Paymgr/Expiry.antt =====
-- Expired reservations, paymgr/utils.go: getExpiredAmount and releaseExpiredAmount. The clock is
-- read once for a whole pass over the reservations.
use fcr.Base.{ℕ, Bool, not, ◌&&◌, ◌||◌, [], ◌∷◌, if◌then◌else◌}
use fcr.Base.Int.{ℤ, pos, ◌+ℤ◌, ◌-ℤ◌, ltb_ℤ, eqb_ℤ}
use fcr.Base.Map.{Map}
use fcr.Paymgr.Types.{Time, Reservation, CachedPaychState}

-- Before its first use a reservation ends at `expiration`; after it, when it has been inactive.
unfoldable pub is_expired : Time → Reservation → Bool
is_expired now r =
    (not (eqb_ℤ r.expiration (pos 0)) && ltb_ℤ r.expiration now)
    || (eqb_ℤ r.expiration (pos 0) && ltb_ℤ (r.last_accessed +ℤ r.inactivity) now)

-- The loop that adds up what expired.
unfoldable pub expired_from : Time → ℤ → Map ℕ Reservation → ℤ
expired_from now acc [] = acc
expired_from now acc ((id, r) ∷ m) =
    expired_from now (if is_expired now r then acc +ℤ r.remain else acc) m

unfoldable pub get_expired_amount : Time → CachedPaychState → ℤ
get_expired_amount now cs = expired_from now (pos 0) cs.reservations

-- The reservations that the clean-up leaves: it deletes those that expired.
unfoldable pub live : Time → Map ℕ Reservation → Map ℕ Reservation
live now [] = []
live now ((id, r) ∷ m) = if is_expired now r then live now m else (id, r) ∷ live now m

unfoldable pub release_expired_amount : Time → CachedPaychState → CachedPaychState
release_expired_amount now cs = record cs {
  reserved_amt = cs.reserved_amt -ℤ expired_from now (pos 0) cs.reservations;
  reservations = live now cs.reservations;
}

-- Balance less what is reserved and what is spent.
unfoldable pub available : CachedPaychState → ℤ
available cs = cs.state.balance -ℤ (cs.reserved_amt +ℤ cs.state.redeemed)
