-- ===== src/Paychmon/Examples.antt =====
-- The theorems on paychmon/ at work: the outbound channel "ch" of currency 1 to "bob", which settles at 9.
use fcr.Base.{if◌then◌else◌, nat_key}
use fcr.Paychmon.{
  watching, inactive, sends_renewal, puts, expires_at, Place, Routine, Monitor, free_place,
  find_control, set_control, hand_over, take_at, track, renew, accept, wake, react,
}
use fcr.Paychmon.Steps.{Reach, here, next, tracks, starts_renewal, hands_over, wakes, new}
use fcr.Base.{String, Bool, false, ℕ, Result, ok, true, [], ◌∷◌, none, some, refl, ◌≡◌, inl}
use fcr.Paymgr.Types.{Time}
use fcr.Mdlstore.{Store}
use fcr.Base.Int.{pos}
use fcr.Paychmon.Matched.{IsMatched}
use fcr.Paychmon.Reached.{Reach-IsMatched}
use fcr.Paychmon.Cache.{routine_at}
use fcr.Paychmon.Jam.{InList}
use fcr.Paychmon.Deadlock.{jam_lasts}

abbrev no_separator : String → Bool
no_separator x = false

abbrev flag_text : Bool → String
flag_text b = if b then "true" else "false"

abbrev id_text : ℕ → String
id_text c = "1"

abbrev write_times : Time → Time → Result String
write_times updated settlement = ok "times"

abbrev spot : Place
spot = record { outbound = true; currency_id = 1; ch_addr = "ch" }

abbrev empty_store : Store
empty_store = ([], record { node_data = ""; children = [] }) ∷ []

-- The channel is tracked.
abbrev tracker : Routine
tracker = record {
  place = spot;
  peer_addr = "bob";
  expire = pos 9;
  renew_box = none;
  retire_box = false;
  phase = watching;
}

abbrev tracked : Monitor
tracked = record {
  cache = (true, (1, ("ch", 0) ∷ []) ∷ []) ∷ [];
  routines = (0, tracker) ∷ [];
  next_routine = 1;
  sending = [];
  pending = puts spot (pos 9) ∷ [];
  ds = empty_store;
  retirements = [];
}

-- A renewal until 20 arrives as the settlement time is over, and another until 30 after it.
abbrev renewing : Monitor
renewing = record tracked {
  pending = puts spot (pos 9) ∷ puts spot (pos 20) ∷ [];
  sending = sends_renewal spot 0 (pos 20) ∷ [];
}

abbrev renewed : Monitor
renewed = record renewing {
  routines = (0, record tracker { renew_box = some (pos 20) }) ∷ [];
  sending = [];
}

abbrev expired : Monitor
expired = record renewed {
  routines = (0, record tracker { renew_box = some (pos 20); phase = inactive }) ∷ [];
}

abbrev jammed : Monitor
jammed = record expired {
  pending = puts spot (pos 9) ∷ puts spot (pos 20) ∷ puts spot (pos 30) ∷ [];
  sending = sends_renewal spot 0 (pos 30) ∷ [];
}

Reach-tracked : Reach no_separator flag_text id_text write_times (new empty_store) tracked
unfolding track free_place find_control set_control
Reach-tracked = next here (tracks (ok ("alice", "bob")) spot (pos 9) (new empty_store) refl refl)

Reach-jammed : Reach no_separator flag_text id_text write_times (new empty_store) jammed
unfolding renew free_place find_control hand_over take_at accept wake react
Reach-jammed =
    next {m' = expired}
      (next {m' = renewed}
        (next {m' = renewing} (next Reach-tracked (starts_renewal spot (pos 20) tracked refl refl))
          (hands_over 0 refl))
        (wakes 0 (expires_at (pos 9)) refl))
      (starts_renewal spot (pos 30) expired refl refl)

Reach-IsMatched_example : IsMatched jammed
Reach-IsMatched_example =
    Reach-IsMatched no_separator flag_text id_text write_times empty_store Reach-jammed

jam_lasts_example :
    (routine_at spot jammed.cache ≡ some 0) × InList (sends_renewal spot 0 (pos 30)) jammed.sending
jam_lasts_example =
    jam_lasts no_separator flag_text id_text write_times empty_store 0 spot (pos 30) jammed
      Reach-jammed
      (record {
        stuck = (
          record tracker { renew_box = some (pos 20); phase = inactive },
          pos 20,
          refl,
          refl,
          refl,
          refl,
          refl,
        );
        waiting = inl refl;
      })
      here

-- A retirement has come through.
abbrev told_to_retire : Monitor
told_to_retire = record tracked { routines = (0, record tracker { retire_box = true }) ∷ [] }
