-- ===== src/Paychmon/Steps.antt =====
-- What can happen next in paychmon/: a call, a value that finds room, or a step of a routine or the queue.
use fcr.Base.{String, Bool, ℕ, Result, ◌≡◌, true, ok, some, []}
use fcr.Paymgr.Types.{Time}
use fcr.Paychmon.{
  Monitor, Place, free_place, free_of_renewals, hand_over, Event, queue_removal, retire_channel,
  run_op, track, renew, retire, wake, forget,
}
use fcr.Mdlstore.{Store}

module _ (sep : String → Bool) (flag_text : Bool → String) (id_text : ℕ → String)
    (encode : Time → Time → Result String) where
  -- A call that takes a lock waits for those that hold it: Track and Renew at the channel for all calls,
  -- Retire for Renew.
  pub data Step (m : Monitor) (m' : Monitor) : Type 0 where
    tracks :
        (check : Result (String × String)) (p : Place) (settlement : Time) (seen : Monitor)
        → free_place p m.sending ≡ true
        → track check p settlement seen m ≡ ok m'
        → Step m m'
    starts_renewal :
        (p : Place) (settlement : Time) (seen : Monitor)
        → free_place p m.sending ≡ true
        → renew p settlement seen m ≡ ok m'
        → Step m m'
    starts_retirement :
        (p : Place) → free_of_renewals p m.sending ≡ true → retire p m ≡ ok m' → Step m m'
    hands_over : (i : ℕ) → hand_over i m ≡ some m' → Step m m'
    wakes : (id : ℕ) (e : Event) → wake id e m ≡ some m' → Step m m'
    queues_removal : (id : ℕ) → queue_removal id m ≡ some m' → Step m m'
    retires_channel : (id : ℕ) → retire_channel id m ≡ some m' → Step m m'
    forgets : (id : ℕ) → forget id m ≡ some m' → Step m m'
    runs_op :
        (i : ℕ) (now : Time) → run_op sep flag_text id_text encode i now m ≡ some m' → Step m m'

  pub data Reach (m : Monitor) : Monitor → Type 0 where
    here : Reach m m
    next : {m' m'' : Monitor} → Reach m m' → Step m' m'' → Reach m m''

  pub Reach-trans : {m m' m'' : Monitor} → Reach m m' → Reach m' m'' → Reach m m''
  Reach-trans r here = r
  Reach-trans r (next s st) = next (Reach-trans r s) st

-- `NewPaychMonitorImpl` on an empty datastore.
abbrev pub new : Store → Monitor
new s = record {
  cache = [];
  routines = [];
  next_routine = 0;
  sending = [];
  pending = [];
  ds = s;
  retirements = [];
}
