-- ===== src/Paychmon.antt =====
-- The channel monitor: PaychMonitorImpl of paychmon/paychmon_impl.go and its routine of
-- paychmon/routines.go. The two Go channels of a `control`, each with room for one value, stand with the
-- routine that reads them; the cache names a routine by its number. `sending` are the calls of Renew and
-- Retire that hold their lock until their value has room. `pending` are the operations on the datastore
-- that addToQueue has taken; each is put into the queue by a goroutine of its own, so they run one by one in
-- any order. A call that checks under a read lock and again under a write lock takes the two states. Locks
-- that fail and shutdown are left out.
pub mod Cache
mod Examples
pub mod Steps
pub mod Matched
pub mod Invariant
pub mod Reached
pub mod Jam
pub mod Deadlock
use fcr.Base.{
  ◌>>=◌, ◌>>◌, String, ℕ, suc, zero, Bool, Result, Option, List, [], ◌∷◌, ◌++◌, ok, err, panic,
  some, none, true, false, not, ◌&&◌, ◌||◌, if◌then◌else◌, or_fail, fail_if, nat_eq, nat_key,
  text_key, ◌==◌, if_some,
}
use fcr.Base.Int.{leb_ℤ}
use fcr.Base.Map.{Map, lookup, insert, erase}
use fcr.Base.Key.{bool_key, bool_eq}
use fcr.Base.Nested.{or_empty}
use fcr.Mdlstore.{Store, put, delete, has, get}
use fcr.Paymgr.Types.{Time}

-- Whether the channel is outbound, its currency id and its address.
pub record Place : Type 0 where
  pub outbound : Bool
  pub currency_id : ℕ
  pub ch_addr : String

abbrev pub Cache : Type 0
Cache = Map Bool (Map ℕ (Map String ℕ))

-- `watching` is the loop; then the routine queues the removal, retires the channel at the payment manager
-- and takes it out of the cache.
pub data Phase : Type 0 where
  watching inactive queued retired finished : Phase

pub record Routine : Type 0 where
  pub place : Place
  pub peer_addr : String
  pub expire : Time
  pub renew_box : Option Time
  pub retire_box : Bool
  pub phase : Phase

pub data Send : Type 0 where
  sends_renewal : Place → ℕ → Time → Send
  sends_retirement : Place → ℕ → Send

pub data StoreOp : Type 0 where
  puts : Place → Time → StoreOp
  removes : Place → StoreOp

pub record Monitor : Type 0 where
  pub cache : Cache
  pub routines : Map ℕ Routine
  pub next_routine : ℕ
  pub sending : List Send
  pub pending : List StoreOp
  pub ds : Store
  pub retirements : List (Place × String)

unfoldable pub find_control : Place → Cache → Result ℕ
find_control p m = do
  currencies ← or_fail (lookup p.outbound m) "outbound does not exist"
  channels ← or_fail (lookup p.currency_id currencies) "currency id does not exist"
  or_fail (lookup p.ch_addr channels) "channel does not exist"

abbrev pub exists : Place → Cache → Bool
exists p m = elim (find_control p m) [ ok id ↦ true | err e ↦ false | panic ↦ false ]

-- `cache[outbound][currencyID][chAddr] = v`, with the maps above it where they are missing.
unfoldable pub set_control : Place → ℕ → Cache → Cache
set_control p id m =
    let currencies = or_empty (lookup p.outbound m) in
    let channels = or_empty (lookup p.currency_id currencies) in
    insert p.outbound (insert p.currency_id (insert p.ch_addr id channels) currencies) m

-- `delete(cache[outbound][currencyID], chAddr)`
unfoldable pub delete_control : Place → Cache → Cache
delete_control p m = elim (lookup p.outbound m) [
  | none ↦ m
  | some currencies ↦ elim (lookup p.currency_id currencies) [
    | none ↦ m
    | some channels ↦
        insert p.outbound (insert p.currency_id (erase p.ch_addr channels) currencies) m
  ]
]

-- A routine's own choice among the channels that it selects from. A tick asks the chain whether the
-- channel settles.
pub data Event : Type 0 where
  ticks : Result ℕ → Event
  renews told : Event
  expires_at : Time → Event

abbrev pub is_watching : Phase → Bool
is_watching watching = true
is_watching inactive = false
is_watching queued = false
is_watching retired = false
is_watching finished = false

-- One round of the loop; `none` where the event does not fit the routine.
unfoldable pub react : Event → Routine → Option Routine
react (ticks (ok settling)) r =
    if is_watching r.phase
    then some (if nat_eq settling 0 then r else record r { phase = inactive })
    else none
react (ticks (err e)) r = if is_watching r.phase then some r else none
react (ticks panic) r = none
react renews r = elim r.renew_box [
  | none ↦ none
  | some t ↦ if is_watching r.phase then some (record r { expire = t; renew_box = none }) else none
]
react (expires_at now) r =
    if is_watching r.phase && leb_ℤ r.expire now then some (record r { phase = inactive }) else none
react told r =
    if is_watching r.phase && r.retire_box
    then some (record r { phase = inactive; retire_box = false })
    else none

-- A value goes into its Go channel if there is room.
unfoldable pub accept : Send → Routine → Option Routine
accept (sends_renewal p id t) r = elim r.renew_box [
  | none ↦ some (record r { renew_box = some t })
  | some t' ↦ none
]
accept (sends_retirement p id) r =
    if r.retire_box then none else some (record r { retire_box = true })

abbrev pub target : Send → ℕ
target (sends_renewal p id t) = id
target (sends_retirement p id) = id

abbrev pub place_of : Send → Place
place_of (sends_renewal p id t) = p
place_of (sends_retirement p id) = p

abbrev same_currency : Place → Place → Bool
same_currency p q = bool_eq p.outbound q.outbound && nat_eq p.currency_id q.currency_id

abbrev pub same_place : Place → Place → Bool
same_place p q = same_currency p q && (p.ch_addr == q.ch_addr)

-- No call below the currency, or at the channel, holds its lock; or none that holds the write lock.
unfoldable pub free_currency : Place → List Send → Bool
free_currency p [] = true
free_currency p (s ∷ ss) = not (same_currency p (place_of s)) && free_currency p ss

unfoldable pub free_place : Place → List Send → Bool
free_place p [] = true
free_place p (s ∷ ss) = not (same_place p (place_of s)) && free_place p ss

abbrev takes_place : Place → Send → Bool
takes_place p (sends_renewal q id t) = same_place p q
takes_place p (sends_retirement q id) = false

unfoldable pub free_of_renewals : Place → List Send → Bool
free_of_renewals p [] = true
free_of_renewals p (s ∷ ss) = not (takes_place p s) && free_of_renewals p ss

-- The i-th element and the others.
unfoldable pub take_at {ℓ} : {A : Type ℓ} → ℕ → List A → Option (A × List A)
take_at i [] = none
take_at zero (x ∷ xs) = some (x, xs)
take_at (suc i) (x ∷ xs) = elim (take_at i xs) [ none ↦ none | some (y, ys) ↦ some (y, x ∷ ys) ]

-- A step of one routine.
abbrev pub change_routine : ℕ → (Routine → Option Routine) → Monitor → Option Monitor
change_routine id f m =
    if_some (lookup id m.routines)
      (λ r. if_some (f r) (λ r'. some (record m { routines = insert id r' m.routines })))

unfoldable pub wake : ℕ → Event → Monitor → Option Monitor
wake id e m = change_routine id (react e) m

-- A routine that has left its loop queues the removal of its channel from the datastore,
unfoldable pub queue_removal : ℕ → Monitor → Option Monitor
queue_removal id m = if_some (lookup id m.routines) (λ r. elim r.phase [
  | inactive ↦ some (record m {
    routines = insert id (record r { phase = queued }) m.routines;
    pending = m.pending ++ removes r.place ∷ [];
  })
  | _ ↦ none
])

-- retires it at the payment manager, whose error is only logged,
unfoldable pub retire_channel : ℕ → Monitor → Option Monitor
retire_channel id m = if_some (lookup id m.routines) (λ r. elim r.phase [
  | queued ↦ some (record m {
    routines = insert id (record r { phase = retired }) m.routines;
    retirements = (r.place, r.peer_addr) ∷ m.retirements;
  })
  | _ ↦ none
])

-- and takes it out of the cache under the write lock of its currency.
unfoldable pub forget : ℕ → Monitor → Option Monitor
forget id m = if_some (lookup id m.routines) (λ r. elim r.phase [
  | retired ↦
      if free_currency r.place m.sending
      then some (record m {
        cache = delete_control r.place m.cache;
        routines = insert id (record r { phase = finished }) m.routines;
      })
      else none
  | _ ↦ none
])

-- A waiting call of Renew or Retire gets its value through and returns.
unfoldable pub hand_over : ℕ → Monitor → Option Monitor
hand_over i m = if_some (take_at i m.sending) (λ t.
    if_some (change_routine (target t.0) (accept t.0) m) (λ m'. some (record m' { sending = t.1 })))

-- `check` is the sender and the recipient that the chain names, or its error.
unfoldable pub track : Result (String × String) → Place → Time → Monitor → Monitor → Result Monitor
track check p settlement seen m = do
  (from_addr, to_addr) ← check
  let peer = if p.outbound then to_addr else from_addr
  ok (
      if exists p seen.cache || exists p m.cache then m else record m {
        cache = set_control p m.next_routine m.cache;
        routines =
            insert m.next_routine
              (record {
                place = p;
                peer_addr = peer;
                expire = settlement;
                renew_box = none;
                retire_box = false;
                phase = watching;
              })
              m.routines;
        next_routine = suc m.next_routine;
        pending = m.pending ++ puts p settlement ∷ [];
      })

-- Renew up to the sending of its value, and Retire.
unfoldable pub renew : Place → Time → Monitor → Monitor → Result Monitor
renew p new_settlement seen m = do
  first ← find_control p seen.cache
  id ← find_control p m.cache
  ok (record m {
    pending = m.pending ++ puts p new_settlement ∷ [];
    sending = sends_renewal p id new_settlement ∷ m.sending;
  })

unfoldable pub retire : Place → Monitor → Result Monitor
retire p m = do
  id ← find_control p m.cache
  ok (record m { sending = sends_retirement p id ∷ m.sending })

-- `flag_text` and `id_text` are the texts of a bool and of a currency id.
abbrev pub path : (Bool → String) → (ℕ → String) → Place → List String
path flag_text id_text p = flag_text p.outbound ∷ id_text p.currency_id ∷ p.ch_addr ∷ []

-- `sep` is the test for a separator; `encode` and `decode` the JSON of the time of the update and the
-- settlement.
module _ (sep : String → Bool) (flag_text : Bool → String) (id_text : ℕ → String)
    (encode : Time → Time → Result String) where
  unfoldable pub apply_op : Time → StoreOp → Store → Result Store
  apply_op now (puts p settlement) s = do
    val ← encode now settlement
    put sep val (path flag_text id_text p) s
  apply_op now (removes p) s = delete sep (path flag_text id_text p) s

  -- The queue runs an operation; an error is only logged.
  unfoldable pub run_op : ℕ → Time → Monitor → Option Monitor
  run_op i now m = if_some (take_at i m.pending) (λ t. some (record m {
    pending = t.1;
    ds = elim (apply_op now t.0 m.ds) [ ok s ↦ s | err e ↦ m.ds | panic ↦ m.ds ];
  }))

module _ (sep : String → Bool) (flag_text : Bool → String) (id_text : ℕ → String)
    (decode : String → Result (Time × Time)) where
  pub check : Place → Monitor → Result (Time × Time)
  check p m = do
    there ← has sep (path flag_text id_text p) m.ds
    fail_if (not there) "channel does not exist"
    val ← get sep (path flag_text id_text p) m.ds
    decode val
