-- ===== src/Paychmon/Matched.antt =====
-- The cache of paychmon/ against its routines: each channel of the cache has one running routine.
use fcr.Paychmon.{
  watching, inactive, queued, retired, finished, ticks, renews, expires_at, told, sends_renewal,
  sends_retirement, Event, Send, change_routine, hand_over, take_at, queue_removal, retire_channel,
  react, accept, target,
}
use mathlib.Core.Path.{subst}
use fcr.Base.{panic, if_some-eq}
use fcr.Base.{if◌then◌else◌, ok, arith, err, panic, Option, refl}
use fcr.Paychmon.{Phase, Place, Routine, Monitor}
use fcr.Base.{
  Bool, true, false, ℕ, ◌≡◌, some, ◌<◌, Bool-cases, nat_eq, inr, inl, nat_eq_iff, some-injective,
  sym, ◌∙◌, nat_key,
}
use fcr.Base.Map.{Map, lookup-insert, lookup, insert}
use fcr.Paychmon.Cache.{routine_at}

abbrev pub is_running : Phase → Bool
is_running watching = true
is_running inactive = true
is_running queued = true
is_running retired = true
is_running finished = false

-- The routine of a number that runs, with its place.
abbrev pub RunsAt : ℕ → Place → Map ℕ Routine → Type 0
RunsAt id p rs =
    (r : Routine) × (lookup id rs ≡ some r) × (r.place ≡ p) × (is_running r.phase ≡ true)

pub record IsMatched (m : Monitor) : Type 0 where
  pub cached : (p : Place) (id : ℕ) → routine_at p m.cache ≡ some id → RunsAt id p m.routines
  pub runs :
      (id : ℕ) (r : Routine)
      → lookup id m.routines ≡ some r
      → is_running r.phase ≡ true
      → routine_at r.place m.cache ≡ some id
  pub known : (id : ℕ) (r : Routine) → lookup id m.routines ≡ some r → id < m.next_routine

-- A routine that changes but stays where it is, and stays running or not.
changed_routine :
    (m m' : Monitor) (id : ℕ) (r r' : Routine)
    → lookup id m.routines ≡ some r
    → r'.place ≡ r.place
    → is_running r'.phase ≡ is_running r.phase
    → m'.cache ≡ m.cache
    → m'.next_routine ≡ m.next_routine
    → m'.routines ≡ insert id r' m.routines
    → IsMatched m
    → IsMatched m'
changed_routine m m' id r r' e same run c n rs h = record {
  cached = λ p j q.
      let (s, f, pl, live) = h.cached p j (rw c at q) in
      let there = lookup-insert id j r' m.routines in
      elim (Bool-cases (nat_eq id j)) [
        | inr t ↦ (s, rw (rs, there, t) f, pl, live)
        | inl t ↦
            let eq : id ≡ j = (nat_eq_iff id j).0 t in
            let sr : r ≡ s = some-injective (sym e ∙ rw eq f) in
            (r', rw (rs, there, t), same ∙ rw sr pl, run ∙ rw sr live)
      ];
  runs = λ j s f live.
      let there = lookup-insert id j r' m.routines in
      let f' : (if nat_eq id j then some r' else lookup j m.routines) ≡ some s =
        sym there ∙ rw rs at f in
      elim (Bool-cases (nat_eq id j)) [
        | inr t ↦ rw c (h.runs j s (rw t at f') live)
        | inl t ↦
            let eq : id ≡ j = (nat_eq_iff id j).0 t in
            let sr : r' ≡ s = some-injective (rw t at f') in
            rw (c, ← eq, ← sr, same) (h.runs id r e (sym run ∙ rw sr live))
      ];
  known = λ j s f.
      let there = lookup-insert id j r' m.routines in
      let f' : (if nat_eq id j then some r' else lookup j m.routines) ≡ some s =
        sym there ∙ rw rs at f in
      elim (Bool-cases (nat_eq id j)) [
        | inr t ↦ rw n (h.known j s (rw t at f'))
        | inl t ↦ let eq : id ≡ j = (nat_eq_iff id j).0 t in rw (n, ← eq) (h.known id r e)
      ];
}

pub wake-place :
    (e : Event) (r : Routine) {r' : Routine}
    → react e r ≡ some r'
    → (r'.place ≡ r.place) × (is_running r'.phase ≡ is_running r.phase)
unfolding react
wake-place (ticks (ok settling)) r e = ground (arith)
wake-place (ticks (err x)) r e = ground (arith)
wake-place (ticks panic) r e = absurd (ground arith)
wake-place renews r e = ground (arith)
wake-place (expires_at now) r e = ground (arith)
wake-place told r e = ground (arith)

accept-place :
    (s : Send) (r : Routine) {r' : Routine}
    → accept s r ≡ some r'
    → (r'.place ≡ r.place) × (is_running r'.phase ≡ is_running r.phase)
unfolding accept
accept-place (sends_renewal p id t) r e = ground arith
accept-place (sends_retirement p id) r e = ground arith

pub change_routine-IsMatched :
    (id : ℕ) (f : Routine → Option Routine) (m : Monitor) {m' : Monitor}
    → ((r r' : Routine)
        → f r ≡ some r'
        → (r'.place ≡ r.place) × (is_running r'.phase ≡ is_running r.phase))
    → change_routine id f m ≡ some m'
    → IsMatched m
    → IsMatched m'
change_routine-IsMatched id f m k e h =
    let (r, q, e₁) = if_some-eq (lookup id m.routines) _ e in
    let (r', g, e₂) = if_some-eq (f r) _ e₁ in
    subst (λ x. IsMatched x) (some-injective e₂)
      (changed_routine m (record m { routines = insert id r' m.routines }) id r r' q (k r r' g).0
        (k r r' g).1 refl refl refl h)

pub hand_over-IsMatched :
    (i : ℕ) (m : Monitor) {m' : Monitor} → hand_over i m ≡ some m' → IsMatched m → IsMatched m'
unfolding hand_over
hand_over-IsMatched i m e h =
    let (t, q, e₁) = if_some-eq (take_at i m.sending) _ e in
    let (m₁, g, e₂) = if_some-eq (change_routine (target t.0) (accept t.0) m) _ e₁ in
    let h₁ = change_routine-IsMatched (target t.0) (accept t.0) m (accept-place t.0) g h in
    subst (λ x. IsMatched x) (some-injective e₂)
      (record { cached = h₁.cached; runs = h₁.runs; known = h₁.known })

pub queue_removal-IsMatched :
    (id : ℕ) (m : Monitor) {m' : Monitor}
    → queue_removal id m ≡ some m'
    → IsMatched m
    → IsMatched m'
unfolding queue_removal
queue_removal-IsMatched id m {m'} e h =
    let (r, q, e₁) = if_some-eq (lookup id m.routines) _ e in
    changed_routine m m' id r (record r { phase = queued }) q refl (ground arith) (ground arith)
      (ground arith) (ground arith) h

pub retire_channel-IsMatched :
    (id : ℕ) (m : Monitor) {m' : Monitor}
    → retire_channel id m ≡ some m'
    → IsMatched m
    → IsMatched m'
unfolding retire_channel
retire_channel-IsMatched id m {m'} e h =
    let (r, q, e₁) = if_some-eq (lookup id m.routines) _ e in
    changed_routine m m' id r (record r { phase = retired }) q refl (ground arith) (ground arith)
      (ground arith) (ground arith) h
