-- ===== src/Paychmon/Jam.antt =====
-- The one way in which the calls and the routines of paychmon/ block each other.
use fcr.Paychmon.{
  ticks, renews, expires_at, told, sends_retirement, hand_over, change_routine, accept, target,
}
use fcr.Base.{panic, if_some-eq, ap}
use mathlib.Core.Path.{subst}
use fcr.Paychmon.{
  sends_renewal, Send, take_at, Place, place_of, free_currency, Monitor, Routine, is_watching,
  Event, expires_at, react,
}
use fcr.Base.{
  List, [], ◌∷◌, ◌≡◌, ◌⊎◌, ℕ, some, zero, some-injective, suc, Option-cases, inl, none, arith, inr,
  false, refl, true, nat_key, nat_eq, Bool-cases, nat_eq_iff, sym, ◌∙◌, ok, err, panic,
}
use fcr.Paychmon.Cache.{same_place_iff}
use fcr.Paymgr.Types.{Time}
use fcr.Paychmon.Matched.{is_running}
use fcr.Base.Map.{lookup, lookup-insert, lookup-insert_self, insert}

abbrev pub InList : Send → List Send → Type 0
InList s [] = ⊥
InList s (x ∷ xs) = (x ≡ s) ⊎ InList s xs

take_at-InList :
    (i : ℕ) (xs : List Send) (s : Send) {t : Send × List Send}
    → take_at i xs ≡ some t
    → InList s xs
    → (t.0 ≡ s) ⊎ InList s t.1
unfolding take_at
take_at-InList i [] s e h = elim h [ ]
take_at-InList zero (x ∷ xs) s e h =
    subst (λ (t : Send × List Send). (t.0 ≡ s) ⊎ InList s t.1) (some-injective e) h
take_at-InList (suc i) (x ∷ xs) s {t} e h = elim (Option-cases (take_at i xs)) [
  | inl q ↦ let gone : none ≡ some t = rw q at e in absurd (ground arith)
  | inr ((y, ys), q) ↦
      let same : (y, x ∷ ys) ≡ t = some-injective (rw q at e) in
      subst (λ (t : Send × List Send). (t.0 ≡ s) ⊎ InList s t.1) same
        (elim h [
          | inl eq ↦ inr (inl eq)
          | inr later ↦ elim (take_at-InList i xs s q later) [
            | inl eq ↦ inl eq
            | inr rest ↦ inr (inr rest)
          ]
        ])
]

pub not_free :
    (p : Place) (s : Send) (ss : List Send)
    → place_of s ≡ p
    → InList s ss
    → free_currency p ss ≡ false
unfolding free_currency
not_free p s [] e h = elim h [ ]
not_free p s (x ∷ xs) e (inl eq) =
    let same = (same_place_iff p p).1 refl in rw (eq, e) (ground arith)
not_free p s (x ∷ xs) e (inr later) = rw (not_free p s xs e later) (ground arith)

-- A routine has left its loop with a new settlement unread, and a call of Renew waits to send another.
pub record IsJammed (id : ℕ) (p : Place) (t : Time) (m : Monitor) : Type 0 where
  pub stuck :
      (r : Routine) × (u : Time) × (lookup id m.routines ≡ some r)
      × (r.place ≡ p)
      × (is_watching r.phase ≡ false)
      × (is_running r.phase ≡ true)
      × (r.renew_box ≡ some u)
  pub waiting : InList (sends_renewal p id t) m.sending

-- Another routine changes, or one that is new starts.
pub other_routine :
    (id j : ℕ) (p : Place) (t : Time) (m m' : Monitor) (r' : Routine)
    → nat_eq j id ≡ false
    → m'.routines ≡ insert j r' m.routines
    → InList (sends_renewal p id t) m'.sending
    → IsJammed id p t m
    → IsJammed id p t m'
other_routine id j p t m m' r' ne rs w h =
    let (r, u, e, pl, ph, run, box) = h.stuck in
    record {
      stuck = (r, u, rw (rs, lookup-insert j id r' m.routines, ne) e, pl, ph, run, box);
      waiting = w;
    }

-- The routine itself changes, but not what jams it.
same_routine :
    (id : ℕ) (p : Place) (t u : Time) (m m' : Monitor) (r' : Routine)
    → r'.place ≡ p
    → is_watching r'.phase ≡ false
    → is_running r'.phase ≡ true
    → r'.renew_box ≡ some u
    → m'.routines ≡ insert id r' m.routines
    → InList (sends_renewal p id t) m'.sending
    → IsJammed id p t m'
same_routine id p t u m m' r' pl ph run box rs w = record {
  stuck = (r', u, rw rs (lookup-insert_self id r' m.routines), pl, ph, run, box);
  waiting = w;
}

-- A step that changes one routine by `f`, and keeps the waiting call.
pub changed-IsJammed :
    (id j : ℕ) (p : Place) (t : Time) (m m' : Monitor) (s s' : Routine)
    → lookup j m.routines ≡ some s
    → m'.routines ≡ insert j s' m.routines
    → ((u : Time)
        → is_watching s.phase ≡ false
        → is_running s.phase ≡ true
        → s.renew_box ≡ some u
        → (s'.place ≡ s.place)
          × (is_watching s'.phase ≡ false)
          × (is_running s'.phase ≡ true)
          × (s'.renew_box ≡ some u))
    → InList (sends_renewal p id t) m'.sending
    → IsJammed id p t m
    → IsJammed id p t m'
changed-IsJammed id j p t m m' s s' q rs keep w h = elim (Bool-cases (nat_eq j id)) [
  | inr ne ↦ other_routine id j p t m m' s' ne rs w h
  | inl eq ↦
      let (r, u, e, pl, ph, run, box) = h.stuck in
      let ji : j ≡ id = (nat_eq_iff j id).0 eq in
      let sr : r ≡ s = some-injective (sym e ∙ rw (← ji) q) in
      let (pl', ph', run', box') = keep u (rw (← sr) ph) (rw (← sr) run) (rw (← sr) box) in
      same_routine id p t u m m' s' (pl' ∙ rw (← sr) pl) ph' run' box' (rw (← ji) rs) w
]

pub react_stuck :
    (e : Event) (r : Routine) {r' : Routine} → is_watching r.phase ≡ false → react e r ≡ some r' → ⊥
unfolding react
react_stuck (ticks (ok settling)) r n e = ground arith
react_stuck (ticks (err x)) r n e = ground arith
react_stuck (ticks panic) r n e = ground arith
react_stuck renews r n e = ground arith
react_stuck (expires_at now) r n e = ground arith
react_stuck told r n e = ground arith

accept_refused :
    (p : Place) (id : ℕ) (t : Time) (r : Routine) (u : Time) {r' : Routine}
    → r.renew_box ≡ some u
    → accept (sends_renewal p id t) r ≡ some r'
    → ⊥
unfolding accept
accept_refused p id t r u b e = ground arith

accept_full :
    (s : Send) (r : Routine) (u : Time) {r' : Routine}
    → is_watching r.phase ≡ false
    → is_running r.phase ≡ true
    → r.renew_box ≡ some u
    → accept s r ≡ some r'
    → (r'.place ≡ r.place)
      × (is_watching r'.phase ≡ false)
      × (is_running r'.phase ≡ true)
      × (r'.renew_box ≡ some u)
unfolding accept
accept_full (sends_renewal p id t) r u a b c e = ground arith
accept_full (sends_retirement p id) r u a b c e = ground arith

-- `hand_over` gets no value through for the routine, and drops another call.
pub hand_over-IsJammed :
    (i id : ℕ) (p : Place) (t : Time) (m : Monitor) {m' : Monitor}
    → hand_over i m ≡ some m'
    → IsJammed id p t m
    → IsJammed id p t m'
unfolding hand_over
hand_over-IsJammed i id p t m {m'} e h =
    let (x, q, e₁) = if_some-eq (take_at i m.sending) _ e in
    let (m₁, g, e₂) = if_some-eq (change_routine (target x.0) (accept x.0) m) _ e₁ in
    let (s, g₁, e₃) = if_some-eq (lookup (target x.0) m.routines) _ g in
    let (s', g₂, e₄) = if_some-eq (accept x.0 s) _ e₃ in
    let rs : m'.routines ≡ insert (target x.0) s' m.routines =
      sym (ap (λ (y : Monitor). y.routines) (some-injective e₂))
      ∙ sym (ap (λ (y : Monitor). y.routines) (some-injective e₄)) in
    let ss : x.1 ≡ m'.sending = ap (λ (y : Monitor). y.sending) (some-injective e₂) in
    let (r, u, f, pl, ph, run, box) = h.stuck in
    elim (take_at-InList i m.sending (sends_renewal p id t) q h.waiting) [
      | inr w ↦
          changed-IsJammed id (target x.0) p t m m' s s' g₁ rs
            (λ u' a b c. accept_full x.0 s u' a b c g₂)
            (subst (λ y. InList (sends_renewal p id t) y) ss w) h
      | inl own ↦
          let sr : r ≡ s = some-injective (sym f ∙ rw (ap target own) at g₁) in
          let full = rw own at g₂ in absurd (accept_refused p id t s u (rw (← sr) box) full)
    ]
