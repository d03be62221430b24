-- ===== src/Paychmon/Deadlock.antt =====
-- A jam of paychmon/ lasts: no call and no routine can undo it.
use mathlib.Core.Path.{subst}
use fcr.Paychmon.{
  watching, queued, retired, finished, Place, Monitor, sends_renewal, free_currency, track, forget,
  exists, run_op, queue_removal, retire_channel, find_control, take_at, renew, retire, wake, react,
}
use fcr.Paychmon.Steps.{
  Step, Reach, here, next, tracks, starts_renewal, starts_retirement, hands_over, wakes,
  queues_removal, retires_channel, forgets, runs_op, new,
}
use fcr.Base.{
  if_some-eq, some-injective, if◌then◌else◌, inl, inr, ℕ, ◌≡◌, Result, String, ok, >>=-eq-ok,
  Bool-cases, ◌||◌, ok-injective, nat_eq, false, arith, none, sym, ap, some, true, nat_eq_iff, ◌∙◌,
  nat_key, Bool, refl,
}
use fcr.Paymgr.Types.{Time}
use fcr.Paychmon.Jam.{
  InList, IsJammed, other_routine, not_free, hand_over-IsJammed, changed-IsJammed, react_stuck,
}
use fcr.Paychmon.Matched.{IsMatched}
use fcr.Base.Map.{lookup, insert}
use fcr.Paychmon.Reached.{Step-IsMatched, Reach-IsMatched}
use fcr.Mdlstore.{Store}
use fcr.Paychmon.Cache.{routine_at}

-- Where nothing changes but the calls that wait.
kept :
    (id : ℕ) (p : Place) (t : Time) (m m' : Monitor)
    → m'.routines ≡ m.routines
    → InList (sends_renewal p id t) m'.sending
    → IsJammed id p t m
    → IsJammed id p t m'
kept id p t m m' rs w h =
    let (r, u, e, pl, ph, run, box) = h.stuck in
    record { stuck = (r, u, rw rs e, pl, ph, run, box); waiting = w }

track-IsJammed :
    (id : ℕ) (p : Place) (t : Time) (check : Result (String × String)) (q : Place)
    (settlement : Time) (seen m : Monitor) {m' : Monitor}
    → track check q settlement seen m ≡ ok m'
    → IsMatched m
    → IsJammed id p t m
    → IsJammed id p t m'
unfolding track
track-IsJammed id p t check q settlement seen m {m'} e k h =
    let (a, f, e₁) = >>=-eq-ok check _ e in
    elim (Bool-cases (exists q seen.cache || exists q m.cache)) [
      | inl b ↦ subst (λ x. IsJammed id p t x) (ok-injective (rw b at e₁)) h
      | inr b ↦
          let (r, u, g, pl, ph, run, box) = h.stuck in
          let below = k.known id r g in
          let ne : nat_eq m.next_routine id ≡ false = ground arith in
          let new = ok-injective (rw b at e₁) in
          other_routine id m.next_routine p t m m'
            (record {
              place = q;
              peer_addr = if q.outbound then a.1 else a.0;
              expire = settlement;
              renew_box = none;
              retire_box = false;
              phase = watching;
            })
            ne (sym (ap (λ (x : Monitor). x.routines) new))
            (subst (λ y. InList (sends_renewal p id t) y) (ap (λ (x : Monitor). x.sending) new)
              h.waiting)
            h
    ]

forget-IsJammed :
    (j id : ℕ) (p : Place) (t : Time) (m : Monitor) {m' : Monitor}
    → forget j m ≡ some m'
    → IsJammed id p t m
    → IsJammed id p t m'
unfolding forget
forget-IsJammed j id p t m {m'} e h =
    let (s, q, e₁) = if_some-eq (lookup j m.routines) _ e in
    let rs : m'.routines ≡ insert j (record s { phase = finished }) m.routines = ground arith in
    let ss : m'.sending ≡ m.sending = ground arith in
    let free : free_currency s.place m.sending ≡ true = ground arith in
    elim (Bool-cases (nat_eq j id)) [
      | inr ne ↦
          other_routine id j p t m m' (record s { phase = finished }) ne rs (rw ss h.waiting) h
      | inl eq ↦
          let (r, u, f, pl, ph, run, box) = h.stuck in
          let ji : j ≡ id = (nat_eq_iff j id).0 eq in
          let sr : r ≡ s = some-injective (sym f ∙ rw ji at q) in
          let here_p : s.place ≡ p = rw (← sr) pl in
          let held = not_free s.place (sends_renewal p id t) m.sending (sym here_p) h.waiting in
          let clash : true ≡ false = sym free ∙ held in absurd (ground arith)
    ]

module _ (sep : String → Bool) (flag_text : Bool → String) (id_text : ℕ → String)
    (encode : Time → Time → Result String) where
  Step-IsJammed :
      (id : ℕ) (p : Place) (t : Time) (m : Monitor) {m' : Monitor}
      → Step sep flag_text id_text encode m m'
      → IsMatched m
      → IsJammed id p t m
      → IsJammed id p t m'
  unfolding renew retire run_op wake queue_removal retire_channel
  Step-IsJammed id p t m (tracks check q settlement seen free e) k h =
      track-IsJammed id p t check q settlement seen m e k h
  Step-IsJammed id p t m {m'} (starts_renewal q settlement seen free e) k h =
      let (first, f, e₁) = >>=-eq-ok (find_control q seen.cache) _ e in
      let (j, g, e₂) = >>=-eq-ok (find_control q m.cache) _ e₁ in
      subst (λ x. IsJammed id p t x) (ok-injective e₂)
        (record { stuck = h.stuck; waiting = inr h.waiting })
  Step-IsJammed id p t m (starts_retirement q free e) k h =
      let (j, g, e₂) = >>=-eq-ok (find_control q m.cache) _ e in
      subst (λ x. IsJammed id p t x) (ok-injective e₂)
        (record { stuck = h.stuck; waiting = inr h.waiting })
  Step-IsJammed id p t m (hands_over i e) k h = hand_over-IsJammed i id p t m e h
  Step-IsJammed id p t m {m'} (wakes j ev e) k h =
      let (s, q, e₁) = if_some-eq (lookup j m.routines) _ e in
      let (s', g, e₂) = if_some-eq (react ev s) _ e₁ in
      let new = some-injective e₂ in
      changed-IsJammed id j p t m m' s s' q (sym (ap (λ (x : Monitor). x.routines) new))
        (λ u a b c. absurd (react_stuck ev s a g))
        (subst (λ y. InList (sends_renewal p id t) y) (ap (λ (x : Monitor). x.sending) new)
          h.waiting)
        h
  Step-IsJammed id p t m {m'} (queues_removal j e) k h =
      let (s, q, e₁) = if_some-eq (lookup j m.routines) _ e in
      let ss : m'.sending ≡ m.sending = ground arith in
      changed-IsJammed id j p t m m' s (record s { phase = queued }) q (ground arith)
        (λ u a b c. (refl, refl, refl, c)) (rw ss h.waiting) h
  Step-IsJammed id p t m {m'} (retires_channel j e) k h =
      let (s, q, e₁) = if_some-eq (lookup j m.routines) _ e in
      let ss : m'.sending ≡ m.sending = ground arith in
      changed-IsJammed id j p t m m' s (record s { phase = retired }) q (ground arith)
        (λ u a b c. (refl, refl, refl, c)) (rw ss h.waiting) h
  Step-IsJammed id p t m (forgets j e) k h = forget-IsJammed j id p t m e h
  Step-IsJammed id p t m {m'} (runs_op i now e) k h =
      let (x, q, e₁) = if_some-eq (take_at i m.pending) _ e in
      subst (λ x. IsJammed id p t x) (some-injective e₁)
        (record { stuck = h.stuck; waiting = h.waiting })

  Reach-IsJammed :
      (id : ℕ) (p : Place) (t : Time) (m : Monitor) {m' : Monitor}
      → Reach sep flag_text id_text encode m m'
      → IsMatched m
      → IsJammed id p t m
      → IsMatched m' × IsJammed id p t m'
  Reach-IsJammed id p t m here k h = (k, h)
  Reach-IsJammed id p t m (next {m' = m₁} r st) k h =
      let (k', h') = Reach-IsJammed id p t m r k h in
      (Step-IsMatched sep flag_text id_text encode st k', Step-IsJammed id p t m₁ st k' h')

  -- Once a routine has left its loop with a new settlement unread in its Go channel while a call of Renew
  -- holds its lock to send another, the channel stays in the cache and the call waits in every state that
  -- the monitor can still reach.
  pub jam_lasts :
      (s : Store) (id : ℕ) (p : Place) (t : Time) (m : Monitor) {m' : Monitor}
      → Reach sep flag_text id_text encode (new s) m
      → IsJammed id p t m
      → Reach sep flag_text id_text encode m m'
      → (routine_at p m'.cache ≡ some id) × InList (sends_renewal p id t) m'.sending
  jam_lasts s id p t m start h r =
      let (k', h') =
        Reach-IsJammed id p t m r (Reach-IsMatched sep flag_text id_text encode s start) h in
      let (q, u, e, pl, ph, run, box) = h'.stuck in (rw (← pl) (k'.runs id q e run), h'.waiting)
