-- ===== src/Paychmon/Invariant.antt =====
-- Every step of paychmon/ keeps the cache and the routines matched.
use fcr.Paychmon.{
  watching, finished, Monitor, Routine, delete_control, same_place, forget, Place, track, exists,
  set_control,
}
use mathlib.Core.Path.{subst}
use fcr.Base.{
  if◌then◌else◌, if_some-eq, some-injective, ℕ, ◌≡◌, some, true, arith, none, sym, ◌∙◌, Bool-cases,
  inl, inr, nat_eq, nat_eq_iff, false, refl, nat_key, Result, String, ok, >>=-eq-ok, ◌||◌,
  ok-injective, suc, ap,
}
use fcr.Paychmon.Matched.{IsMatched, is_running}
use fcr.Paychmon.Cache.{
  routine_at-delete_control, routine_at, same_place_iff, routine_at-set_control, routine_at-exists,
}
use fcr.Base.Map.{lookup-insert, lookup, insert, is_some}
use fcr.Paymgr.Types.{Time}

finished_routine :
    (m m' : Monitor) (id : ℕ) (r r' : Routine)
    → lookup id m.routines ≡ some r
    → is_running r.phase ≡ true
    → is_running r'.phase ≡ false
    → m'.cache ≡ delete_control r.place m.cache
    → m'.next_routine ≡ m.next_routine
    → m'.routines ≡ insert id r' m.routines
    → IsMatched m
    → IsMatched m'
finished_routine m m' id r r' q run over c n rs h = record {
  cached = λ p j f.
      let cut = routine_at-delete_control r.place p m.cache in
      let f' : (if same_place r.place p then none else routine_at p m.cache) ≡ some j =
        sym cut ∙ rw c at f in
      elim (Bool-cases (same_place r.place p)) [
        | inl t ↦ let gone : none ≡ some j = rw t at f' in absurd (ground arith)
        | inr t ↦
            let (s, g, pl, live) = h.cached p j (rw t at f') in
            let there = lookup-insert id j r' m.routines in
            elim (Bool-cases (nat_eq id j)) [
              | inr u ↦ (s, rw (rs, there, u) g, pl, live)
              | inl u ↦
                  let eq : id ≡ j = (nat_eq_iff id j).0 u in
                  let sr : r ≡ s = some-injective (sym q ∙ rw eq g) in
                  let same = (same_place_iff r.place p).1 (rw sr pl) in
                  let clash : true ≡ false = sym same ∙ t in absurd (ground arith)
            ]
      ];
  runs = λ j s f live.
      let there = lookup-insert id j r' m.routines in
      let f' : (if nat_eq id j then some r' else lookup j m.routines) ≡ some s =
        sym there ∙ rw rs at f in
      elim (Bool-cases (nat_eq id j)) [
        | inl u ↦
            let sr : r' ≡ s = some-injective (rw u at f') in
            let clash : true ≡ false = sym live ∙ rw (← sr) over in absurd (ground arith)
        | inr u ↦
            let old = h.runs j s (rw u at f') live in
            elim (Bool-cases (same_place r.place s.place)) [
              | inr t ↦ rw (c, routine_at-delete_control r.place s.place m.cache, t) old
              | inl t ↦
                  let pl = (same_place_iff r.place s.place).0 t in
                  let both : some id ≡ some j = sym (h.runs id r q run) ∙ rw pl old in
                  let eq = (nat_eq_iff id j).1 (some-injective both) in
                  let clash : true ≡ false = sym eq ∙ u in absurd (ground arith)
            ]
      ];
  known = λ j s f.
      let there = lookup-insert id j r' m.routines in
      let f' : (if nat_eq id j then some r' else lookup j m.routines) ≡ some s =
        sym there ∙ rw rs at f in
      elim (Bool-cases (nat_eq id j)) [
        | inr u ↦ rw n (h.known j s (rw u at f'))
        | inl u ↦ let eq : id ≡ j = (nat_eq_iff id j).0 u in rw (n, ← eq) (h.known id r q)
      ];
}

pub forget-IsMatched :
    (id : ℕ) (m : Monitor) {m' : Monitor} → forget id m ≡ some m' → IsMatched m → IsMatched m'
unfolding forget
forget-IsMatched id m {m'} e h =
    let (r, q, e₁) = if_some-eq (lookup id m.routines) _ e in
    finished_routine m m' id r (record r { phase = finished }) q (ground arith) refl (ground arith)
      (ground arith) (ground arith) h

new_routine :
    (m m' : Monitor) (r : Routine)
    → routine_at r.place m.cache ≡ none
    → is_running r.phase ≡ true
    → m'.cache ≡ set_control r.place m.next_routine m.cache
    → m'.next_routine ≡ suc m.next_routine
    → m'.routines ≡ insert m.next_routine r m.routines
    → IsMatched m
    → IsMatched m'
new_routine m m' r absent run c n rs h = record {
  cached = λ p j f.
      let set = routine_at-set_control r.place p m.next_routine m.cache in
      let f' : (if same_place r.place p then some m.next_routine else routine_at p m.cache)
          ≡ some j =
        sym set ∙ rw c at f in
      let there = lookup-insert m.next_routine j r m.routines in
      elim (Bool-cases (same_place r.place p)) [
        | inl t ↦
            let eq = (nat_eq_iff m.next_routine j).1 (some-injective (rw t at f')) in
            (r, rw (rs, there, eq) refl, (same_place_iff r.place p).0 t, run)
        | inr t ↦
            let (s, g, pl, live) = h.cached p j (rw t at f') in
            let old = h.known j s g in
            let differ : nat_eq m.next_routine j ≡ false = ground arith in
            (s, rw (rs, there, differ) g, pl, live)
      ];
  runs = λ j s f live.
      let there = lookup-insert m.next_routine j r m.routines in
      let f' : (if nat_eq m.next_routine j then some r else lookup j m.routines) ≡ some s =
        sym there ∙ rw rs at f in
      elim (Bool-cases (nat_eq m.next_routine j)) [
        | inl u ↦
            let sr : r ≡ s = some-injective (rw u at f') in
            let eq : m.next_routine ≡ j = (nat_eq_iff m.next_routine j).0 u in
            let same = (same_place_iff r.place r.place).1 refl in
            rw (c, ← sr, routine_at-set_control r.place r.place m.next_routine m.cache, same, eq)
              refl
        | inr u ↦
            let old = h.runs j s (rw u at f') live in
            elim (Bool-cases (same_place r.place s.place)) [
              | inr t ↦ rw (c, routine_at-set_control r.place s.place m.next_routine m.cache, t) old
              | inl t ↦
                  let pl = (same_place_iff r.place s.place).0 t in
                  let clash : none ≡ some j = sym absent ∙ rw pl old in absurd (ground arith)
            ]
      ];
  known = λ j s f.
      let there = lookup-insert m.next_routine j r m.routines in
      let f' : (if nat_eq m.next_routine j then some r else lookup j m.routines) ≡ some s =
        sym there ∙ rw rs at f in
      elim (Bool-cases (nat_eq m.next_routine j)) [
        | inr u ↦ let old = h.known j s (rw u at f') in rw n (omega arith)
        | inl u ↦
            let eq : m.next_routine ≡ j = (nat_eq_iff m.next_routine j).0 u in
            rw (n, ← eq) (omega arith)
      ];
}

pub track-IsMatched :
    (check : Result (String × String)) (p : Place) (settlement : Time) (seen m : Monitor)
    {m' : Monitor}
    → track check p settlement seen m ≡ ok m'
    → IsMatched m
    → IsMatched m'
unfolding track
track-IsMatched check p settlement seen m {m'} e h =
    let (a, f, e₁) = >>=-eq-ok check _ e in
    elim (Bool-cases (exists p seen.cache || exists p m.cache)) [
      | inl t ↦ subst (λ x. IsMatched x) (ok-injective (rw t at e₁)) h
      | inr t ↦
          let cut : exists p m.cache ≡ false = ground arith in
          let gone : is_some (routine_at p m.cache) ≡ false =
            sym (routine_at-exists p m.cache) ∙ cut in
          let absent : routine_at p m.cache ≡ none = ground arith in
          let r : Routine = record {
            place = p;
            peer_addr = if p.outbound then a.1 else a.0;
            expire = settlement;
            renew_box = none;
            retire_box = false;
            phase = watching;
          } in
          let new = ok-injective (rw t at e₁) in
          new_routine m m' r absent refl (ap (λ (x : Monitor). x.cache) (sym new))
            (ap (λ (x : Monitor). x.next_routine) (sym new))
            (ap (λ (x : Monitor). x.routines) (sym new)) h
    ]
