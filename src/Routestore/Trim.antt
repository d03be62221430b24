-- ===== src/Routestore/Trim.antt =====
-- What a trimmed route is: a prefix of at most the hops allowed that visits no node twice and does not
-- come back to the node itself.
use mathlib.Core.Path.{subst}
use fcr.Routestore.Table.{length, take, check_acyclic, trim_route}
use fcr.Base.{
  String, List, Bool, [], false, ◌∷◌, ◌==◌, ◌||◌, ◌≡◌, none, true, refl, arith, text_key, ok,
  Option-cases, inr, inl, ◌↔◌, ℕ, ◌≤◌, zero, suc, ap, nat_eq, Bool-cases, >>=-eq-ok, ok-injective,
  if◌then◌else◌, ltb,
}
use fcr.Base.Map.{Map, lookup-insert, lookup, insert}

-- Whether a node is on a route.
abbrev pub visits : String → List String → Bool
visits x [] = false
visits x (y ∷ ys) = y == x || visits x ys

abbrev pub IsSimple : List String → Type 0
IsSimple [] = Unit {0}
IsSimple (x ∷ xs) = (visits x xs ≡ false) × IsSimple xs

-- No node of the route is among those visited.
abbrev IsFresh : Map String Bool → List String → Type 0
IsFresh visited [] = Unit {0}
IsFresh visited (x ∷ xs) = (lookup x visited ≡ none) × IsFresh visited xs

IsFresh-insert :
    (visited : Map String Bool) (x : String) (xs : List String)
    → IsFresh (insert x true visited) xs
    → IsFresh visited xs × (visits x xs ≡ false)
IsFresh-insert visited x [] h = (tt, refl)
IsFresh-insert visited x (y ∷ ys) (f, h) = ground (
  arith,
  lookup-insert x y true visited,
  text_key.beq_iff x y,
  text_key.beq_iff y x,
  IsFresh-insert visited x ys h,
)

insert-IsFresh :
    (visited : Map String Bool) (x : String) (xs : List String)
    → IsFresh visited xs
    → visits x xs ≡ false
    → IsFresh (insert x true visited) xs
insert-IsFresh visited x [] h v = tt
insert-IsFresh visited x (y ∷ ys) (f, h) v = ground (
  arith,
  lookup-insert x y true visited,
  text_key.beq_iff x y,
  text_key.beq_iff y x,
  insert-IsFresh visited x ys h,
)

acyclic-IsSimple :
    (visited : Map String Bool) (route : List String)
    → check_acyclic visited route ≡ ok tt
    → IsSimple route × IsFresh visited route
unfolding check_acyclic
acyclic-IsSimple visited [] e = (tt, tt)
acyclic-IsSimple visited (x ∷ route) e = elim (Option-cases (lookup x visited)) [
  | inr (b, p) ↦ absurd (ground arith)
  | inl p ↦
      let (simple, fresh) = acyclic-IsSimple (insert x true visited) route (rw p at e) in
      let (rest, new) = IsFresh-insert visited x route fresh in ((new, simple), (p, rest))
]

IsSimple-acyclic :
    (visited : Map String Bool) (route : List String)
    → IsSimple route
    → IsFresh visited route
    → check_acyclic visited route ≡ ok tt
unfolding check_acyclic
IsSimple-acyclic visited [] h f = refl
IsSimple-acyclic visited (x ∷ route) (new, simple) (p, rest) = rw p (
    IsSimple-acyclic (insert x true visited) route simple (insert-IsFresh visited x route rest new))

from_root :
    (root : String) (xs : List String) → IsFresh ((root, true) ∷ []) xs ↔ (visits root xs ≡ false)
from_root root [] = (λ h. refl, λ h. tt)
from_root root (x ∷ xs) =
    ground (arith, from_root root xs, text_key.beq_iff root x, text_key.beq_iff x root)

length-take : (n : ℕ) (xs : List String) → length (take n xs) ≤ n
unfolding length take
length-take zero xs = ground arith
length-take (suc n) [] = ground arith
length-take (suc n) (x ∷ xs) = ground (arith, length-take n xs)

take_all : (n : ℕ) (xs : List String) → length xs ≤ n → take n xs ≡ xs
unfolding length take
take_all zero [] h = refl
take_all zero (x ∷ xs) h = absurd (ground arith)
take_all (suc n) [] h = refl
take_all (suc n) (x ∷ xs) h = ap (λ (ys : List String). x ∷ ys) (take_all n xs (ground arith))

-- What trim_route trims, as one function of the route.
trimmed-take :
    (route : List String) (hops : ℕ)
    → (if ltb hops (length route) then take hops route else route) ≡ take hops route
trimmed-take route hops = ground (arith, take_all hops route)

check_acyclic-tt :
    (visited : Map String Bool) (route : List String) (u : Unit {0})
    → check_acyclic visited route ≡ ok u
    → check_acyclic visited route ≡ ok tt
check_acyclic-tt visited route tt e = e

pub trim_route_accepts :
    (root : String) (route : List String) (hops : ℕ) (r : List String)
    → (trim_route root route hops ≡ ok r)
      ↔ ((nat_eq (length route) 1 ≡ false) × (take hops route ≡ r) × IsSimple (root ∷ r))
unfolding trim_route
trim_route_accepts root route hops r = (there, back)
  where
    cut : (if ltb hops (length route) then take hops route else route) ≡ take hops route
    cut = trimmed-take route hops

    there :
        trim_route root route hops ≡ ok r
        → (nat_eq (length route) 1 ≡ false) × (take hops route ≡ r) × IsSimple (root ∷ r)
    there e = elim (Bool-cases (nat_eq (length route) 1)) [
      | inl f ↦ absurd (ground arith)
      | inr f ↦
          let (u, c, g) =
            >>=-eq-ok (check_acyclic ((root, true) ∷ []) (take hops route)) _ (rw (f, cut) at e) in
          let same : take hops route ≡ r = ok-injective g in
          let (simple, fresh) =
            acyclic-IsSimple ((root, true) ∷ []) (take hops route)
              (check_acyclic-tt ((root, true) ∷ []) (take hops route) u c) in
          (
            f,
            same,
            subst (λ (x : List String). IsSimple (root ∷ x)) same
                ((from_root root (take hops route)).0 fresh, simple),
          )
    ]

    back :
        (nat_eq (length route) 1 ≡ false) × (take hops route ≡ r) × IsSimple (root ∷ r)
        → trim_route root route hops ≡ ok r
    back (f, same, (new, simple)) =
        let acyclic = IsSimple-acyclic ((root, true) ∷ []) r simple ((from_root root r).1 new) in
        rw (f, cut, same, acyclic)

-- A route that is accepted has at most the hops allowed.
pub trim_route_bound :
    (root : String) (route : List String) (hops : ℕ) (r : List String)
    → trim_route root route hops ≡ ok r
    → length r ≤ hops
trim_route_bound root route hops r e =
    let (f, same, simple) = (trim_route_accepts root route hops r).0 e in
    subst (λ (x : List String). length x ≤ hops) same (length-take hops route)
