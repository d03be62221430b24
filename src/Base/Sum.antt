-- ===== src/Base/Sum.antt =====
-- Sums over a map, and maps whose keys are distinct.
use fcr.Base.Tests.{Bool-cases, Eq, ◌==◌}
use fcr.Base.Int.{ℤ, pos, ◌+ℤ◌, int_laws}
use fcr.Base.Map.{Map, lookup, insert, erase, lookup-insert, lookup-erase}
use mathlib.Core.Path.{ap, subst₂, ◌≡◌, refl}
use mathlib.Core.Logic.{inl, inr}
use mathlib.Core.Option.{none, some}
use mathlib.Core.List.{[], ◌∷◌}
use native.Mathlib.Omega.{arith}

module _ {K V : Type 0} (f : V → ℤ) where
  abbrev pub total : Map K V → ℤ
  total [] = pos 0
  total ((k, v) ∷ m) = f v +ℤ total m

abbrev pub All : {K V : Type 0} → (K → V → Type 0) → Map K V → Type 0
All P [] = Unit {0}
All P ((k, v) ∷ m) = P k v × All P m

module _ {K V : Type 0} ⦃e : Eq K⦄ where
  abbrev pub Distinct : Map K V → Type 0
  Distinct [] = Unit {0}
  Distinct ((k, v) ∷ m) = (lookup k m ≡ none) × Distinct m

  pub insert-Distinct : (k : K) (v : V) (m : Map K V) → Distinct m → Distinct (insert k v m)
  insert-Distinct k v [] h = (refl, tt)
  insert-Distinct k v ((j, w) ∷ m) h =
      ground (arith, e.beq_iff j k, e.beq_iff k j, insert-Distinct k v m h.1, lookup-insert k j v m)

  pub erase-Distinct : (k : K) (m : Map K V) → Distinct m → Distinct (erase k m)
  erase-Distinct k [] h = tt
  erase-Distinct k ((j, w) ∷ m) h = ground (arith, erase-Distinct k m h.1, lookup-erase k j m)

  pub erase-absent : (k : K) (m : Map K V) → lookup k m ≡ none → erase k m ≡ m
  erase-absent k [] h = refl
  erase-absent k ((j, w) ∷ m) h = ground (arith, erase-absent k m)

  pub insert-All :
      (P : K → V → Type 0) (k : K) (v : V) (m : Map K V) → P k v → All P m → All P (insert k v m)
  insert-All P k v [] p h = (p, tt)
  insert-All P k v ((j, w) ∷ m) p h = ground (arith, insert-All P k v m p h.1)

  pub erase-All : (P : K → V → Type 0) (k : K) (m : Map K V) → All P m → All P (erase k m)
  erase-All P k [] h = tt
  erase-All P k ((j, w) ∷ m) h = ground (arith, erase-All P k m h.1)

  pub lookup-All :
      (P : K → V → Type 0) (k : K) (v : V) (m : Map K V) → All P m → lookup k m ≡ some v → P k v
  lookup-All P k v [] h q = cc
  lookup-All P k v ((j, w) ∷ m) h q = elim (Bool-cases (j == k)) [
    | inl hit ↦
        subst₂ P ((e.beq_iff j k).0 hit) (ap (λ o. elim o [ none ↦ w | some u ↦ u ]) (rw hit at q))
          h.0
    | inr miss ↦ lookup-All P k v m h.1 (rw miss at q)
  ]

  module _ (f : V → ℤ) where
    pub total-insert :
        (k : K) (v old : V) (m : Map K V)
        → lookup k m ≡ some old
        → total f (insert k v m) +ℤ f old ≡ total f m +ℤ f v
    total-insert k v old [] q = cc
    total-insert k v old ((j, w) ∷ m) q = grind (int_laws, total-insert k v old m)

    pub total-insert_new :
        (k : K) (v : V) (m : Map K V)
        → lookup k m ≡ none
        → total f (insert k v m) ≡ total f m +ℤ f v
    total-insert_new k v [] q = omega int_laws
    total-insert_new k v ((j, w) ∷ m) q = grind (int_laws, total-insert_new k v m)

    pub total-erase :
        (k : K) (old : V) (m : Map K V)
        → Distinct m
        → lookup k m ≡ some old
        → total f (erase k m) +ℤ f old ≡ total f m
    total-erase k old [] d q = cc
    total-erase k old ((j, w) ∷ m) d q =
        grind (int_laws, e.beq_iff j k, erase-absent k m, total-erase k old m d.1)
