-- ===== src/Base/Tests.antt =====
-- Boolean tests on native numbers and texts, the conditional, and the outcome of a Go call.
use Prim.Native.Nat.{ℕ, compare, Ordering}
use Prim.Native.String.{String}
use mathlib.Core.Path.{◌≡◌, refl, ap}
use mathlib.Core.Logic.{◌↔◌, ◌⊎◌, inl, inr}
use mathlib.Core.Bool.{Bool, true, false}
use mathlib.Core.Option.{Option, none, some}
use native.Mathlib.Omega.{arith}
use text.Mathlib.Text.{◌==◌ as text_eq}
use text.Mathlib.TextEquality.{eq_iff}

abbrev pub ltb : ℕ → ℕ → Bool
ltb a b = elim (compare a b) [ Ordering.lt ↦ true | _ ↦ false ]

abbrev pub leb : ℕ → ℕ → Bool
leb a b = elim (compare a b) [ Ordering.gt ↦ false | _ ↦ true ]

abbrev pub nat_eq : ℕ → ℕ → Bool
nat_eq a b = elim (compare a b) [ Ordering.eq ↦ true | _ ↦ false ]

pub nat_eq_iff : (a b : ℕ) → (nat_eq a b ≡ true) ↔ (a ≡ b)
nat_eq_iff a b = ground arith

infix 1 if◌then◌else◌
abbrev pub if◌then◌else◌ {ℓ} : {A : Type ℓ} → Bool → A → A → A
if true then x else y = x
if false then x else y = y

pub Bool-cases : (b : Bool) → (b ≡ true) ⊎ (b ≡ false)
Bool-cases true = inl refl
Bool-cases false = inr refl

pub Option-cases {ℓ} : {A : Type ℓ} (o : Option A) → (o ≡ none) ⊎ ((a : A) × (o ≡ some a))
Option-cases none = inl refl
Option-cases (some a) = inr (a, refl)

-- Keys of the maps: currency ids, reservation ids and addresses.
pub record Eq (A : Type 0) : Type 0 where
  pub beq : A → A → Bool
  pub beq_iff : (a b : A) → (beq a b ≡ true) ↔ (a ≡ b)

infix 50 ◌==◌
abbrev pub ◌==◌ : {A : Type 0} ⦃e : Eq A⦄ → A → A → Bool
◌==◌ ⦃e⦄ = e.beq

instance abbrev pub nat_key : Eq ℕ
nat_key = record { beq = nat_eq; beq_iff = nat_eq_iff }

instance abbrev pub text_key : Eq String
text_key = record { beq = text_eq; beq_iff = eq_iff }

-- How a Go call ends: with a value, with a non-nil error, or in a panic.
pub data Result {ℓ} (A : Type ℓ) : Type ℓ where
  panic : Result A
  err : String → Result A
  ok : A → Result A

-- The call goes on with its value.
infixl 5 ◌>>=◌
abbrev pub ◌>>=◌ {ℓ κ} : {A : Type ℓ} {C : Type κ} → Result A → (A → Result C) → Result C
panic >>= next = panic
err message >>= next = err message
ok value >>= next = next value

-- `if c { return …, fmt.Errorf(…) }`
abbrev pub fail_if : Bool → String → Result (Unit {0})
fail_if true e = err e
fail_if false e = ok tt

infixl 5 ◌>>◌
abbrev pub ◌>>◌ {κ} : {C : Type κ} → Result (Unit {0}) → Result C → Result C
check >> rest = check >>= λ passed. rest

-- `v, ok := m[k]; if !ok { return …, fmt.Errorf(…) }`
abbrev pub or_fail {ℓ} : {A : Type ℓ} → Option A → String → Result A
or_fail none e = err e
or_fail (some a) e = ok a

pub >>=-eq-ok {ℓ κ} :
    {A : Type ℓ} {C : Type κ} (call : Result A) (next : A → Result C) {c : C}
    → (call >>= next) ≡ ok c
    → (value : A) × (call ≡ ok value) × (next value ≡ ok c)
>>=-eq-ok panic next e = cc
>>=-eq-ok (err message) next e = cc
>>=-eq-ok (ok value) next e = (value, refl, e)

abbrev or_default {ℓ} : {A : Type ℓ} → A → Result A → A
or_default d (ok a) = a
or_default d (err e) = d
or_default d panic = d

pub ok-injective {ℓ} : {A : Type ℓ} {a b : A} → ok a ≡ ok b → a ≡ b
ok-injective {a} h = ap (or_default a) h

pub Result-cases {ℓ} :
    {A : Type ℓ} (m : Result A)
    → ((a : A) × (m ≡ ok a)) ⊎ (((e : String) × (m ≡ err e)) ⊎ (m ≡ panic))
Result-cases (ok a) = inl (a, refl)
Result-cases (err e) = inr (inl (e, refl))
Result-cases panic = inr (inr refl)

pub some-injective {ℓ} : {A : Type ℓ} {a b : A} → some a ≡ some b → a ≡ b
some-injective {a} h = ap (λ o. elim o [ none ↦ a | some x ↦ x ]) h

-- `f` of a value that is there.
abbrev pub if_some {ℓ κ} : {A : Type ℓ} {C : Type κ} → Option A → (A → Option C) → Option C
if_some none f = none
if_some (some a) f = f a

pub if_some-eq {ℓ κ} :
    {A : Type ℓ} {C : Type κ} (o : Option A) (f : A → Option C) {c : C}
    → if_some o f ≡ some c
    → (a : A) × (o ≡ some a) × (f a ≡ some c)
if_some-eq none f e = cc
if_some-eq (some a) f e = (a, refl, e)
