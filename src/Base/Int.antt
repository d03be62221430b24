-- ===== src/Base/Int.antt =====
-- Signed integers over the native numbers, for Go's *big.Int, with the Euclidean division of
-- (*big.Int).Div, which panics when the divisor is zero.
use fcr.Base.Tests.{ltb, leb, if◌then◌else◌, Result, ok, panic}
use Prim.Native.Nat.{ℕ, zero, suc, ◌+◌, ◌-◌, ◌*◌, ◌/◌, ◌≤◌}
use mathlib.Core.Path.{◌≡◌, refl, ap}
use mathlib.Core.Bool.{Bool, true, false, ◌&&◌}
use mathlib.Core.Logic.{◌⊎◌}
use native.Mathlib.Omega.{arith}

-- `negsuc n` is -(n + 1).
pub data ℤ : Type 0 where
  pos : ℕ → ℤ
  negsuc : ℕ → ℤ

abbrev pub pos_part : ℤ → ℕ
pos_part (pos n) = n
pos_part (negsuc n) = 0

abbrev pub neg_part : ℤ → ℕ
neg_part (pos n) = 0
neg_part (negsuc n) = suc n

abbrev pub sub_ℕ : ℕ → ℕ → ℤ
sub_ℕ a b = if leb b a then pos (a - b) else negsuc (b - a - 1)

infixl 65 ◌+ℤ◌ ◌-ℤ◌
infixl 70 ◌*ℤ◌
infix 50 ◌≤ℤ◌ ◌<ℤ◌
unfoldable pub ◌+ℤ◌ : ℤ → ℤ → ℤ
a +ℤ b = sub_ℕ (pos_part a + pos_part b) (neg_part a + neg_part b)

unfoldable pub ◌-ℤ◌ : ℤ → ℤ → ℤ
a -ℤ b = sub_ℕ (pos_part a + neg_part b) (neg_part a + pos_part b)

unfoldable pub ◌*ℤ◌ : ℤ → ℤ → ℤ
a *ℤ b =
    sub_ℕ (pos_part a * pos_part b + neg_part a * neg_part b)
      (pos_part a * neg_part b + neg_part a * pos_part b)

unfoldable pub div : ℤ → ℤ → Result ℤ
div (pos n) (pos zero) = panic
div (pos n) (pos (suc d)) = ok (pos (n / suc d))
div (pos n) (negsuc d) = ok (sub_ℕ 0 (n / suc d))
div (negsuc n) (pos zero) = panic
div (negsuc n) (pos (suc d)) = ok (negsuc (n / suc d))
div (negsuc n) (negsuc d) = ok (pos (suc (n / suc d)))

abbrev pub ◌≤ℤ◌ : ℤ → ℤ → Type 0
a ≤ℤ b = pos_part a + neg_part b ≤ pos_part b + neg_part a

abbrev pub ◌<ℤ◌ : ℤ → ℤ → Type 0
a <ℤ b = suc (pos_part a + neg_part b) ≤ pos_part b + neg_part a

-- `a.Cmp(b) < 0`, `a.Cmp(b) <= 0` and `a.Cmp(b) == 0`.
abbrev pub ltb_ℤ : ℤ → ℤ → Bool
ltb_ℤ a b = ltb (pos_part a + neg_part b) (pos_part b + neg_part a)

abbrev pub leb_ℤ : ℤ → ℤ → Bool
leb_ℤ a b = leb (pos_part a + neg_part b) (pos_part b + neg_part a)

abbrev pub eqb_ℤ : ℤ → ℤ → Bool
eqb_ℤ a b = leb_ℤ a b && leb_ℤ b a

-- A test with what it says of the numbers.
pub lt-cases : (a b : ℤ) → ((ltb_ℤ a b ≡ true) × (a <ℤ b)) ⊎ ((ltb_ℤ a b ≡ false) × (b ≤ℤ a))
lt-cases a b = ground arith

pub le-cases : (a b : ℤ) → ((leb_ℤ a b ≡ true) × (a ≤ℤ b)) ⊎ ((leb_ℤ a b ≡ false) × (b <ℤ a))
le-cases a b = ground arith

pub lt→ltb : (a b : ℤ) → a <ℤ b → ltb_ℤ a b ≡ true
lt→ltb a b h = ground arith

pub le→ltb : (a b : ℤ) → b ≤ℤ a → ltb_ℤ a b ≡ false
le→ltb a b h = ground arith

pub le→leb : (a b : ℤ) → a ≤ℤ b → leb_ℤ a b ≡ true
le→leb a b h = ground arith

pub lt→leb : (a b : ℤ) → b <ℤ a → leb_ℤ a b ≡ false
lt→leb a b h = ground arith

pub +ℤ_parts :
    (a b : ℤ)
    → pos_part (a +ℤ b) + neg_part a + neg_part b ≡ neg_part (a +ℤ b) + pos_part a + pos_part b
unfolding ◌+ℤ◌
+ℤ_parts a b = ground arith

pub -ℤ_parts :
    (a b : ℤ)
    → pos_part (a -ℤ b) + neg_part a + pos_part b ≡ neg_part (a -ℤ b) + pos_part a + neg_part b
unfolding ◌-ℤ◌
-ℤ_parts a b = ground arith

pub eq_of_parts : (a b : ℤ) → pos_part a + neg_part b ≡ pos_part b + neg_part a → a ≡ b
eq_of_parts a b h = ground arith

pub ruleset int_laws = (arith, +ℤ_parts, -ℤ_parts, eq_of_parts)

pub +ℤ_comm : (a b : ℤ) → a +ℤ b ≡ b +ℤ a
+ℤ_comm a b = omega int_laws

-- Products are read through their parts as well.
pub *ℤ_parts :
    (a b : ℤ)
    → pos_part (a *ℤ b) + (pos_part a * neg_part b + neg_part a * pos_part b)
      ≡ neg_part (a *ℤ b) + (pos_part a * pos_part b + neg_part a * neg_part b)
unfolding ◌*ℤ◌
*ℤ_parts a b = ground arith

-- On numbers that are not negative the operations are those of ℕ.
pub pos-add : (a b : ℕ) → pos a +ℤ pos b ≡ pos (a + b)
unfolding ◌+ℤ◌
pos-add a b = ground arith

pub pos-sub : (a b : ℕ) → b ≤ a → pos a -ℤ pos b ≡ pos (a - b)
unfolding ◌-ℤ◌
pos-sub a b h = ground arith

pub pos-mul : (a b : ℕ) → pos a *ℤ pos b ≡ pos (a * b)
unfolding ◌*ℤ◌
pos-mul a b = ground arith

pub *ℤ_distrib : (k a b : ℤ) → k *ℤ (a +ℤ b) ≡ k *ℤ a +ℤ k *ℤ b
*ℤ_distrib k a b = omega (
  int_laws,
  *ℤ_parts k (a +ℤ b),
  *ℤ_parts k a,
  *ℤ_parts k b,
  ap (λ (t : ℕ). pos_part k * t) (+ℤ_parts a b),
  ap (λ (t : ℕ). neg_part k * t) (+ℤ_parts a b),
)

div_signs : (div (pos 7) (negsuc 1) ≡ ok (negsuc 2)) × (div (negsuc 6) (pos 2) ≡ ok (negsuc 3))
unfolding div
div_signs = (refl, refl)
