-- ===== src/Base/Floats.antt =====
-- Python floats, as far as the code computes with them: literals, the four operations and two
-- comparisons. Every theorem that needs a law names it; `Fixed`, integers in millionths, is a
-- concrete type of numbers on which all definitions run.
use Prim.Native.Nat.{ℕ, ◌+◌, ◌*◌, ◌/◌, ◌^◌}
use mathlib.Core.Path.{◌≡◌}
use mathlib.Core.Logic.{◌⊎◌}
use mathlib.Core.Bool.{Bool, true, not, ◌&&◌}
use mathlib.Core.List.{List, [], ◌∷◌}
use native.Mathlib.Omega.{arith}
use tactical_radio_jamming_s.Base.Logic.{if◌then◌else◌}
use tactical_radio_jamming_s.Base.Int.{ℤ, pos, ◌+ℤ◌, ◌-ℤ◌, ◌*ℤ◌, quot, ltb_ℤ, leb_ℤ, pos_part}

pub record Number (F : Type 0) : Type 0 where
  -- the literal n / 10 ^ k
  pub decimal : ℕ → ℕ → F
  pub neg : F → F
  pub add : F → F → F
  pub sub : F → F → F
  pub mul : F → F → F
  pub div : F → F → F
  pub lt : F → F → Bool
  pub le : F → F → Bool
  -- `int(x)` of a number that is not negative, `int(round(x))`, and `round(x, digits)`
  pub floor : F → ℕ
  pub round_int : F → ℕ
  pub round : F → ℕ → F

module _ {F : Type 0} ⦃num : Number F⦄ where
  open num use {decimal, lt, le, add}

  abbrev pub lit : ℕ → ℕ → F
  lit = decimal

  abbrev pub of_ℕ : ℕ → F
  of_ℕ n = decimal n 0

  -- the truth value of a float: every number but zero
  abbrev pub truthy : F → Bool
  truthy x = not (le x (of_ℕ 0) && le (of_ℕ 0) x)

  -- `max(a, b)` and `min(a, b)` keep `a` unless `b` is strictly beyond it
  abbrev pub max_of : F → F → F
  max_of a b = if lt a b then b else a

  abbrev pub min_of : F → F → F
  min_of a b = if lt b a then b else a

  -- `sum(xs)` adds from the left
  abbrev pub sum_from : F → List F → F
  sum_from acc [] = acc
  sum_from acc (x ∷ xs) = sum_from (add acc x) xs

  abbrev pub sum : List F → F
  sum = sum_from (of_ℕ 0)

-- The order of the floats that are not NaN.
pub record IsOrdered (F : Type 0) ⦃num : Number F⦄ : Type 0 where
  pub le_refl : (x : F) → num.le x x ≡ true
  pub le_trans : (x y z : F) → num.le x y ≡ true → num.le y z ≡ true → num.le x z ≡ true
  pub lt-eq-not-le : (x y : F) → num.lt x y ≡ not (num.le y x)
  pub le_total : (x y : F) → (num.le x y ≡ true) ⊎ (num.le y x ≡ true)

-- Integers in millionths.
abbrev pub Fixed : Type 0
Fixed = ℤ

abbrev million : ℤ
million = pos 1_000_000

-- half away from zero on what is not negative
abbrev rounded : ℤ → ℕ → ℤ
rounded x unit = if leb_ℤ (pos 0) x then pos ((pos_part x + unit / 2) / unit * unit) else x

instance abbrev pub fixed_number : Number Fixed
fixed_number = record {
  decimal = λ n k. pos (n * 1_000_000 / 10 ^ k);
  neg = λ a. pos 0 -ℤ a;
  add = ◌+ℤ◌;
  sub = ◌-ℤ◌;
  mul = λ a b. quot (a *ℤ b) million;
  div = λ a b. quot (a *ℤ million) b;
  lt = ltb_ℤ;
  le = leb_ℤ;
  floor = λ a. pos_part a / 1_000_000;
  round_int = λ a. (pos_part a + 500_000) / 1_000_000;
  round = λ a k. rounded a (10 ^ 6 / 10 ^ k);
}

pub Fixed-IsOrdered : IsOrdered Fixed
Fixed-IsOrdered = record {
  le_refl = λ x. ground arith;
  le_trans = λ x y z p q. ground arith;
  lt-eq-not-le = λ x y. ground arith;
  le_total = λ x y. ground arith;
}
