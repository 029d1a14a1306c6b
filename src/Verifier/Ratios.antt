-- ===== src/Verifier/Ratios.antt =====
-- The quotients of counts in the concrete numbers compare with 1.0 as the refusal gate needs.
use native.Mathlib.Nat.{le-div_iff_mul-le}
use tactical_radio_jamming_s.Base.{Fixed, fixed_number, ◌≡◌, ◌*◌, ◌/◌, ◌<◌, leb, arith, ℕ, ◌∙◌}
use tactical_radio_jamming_s.Base.Int.{quot, ◌*ℤ◌, pos, leb_ℤ}
use tactical_radio_jamming_s.Verifier.Confusion.{HasRatios}

div-le : (a b : ℕ) → 0 < b → leb 1_000_000 (a * 1_000_000 * 1_000_000 / (b * 1_000_000)) ≡ leb b a
div-le a b p = ground (
  arith,
  le-div_iff_mul-le {k = b * 1_000_000} {x = 1_000_000} {y = a * 1_000_000 * 1_000_000}
      (omega arith),
)

mul-pos : (a b : ℕ) → pos a *ℤ pos b ≡ pos (a * b)
unfolding ◌*ℤ◌
mul-pos a b = ground arith

over : (a : ℕ) → a * 1_000_000 / 1 ≡ a * 1_000_000
over a = omega arith

one_le : (a : ℕ) → leb_ℤ (pos 1_000_000) (pos a) ≡ leb 1_000_000 a
one_le a = ground arith

quotient_le :
    (x y : ℕ)
    → leb_ℤ (pos 1_000_000) (quot (pos x *ℤ pos 1_000_000) (pos y))
      ≡ leb 1_000_000 (x * 1_000_000 / y)
unfolding quot
quotient_le x y = rw mul-pos (one_le (x * 1_000_000 / y))

plain :
    (a b : ℕ)
    → 0 < b
    → leb 1_000_000 (a * 1_000_000 / 1 * 1_000_000 / (b * 1_000_000 / 1)) ≡ leb b a
plain a b p = rw (over a, over b) (div-le a b p)

pub Fixed-HasRatios : HasRatios Fixed
Fixed-HasRatios a b p q r = quotient_le (a * 1_000_000 / 1) (b * 1_000_000 / 1) ∙ plain a b p
