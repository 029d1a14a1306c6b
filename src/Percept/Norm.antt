-- ===== src/Percept/Norm.antt =====
-- `clamp`, `nz` and `unit` of capstone/percept/norm.py.
use tactical_radio_jamming_s.Base.{◌≡◌, true, if◌then◌else◌, Number, IsOrdered, of_ℕ, arith}

module _ {F : Type 0} ⦃num : Number F⦄ where
  open num use {lt, le, sub, mul, div, neg}

  unfoldable pub clamp : F → F → F → F
  clamp low high x = if lt x low then low else if lt high x then high else x

  -- clamped to -1 and 1
  unfoldable pub nz : F → F → F → F
  nz x offset scale = clamp (neg (of_ℕ 1)) (of_ℕ 1) (div (sub x offset) scale)

  unfoldable pub unit : F → F
  unit x = clamp (neg (of_ℕ 1)) (of_ℕ 1) (sub (mul (of_ℕ 2) x) (of_ℕ 1))

  abbrev pub IsWithin : F → F → F → Type 0
  IsWithin low high x = (le low x ≡ true) × (le x high ≡ true)

  pub clamp-IsWithin :
      (ord : IsOrdered F) (low high x : F)
      → le low high ≡ true
      → IsWithin low high (clamp low high x)
  unfolding clamp
  clamp-IsWithin ord low high x h =
      ground
        (arith, ord.le_refl low, ord.le_refl high, ord.lt-eq-not-le x low, ord.lt-eq-not-le high x)

  -- If the order of the numbers is total and -1 is at most 1, a normalised feature lies between -1
  -- and 1, whatever its value, offset and scale.
  pub nz-IsWithin :
      (ord : IsOrdered F) (x offset scale : F)
      → le (neg (of_ℕ 1)) (of_ℕ 1) ≡ true
      → IsWithin (neg (of_ℕ 1)) (of_ℕ 1) (nz x offset scale)
        × IsWithin (neg (of_ℕ 1)) (of_ℕ 1) (unit x)
  unfolding nz unit
  nz-IsWithin ord x offset scale h = (
    clamp-IsWithin ord (neg (of_ℕ 1)) (of_ℕ 1) _ h,
    clamp-IsWithin ord (neg (of_ℕ 1)) (of_ℕ 1) _ h,
  )
