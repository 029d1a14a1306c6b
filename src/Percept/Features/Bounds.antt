-- ===== src/Percept/Features/Bounds.antt =====
-- The shape of the vector of features: how many there are, and within which bounds.
use tactical_radio_jamming_s.Base.{
  ◌≡◌, refl, true, List, length, All, Number, IsOrdered, of_ℕ, [], ◌∷◌,
}
use tactical_radio_jamming_s.Percept.Observation.{RawObs}
use tactical_radio_jamming_s.Percept.Norm.{clamp, nz, unit, IsWithin, clamp-IsWithin}
use tactical_radio_jamming_s.Percept.Features.{FeatureMath, FeatureExtractor}
use tactical_radio_jamming_s.Percept.Features.Advance.{advance}
use tactical_radio_jamming_s.Percept.Features.Vector.{feature_names, update, vector}

module _ {F : Type 0} ⦃num : Number F⦄ (math : FeatureMath F) where
  open num use {neg, le}

  -- An update returns one number for each of the names of `FEATURE_NAMES`.
  pub length-update :
      (o : RawObs F) (x : FeatureExtractor F) → length (update math o x).0 ≡ length feature_names
  unfolding update
  length-update o x = refl

  -- a number from -1 to 1
  abbrev pub IsUnit : F → Type 0
  IsUnit = IsWithin (neg (of_ℕ 1)) (of_ℕ 1)

  module _ (ord : IsOrdered F) (h : le (neg (of_ℕ 1)) (of_ℕ 1) ≡ true) where
    bounded : (x : F) → IsUnit (clamp (neg (of_ℕ 1)) (of_ℕ 1) x)
    bounded x = clamp-IsWithin ord (neg (of_ℕ 1)) (of_ℕ 1) x h

    abbrev clampeds : List F → List F
    clampeds [] = []
    clampeds (x ∷ xs) = clamp (neg (of_ℕ 1)) (of_ℕ 1) x ∷ clampeds xs

    clampeds-IsUnit : (xs : List F) → All IsUnit (clampeds xs)
    clampeds-IsUnit [] = tt
    clampeds-IsUnit (x ∷ xs) = (bounded x, clampeds-IsUnit xs)

    vector-IsUnit : (o : RawObs F) (x : FeatureExtractor F) → All IsUnit (vector math o x)
    unfolding unit nz
    vector-IsUnit o x = clampeds-IsUnit (
        _ ∷ _ ∷ _ ∷ _ ∷ _ ∷ _ ∷ _ ∷ _ ∷ _ ∷ _ ∷ _ ∷ _ ∷ _ ∷ _ ∷ _ ∷ _ ∷ _ ∷ _ ∷ _ ∷ _ ∷ _ ∷ _ ∷ _
        ∷ _ ∷ _ ∷ _ ∷ _ ∷ _ ∷ _ ∷ _ ∷ _ ∷ _ ∷ _ ∷ _ ∷ _ ∷ _ ∷ _ ∷ _ ∷ _ ∷ _ ∷ _ ∷ _ ∷ _ ∷ _ ∷ _ ∷ _
        ∷ _ ∷ _ ∷ _ ∷ _ ∷ _ ∷ _ ∷ _ ∷ _ ∷ _ ∷ _ ∷ [])

    -- If the order of the numbers is total and -1 is at most 1, then whatever was observed before and
    -- now, every one of the features that an update returns lies between -1 and 1.
    pub update-IsUnit : (o : RawObs F) (x : FeatureExtractor F) → All IsUnit (update math o x).0
    unfolding update
    update-IsUnit o x = vector-IsUnit o (advance math o x)
