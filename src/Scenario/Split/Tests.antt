-- ===== src/Scenario/Split/Tests.antt =====
-- The names of scenarios.
use tactical_radio_jamming_s.Base.{ℕ, ◌==◌, ◌||◌, ◌≡◌, refl, Bool, none, [], ◌∷◌, ◌++◌}
use tactical_radio_jamming_s.Scenario.Split.{
  Name, test, before_last, split_at, join_with, pop_digits, family_of, split_of,
}
use tactical_radio_jamming_s.Scenario.Split.Families.{family_of-split_of}

abbrev is_digit : ℕ → Bool
is_digit c = c == b'0' || c == b'1' || c == b'2'

abbrev numbers : Name
numbers = b'1' ∷ b'0' ∷ b'2' ∷ []

-- `a_b_102`
two_words :
    family_of is_digit ((b'a' ∷ b'_' ∷ b'b' ∷ []) ++ (b'_' ∷ numbers)) ≡ b'a' ∷ b'_' ∷ b'b' ∷ []
unfolding family_of join_with pop_digits split_at before_last
two_words = refl

only_number : family_of is_digit numbers ≡ numbers
unfolding family_of join_with pop_digits split_at before_last
only_number = refl

kept_word :
    pop_digits is_digit (split_at b'_' (b's' ∷ b'w' ∷ [])) ≡ split_at b'_' (b's' ∷ b'w' ∷ [])
unfolding pop_digits split_at
kept_word = refl

family_of-split_of_example :
    (family_of is_digit ((b's' ∷ b'w' ∷ []) ++ (b'_' ∷ numbers)) ≡ b's' ∷ b'w' ∷ [])
    × (split_of is_digit (b's' ∷ b'w' ∷ []) (λ n. 3) ((b's' ∷ b'w' ∷ []) ++ (b'_' ∷ numbers)) none
        ≡ test)
family_of-split_of_example =
    family_of-split_of is_digit b's' (b'w' ∷ []) numbers (λ n. 3) refl refl refl refl kept_word
