-- ===== src/Scenario/Split.antt =====
-- capstone/scenario/split.py: the family of a scenario's name, and the part of the corpus it belongs to.
-- A name is the list of its code points. `str.isdigit` of a character, the hash bucket of a name and
-- the environment variable for the family held out are parameters.
pub mod Families
mod Tests
use tactical_radio_jamming_s.Base.{
  ℕ, ◌==◌, Bool, true, false, not, ◌&&◌, Option, none, some, List, [], ◌∷◌, ◌++◌, ltb, any, all,
  if◌then◌else◌,
}

abbrev pub Name : Type 0
Name = List ℕ

pub data Part : Type 0 where
  train val test : Part

abbrev pub is_test : Part → Bool
is_test test = true
is_test _ = false

-- `name.rsplit("#", 1)`, when there is a mark: the text before the last one
unfoldable pub before_last : ℕ → Name → Option Name
before_last c [] = none
before_last c (x ∷ xs) = elim (before_last c xs) [
  | some p ↦ some (x ∷ p)
  | none ↦ if x == c then some [] else none
]

abbrev pub stem_of : Name → Name
stem_of name = elim (before_last b'#' name) [ none ↦ name | some p ↦ p ]

abbrev pub cons_first : ℕ → List Name → List Name
cons_first x [] = (x ∷ []) ∷ []
cons_first x (p ∷ ps) = (x ∷ p) ∷ ps

-- `str.split` at a character
unfoldable pub split_at : ℕ → Name → List Name
split_at c [] = [] ∷ []
split_at c (x ∷ xs) = let rest = split_at c xs in if x == c then [] ∷ rest else cons_first x rest

-- `str.join`
unfoldable pub join_with : ℕ → List Name → Name
join_with c [] = []
join_with c (p ∷ []) = p
join_with c (p ∷ q ∷ ps) = p ++ (c ∷ join_with c (q ∷ ps))

abbrev pub or_name : Name → Name → Name
or_name [] b = b
or_name (x ∷ xs) b = x ∷ xs

-- `==` on texts
abbrev pub same_name : Name → Name → Bool
same_name [] [] = true
same_name [] (y ∷ ys) = false
same_name (x ∷ xs) [] = false
same_name (x ∷ xs) (y ∷ ys) = x == y && same_name xs ys

module _ (is_digit : ℕ → Bool) where
  -- `str.isdigit`: false for the empty text
  abbrev pub all_digits : Name → Bool
  all_digits [] = false
  all_digits (x ∷ xs) = all is_digit (x ∷ xs)

  -- a part goes if it is a number and nothing is left behind it
  abbrev pub keep_part : Name → List Name → List Name
  keep_part p [] = if all_digits p then [] else p ∷ []
  keep_part p (q ∷ qs) = p ∷ q ∷ qs

  -- the loop that pops numbers from the end
  unfoldable pub pop_digits : List Name → List Name
  pop_digits [] = []
  pop_digits (p ∷ ps) = keep_part p (pop_digits ps)

  unfoldable pub family_of : Name → Name
  family_of name =
      or_name (join_with b'_' (pop_digits (split_at b'_' (stem_of name)))) (stem_of name)

  abbrev pub given_or : Option Name → Name → Name
  given_or none name = family_of name
  given_or (some family) name = or_name family (family_of name)

  module _ (held_out : Name) (bucket : Name → ℕ) where
    -- `hold and fam == hold`
    abbrev is_held : Name → Bool
    is_held family = not (same_name held_out []) && same_name family held_out

    unfoldable pub split_of : Name → Option Name → Part
    split_of name family =
        if is_held (given_or family name)
        then test
        else if ltb (bucket name) 70
        then train
        else if ltb (bucket name) 85
        then val
        else test

    abbrev pub is_trainable : Name → Option Name → Bool
    is_trainable name family = not (is_test (split_of name family))

-- whether the assertion holds
abbrev pub assert_no_leak : List Name → List Name → Bool
assert_no_leak train_names test_names = not (any (λ n. any (same_name n) test_names) train_names)
