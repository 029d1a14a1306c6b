-- ===== src/Verifier/Confusion.antt =====
-- The confusion matrix counts the scores, and the refusal gate reads every one of them.
use tactical_radio_jamming_s.Base.{
  ℕ, ◌+◌, ◌^◌, ◌≤◌, ◌<◌, ◌≡◌, refl, leb, Bool, true, false, not, ◌&&◌, ◌||◌, Option, none, some,
  List, [], ◌∷◌, count, all, length, if◌then◌else◌, Number, of_ℕ, arith, ◌∙◌,
}
use tactical_radio_jamming_s.Api.{Cause, cause_eq, cause_eq→eq, cause_eq_refl}
use tactical_radio_jamming_s.Verifier.Score.{EpisodeScore}
use tactical_radio_jamming_s.Verifier.Aggregate.{
  bump, bump_in, column, confusion_from, confusion, is_true, rate?, refusals, aggregate,
  refusal_gate,
}

-- `row.get(c, 0)`
pub entry : Cause → List (Cause × ℕ) → ℕ
entry c [] = 0
entry c ((d, n) ∷ row) = if cause_eq c d then n else entry c row

-- `m.get(t, {}).get(c, 0)`
pub cell : Cause → Cause → List (Cause × List (Cause × ℕ)) → ℕ
unfolding entry
cell t c [] = 0
cell t c ((d, row) ∷ m) = if cause_eq t d then entry c row else cell t c m

abbrev one_if : Bool → ℕ
one_if true = 1
one_if false = 0

entry-bump :
    (c d : Cause) (row : List (Cause × ℕ))
    → entry c (bump d row) ≡ one_if (cause_eq c d) + entry c row
unfolding entry bump
entry-bump c d [] = ground arith
entry-bump c d ((e, n) ∷ row) =
    ground (
      arith,
      entry-bump c d row,
      cause_eq→eq d e,
      cause_eq→eq c d,
      cause_eq→eq c e,
      cause_eq_refl d,
    )

cell-bump_in :
    (t c u d : Cause) (m : List (Cause × List (Cause × ℕ)))
    → cell t c (bump_in u d m) ≡ one_if (cause_eq t u && cause_eq c d) + cell t c m
unfolding cell bump_in
cell-bump_in t c u d [] = ground (arith, entry-bump c d [])
cell-bump_in t c u d ((v, row) ∷ m) = ground (
  arith,
  entry-bump c d row,
  cell-bump_in t c u d m,
  cause_eq→eq u v,
  cause_eq→eq t u,
  cause_eq→eq t v,
  cause_eq_refl u,
)

module _ {F : Type 0} where
  abbrev pub is_in_cell : Cause → Cause → EpisodeScore F → Bool
  is_in_cell t c s = cause_eq t s.true_cause && cause_eq c (column s)

  cell-confusion_from :
      (t c : Cause) (scores : List (EpisodeScore F)) (m : List (Cause × List (Cause × ℕ)))
      → cell t c (confusion_from m scores) ≡ count (is_in_cell t c) scores + cell t c m
  unfolding confusion_from
  cell-confusion_from t c [] m = omega arith
  cell-confusion_from t c (s ∷ scores) m = ground (
    arith,
    cell-confusion_from t c scores (bump_in s.true_cause (column s) m),
    cell-bump_in t c s.true_cause (column s) m,
  )

  -- Every cell of the confusion matrix is the number of the scores with that true cause and that
  -- declared cause, a missing one counted as `unknown`.
  pub cell-confusion :
      (t c : Cause) (scores : List (EpisodeScore F))
      → cell t c (confusion scores) ≡ count (is_in_cell t c) scores
  unfolding confusion cell
  cell-confusion t c scores = omega (arith, cell-confusion_from t c scores [])

-- What the gate needs of float division: the quotient of two counts below 2 ^ 53 is at least 1.0
-- exactly if the first is at least the second.
abbrev pub HasRatios : (F : Type 0) ⦃num : Number F⦄ → Type 0
HasRatios F ⦃num⦄ =
    (a b : ℕ)
    → 0 < b
    → a < 2 ^ 53
    → b < 2 ^ 53
    → num.le (of_ℕ 1) (num.div (of_ℕ a) (of_ℕ b)) ≡ leb b a

module _ {F : Type 0} ⦃num : Number F⦄ where
  count_le : (p : EpisodeScore F → Bool) (xs : List (EpisodeScore F)) → count p xs ≤ length xs
  count_le p [] = omega arith
  count_le p (x ∷ xs) = ground (arith, count_le p xs)

  all-eq-count :
      (p : EpisodeScore F → Bool) (xs : List (EpisodeScore F))
      → leb (length xs) (count p xs) ≡ all p xs
  all-eq-count p [] = refl
  all-eq-count p (x ∷ xs) = ground (arith, all-eq-count p xs, count_le p xs)

  -- a score that the refusal gate has nothing against
  abbrev pub refuses_well : EpisodeScore F → Bool
  refuses_well s = not s.refusal_required || is_true s.refusal_ok

  all-refusals :
      (xs : List (EpisodeScore F))
      → all (λ s. is_true s.refusal_ok) (refusals xs) ≡ all refuses_well xs
  all-refusals [] = refl
  all-refusals (x ∷ xs) = ground (arith, all-refusals xs)

  length-refusals : (xs : List (EpisodeScore F)) → length (refusals xs) ≤ length xs
  length-refusals [] = omega arith
  length-refusals (x ∷ xs) = ground (arith, length-refusals xs)

  abbrev above_one : Option F → Bool
  above_one none = true
  above_one (some v) = num.le (of_ℕ 1) v

  above_one-rate? :
      (law : HasRatios F) (p : EpisodeScore F → Bool) (xs : List (EpisodeScore F))
      → length xs < 2 ^ 53
      → above_one (rate? p xs) ≡ all p xs
  above_one-rate? law p [] h = refl
  above_one-rate? law p (x ∷ xs) h =
      law (count p (x ∷ xs)) (length (x ∷ xs)) (omega arith) (omega (arith, count_le p (x ∷ xs))) h
      ∙ all-eq-count p (x ∷ xs)

  -- If fewer than 2 ^ 53 episodes are scored and quotients of counts compare with 1.0 as they should,
  -- the refusal gate passes exactly when every episode that has to be refused was refused well.
  pub refusal_gate_passed :
      (law : HasRatios F) (scores : List (EpisodeScore F))
      → length scores < 2 ^ 53
      → (refusal_gate (aggregate scores)).passed ≡ all refuses_well scores
  unfolding refusal_gate aggregate
  refusal_gate_passed law [] h = refl
  refusal_gate_passed law (s ∷ scores) h =
      above_one-rate? law (λ s. is_true s.refusal_ok) (refusals (s ∷ scores))
        (omega (arith, length-refusals (s ∷ scores)))
      ∙ all-refusals (s ∷ scores)
