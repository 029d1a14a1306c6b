-- ===== src/Verifier/Aggregate.antt =====
-- `_median`, `aggregate`, `confusion` and `gates` of verify/verifier.py.
use text.Mathlib.Text.{◌==◌ as str_eq}
use tactical_radio_jamming_s.Base.{
  ℕ, ◌+◌, ◌-◌, ◌/◌, ◌%◌, ◌==◌, String, Bool, true, false, Option, none, some, List, [], ◌∷◌, map,
  any, keep, count, length, get_elem?, or_else, if◌then◌else◌, Number, lit, of_ℕ, sum,
}
use tactical_radio_jamming_s.Api.{Cause, unknown, fading, cause_eq}
use tactical_radio_jamming_s.Verifier.Score.{EpisodeScore}

abbrev pub is_true : Option Bool → Bool
is_true none = false
is_true (some b) = b

-- One row of the confusion matrix: `row[k] = row.get(k, 0) + 1`.
unfoldable pub bump : Cause → List (Cause × ℕ) → List (Cause × ℕ)
bump c [] = (c, 1) ∷ []
bump c ((d, n) ∷ row) = if cause_eq c d then (d, n + 1) ∷ row else (d, n) ∷ bump c row

-- `m.setdefault(t, {})` and then the row's `bump`
unfoldable pub bump_in :
    Cause → Cause → List (Cause × List (Cause × ℕ)) → List (Cause × List (Cause × ℕ))
unfolding bump
bump_in t c [] = (t, bump c []) ∷ []
bump_in t c ((d, row) ∷ m) = if cause_eq t d then (d, bump c row) ∷ m else (d, row) ∷ bump_in t c m

module _ {F : Type 0} where
  -- the column of a score: `s.declared_cause or "unknown"`
  abbrev pub column : EpisodeScore F → Cause
  column s = or_else s.declared_cause unknown

  unfoldable pub confusion_from :
      List (Cause × List (Cause × ℕ)) → List (EpisodeScore F) → List (Cause × List (Cause × ℕ))
  unfolding bump_in
  confusion_from m [] = m
  confusion_from m (s ∷ scores) = confusion_from (bump_in s.true_cause (column s) m) scores

  unfoldable pub confusion : List (EpisodeScore F) → List (Cause × List (Cause × ℕ))
  unfolding confusion_from
  confusion = confusion_from []

  -- the values that are not `None`
  abbrev pub present : List (Option F) → List F
  present [] = []
  present (none ∷ xs) = present xs
  present (some x ∷ xs) = x ∷ present xs

  -- `sorted({s.family for s in scores})`, up to order: each family once
  unfoldable pub families : List (EpisodeScore F) → List String
  families [] = []
  families (s ∷ scores) =
      let rest = families scores in
      if any (λ f. str_eq f s.family) rest then rest else s.family ∷ rest

pub record FamilyRow (F : Type 0) : Type 0 where
  pub family : String
  pub n : ℕ
  pub classification_acc : F
  pub expected_cost : F
  pub detection_latency_median_s : Option F
  pub survival_rate : F
  pub actions_mean : F

pub record Scorecard (F : Type 0) : Type 0 where
  pub n : ℕ
  pub classification_acc : F
  pub expected_cost : F
  pub detection_latency_median_s : Option F
  pub censoring_rate : F
  pub fp_fading_belief : Option F
  pub fp_fading_acted : Option F
  pub recovery_median_s : Option F
  pub never_recovered_rate : F
  pub packets_lost_mean : F
  pub actions_mean : F
  pub hops_mean : F
  pub survival_rate : F
  pub refusal_gate_pass : Option F
  pub by_family : List (FamilyRow F)
  pub confusion_matrix : List (Cause × List (Cause × ℕ))

pub record Gate (F : Type 0) : Type 0 where
  pub value : Option F
  pub target : F
  pub applicable : Bool
  pub passed : Bool

module _ {F : Type 0} ⦃num : Number F⦄ where
  open num use {lt, le, add, div}

  insert : F → List F → List F
  insert x [] = x ∷ []
  insert x (y ∷ ys) = if lt x y then x ∷ y ∷ ys else y ∷ insert x ys

  -- `sorted(xs)`
  pub sorted : List F → List F
  unfolding insert
  sorted [] = []
  sorted (x ∷ xs) = insert x (sorted xs)

  abbrev halfway : Option F → Option F → Option F
  halfway (some a) (some b) = some (div (add a b) (lit 2 0))
  halfway _ _ = none

  unfoldable pub median : List (Option F) → Option F
  unfolding sorted
  median xs =
      let s = sorted (present xs) in
      let n = length s in
      if n % 2 == 1
      then get_elem? s (n / 2)
      else if n == 0
      then none
      else halfway (get_elem? s (n / 2 - 1)) (get_elem? s (n / 2))

  -- `sum(p(s) for s in scores) / len(scores)`
  abbrev pub rate : (EpisodeScore F → Bool) → List (EpisodeScore F) → F
  rate p scores = div (of_ℕ (count p scores)) (of_ℕ (length scores))

  -- the rate, or `None` over an empty list
  abbrev pub rate? : (EpisodeScore F → Bool) → List (EpisodeScore F) → Option F
  rate? p [] = none
  rate? p (s ∷ scores) = some (rate p (s ∷ scores))

  abbrev pub mean : (EpisodeScore F → F) → List (EpisodeScore F) → F
  mean f scores = div (sum (map f scores)) (of_ℕ (length scores))

  abbrev pub is_fading : EpisodeScore F → Bool
  is_fading s = cause_eq s.true_cause fading

  abbrev never_recovered : EpisodeScore F → Bool
  never_recovered s = elim s.recovery_time_s [ none ↦ true | some _ ↦ false ]

  family_row : List (EpisodeScore F) → String → FamilyRow F
  unfolding median
  family_row scores f =
      let own = keep (λ s. str_eq s.family f) scores in
      record {
        family = f;
        n = length own;
        classification_acc = rate (λ s. s.classification_ok) own;
        expected_cost = mean (λ s. s.expected_cost) own;
        detection_latency_median_s = median (map (λ s. s.detection_latency_s) own);
        survival_rate = rate (λ s. s.survived) own;
        actions_mean = mean (λ s. of_ℕ s.actions_consumed) own;
      }

  abbrev pub refusals : List (EpisodeScore F) → List (EpisodeScore F)
  refusals = keep (λ s. s.refusal_required)

  summarise : List (EpisodeScore F) → Scorecard F
  unfolding median family_row families confusion
  summarise scores =
      let fading_ones = keep is_fading scores in
      record {
        n = length scores;
        classification_acc = rate (λ s. s.classification_ok) scores;
        expected_cost = mean (λ s. s.expected_cost) scores;
        detection_latency_median_s = median (map (λ s. s.detection_latency_s) scores);
        censoring_rate = rate (λ s. s.censored) scores;
        fp_fading_belief = rate? (λ s. s.false_positive) fading_ones;
        fp_fading_acted = rate? (λ s. s.false_positive_acted) fading_ones;
        recovery_median_s = median (map (λ s. s.recovery_time_s) scores);
        never_recovered_rate = rate never_recovered scores;
        packets_lost_mean = mean (λ s. s.packets_lost) scores;
        actions_mean = mean (λ s. of_ℕ s.actions_consumed) scores;
        hops_mean = mean (λ s. of_ℕ s.hops_consumed) scores;
        survival_rate = rate (λ s. s.survived) scores;
        refusal_gate_pass = rate? (λ s. is_true s.refusal_ok) (refusals scores);
        by_family = map (family_row scores) (families scores);
        confusion_matrix = confusion scores;
      }

  -- No scores give no scorecard.
  unfoldable pub aggregate : List (EpisodeScore F) → Option (Scorecard F)
  unfolding summarise
  aggregate [] = none
  aggregate (s ∷ scores) = some (summarise (s ∷ scores))

  abbrev passes_below : F → Option F → Bool
  passes_below top none = true
  passes_below top (some v) = le v top

  abbrev passes_above : F → Option F → Bool
  passes_above floor none = true
  passes_above floor (some v) = le floor v

  abbrev measured : Option F → Bool
  measured none = false
  measured (some _) = true

  -- A gate with nothing to measure is not applicable, and passes.
  unfoldable pub false_positive_gate : F → Option (Scorecard F) → Gate F
  false_positive_gate fp_max card =
      let fp : Option F = elim card [ none ↦ none | some c ↦ c.fp_fading_acted ] in
      record {
        value = fp;
        target = fp_max;
        applicable = measured fp;
        passed = passes_below fp_max fp;
      }

  unfoldable pub refusal_gate : Option (Scorecard F) → Gate F
  refusal_gate card =
      let rg : Option F = elim card [ none ↦ none | some c ↦ c.refusal_gate_pass ] in
      record {
        value = rg;
        target = of_ℕ 1;
        applicable = measured rg;
        passed = passes_above (of_ℕ 1) rg;
      }
