-- ===== src/Corpus.antt =====
-- capstone/scenario/corpus.py: `validate`, which runs a scenario in the reference simulator, and `build`,
-- which looks for scenarios that pass. The generator `make` and the bucket of a name are parameters; the
-- text of a verdict is left out. `none` is an exception.
pub mod Verdicts
pub mod Search
pub mod Splits
mod Tests
use text.Mathlib.Text.{◌==◌ as str_eq}
use Prim.Native.Nat.{max}
use tactical_radio_jamming_s.Base.{
  ℕ, zero, suc, ◌+◌, ◌-◌, ◌/◌, String, Bool, true, false, not, ◌&&◌, ◌||◌, Option, none, some, List,
  [], ◌∷◌, ◌++◌, map, any, length, ltb, Number, lit, of_ℕ, min_of, sum, if◌then◌else◌,
}
use tactical_radio_jamming_s.Percept.Observation.{RawObs, LinkObs}
use tactical_radio_jamming_s.Scenario.{Scenario}
use tactical_radio_jamming_s.Scenario.Checks.{Problem}
use tactical_radio_jamming_s.Scenario.Checks as Checks
use tactical_radio_jamming_s.Sim.Radio.{Maths, Random}
use tactical_radio_jamming_s.Sim.State.{Setup, State, start}
use tactical_radio_jamming_s.Sim.Step.{step}

-- the families whose onset has to be seen
abbrev pub degrading : List String
degrading =
    "barrage" ∷ "spot" ∷ "refusal" ∷ "congestion" ∷ "hidden_term" ∷ "node_loss" ∷ "fading" ∷ []

module _ {F : Type 0} ⦃num : Number F⦄ where
  open num use {lt, le, add, sub, div, floor}

  abbrev pub mean_of : List F → F
  mean_of xs = div (sum xs) (of_ℕ (length xs))

  -- the mean delivery ratio of one observation
  abbrev pub delivered : RawObs F → F
  delivered o = div (sum (map (λ l. l.1.pdr) o.links)) (of_ℕ (max 1 (length o.links)))

  abbrev is_empty : List F → Bool
  is_empty [] = true
  is_empty (x ∷ xs) = false

  -- the verdict on the samples before and after the onset
  unfoldable pub judge : String → List F × List F → Bool
  judge family (pre, post) =
      let a = mean_of pre in
      let b = mean_of post in
      if is_empty pre || is_empty post
      then false
      else if lt a (lit 85 2)
      then false
      else not (any (str_eq family) degrading && lt (sub a (lit 12 2)) b)

  -- how many ticks are sampled
  abbrev pub ticks_of : Scenario F → F → ℕ
  ticks_of sc dt = floor (div (min_of sc.duration_s (lit 70 0)) dt)

  module _ {R : Type 0} (maths : Maths F) (rand : Random F R) where
    -- the loop over the ticks
    unfoldable pub sample : Setup F → F → ℕ → State F R → List F → List F → Option (List F × List F)
    sample setup onset zero s pre post = some (pre, post)
    sample setup onset (suc n) s pre post = elim (step maths rand setup none s) [
      | none ↦ none
      | some (o, s') ↦
          let early = lt o.t (sub onset (lit 1 0)) in
          sample setup onset n s' (if early then pre ++ (delivered o ∷ []) else pre)
            (if early then post else post ++ (delivered o ∷ []))
    ]

    abbrev pub judged : String → Option (List F × List F) → Option Bool
    judged family none = none
    judged family (some samples) = some (judge family samples)

    abbrev pub simulated : Scenario F → Option (Setup F × State F R) → Option Bool
    simulated sc none = none
    simulated sc (some (setup, s)) =
        judged sc.family (sample setup sc.truth.onset_t (ticks_of sc setup.dt) s [] [])

    abbrev pub checked : Scenario F → Option (List (Problem F)) → Option Bool
    checked sc none = none
    checked sc (some []) = simulated sc (start maths rand sc (lit 1 1))
    checked sc (some (p ∷ ps)) = some false

    -- `validate`
    unfoldable pub validate : Scenario F → Option Bool
    validate sc = checked sc (Checks.validate maths.dist sc)

-- What the search has found so far, and the next seed.
pub record Haul (F : Type 0) : Type 0 where
  pub out : List (Scenario F)
  pub rejected : ℕ
  pub seed : ℕ
  pub made : ℕ

pub record Split (F : Type 0) : Type 0 where
  pub train : List (Scenario F)
  pub val : List (Scenario F)
  pub test : List (Scenario F)

abbrev pub family_list : List String
family_list =
    "barrage" ∷ "spot" ∷ "reactive" ∷ "sweep" ∷ "fading" ∷ "node_loss" ∷ "congestion"
    ∷ "hidden_term" ∷ "refusal" ∷ []

-- The search, with `validate` and `make`, for `per` scenarios below a limit on the seeds.
module _ {F : Type 0} (check : Scenario F → Option Bool) (make : String → ℕ → Scenario F)
    (per limit : ℕ) where
  abbrev pub noted : Scenario F → Bool → Haul F → Haul F
  noted sc true h = record h { out = h.out ++ (sc ∷ []); seed = h.seed + 1; made = h.made + 1 }
  noted sc false h = record h { rejected = h.rejected + 1; seed = h.seed + 1 }

  -- the condition of the inner loop
  abbrev pub goes_on : Haul F → Bool
  goes_on h = ltb h.made per && ltb h.seed limit

  -- the inner loop, on fuel
  unfoldable pub gather : ℕ → String → Haul F → Option (Haul F)
  gather zero fam h = some h
  gather (suc fuel) fam h = elim (goes_on h) [
    | false ↦ some h
    | true ↦ elim (check (make fam h.seed)) [
      | none ↦ none
      | some ok ↦ gather fuel fam (noted (make fam h.seed) ok h)
    ]
  ]

  -- one family after the other; the seeds that are left are enough fuel
  unfoldable pub search : List String → Haul F → Option (Haul F)
  search [] h = some h
  search (fam ∷ fams) h = elim (gather (limit - h.seed) fam (record h { made = 0 })) [
    | none ↦ none
    | some h' ↦ search fams h'
  ]

-- The split by the bucket of a scenario's name; `hold` is the family held out, or the empty text.
module _ {F : Type 0} (bucket : Scenario F → ℕ) (hold : String) where
  abbrev pub is_held : Scenario F → Bool
  is_held sc = not (str_eq hold "") && str_eq sc.family hold

  abbrev pub place : Scenario F → Split F → Split F
  place sc sp =
      if is_held sc
      then record sp { test = sp.test ++ (sc ∷ []) }
      else if ltb (bucket sc) 70
      then record sp { train = sp.train ++ (sc ∷ []) }
      else if ltb (bucket sc) 85
      then record sp { val = sp.val ++ (sc ∷ []) }
      else record sp { test = sp.test ++ (sc ∷ []) }

  unfoldable pub split : List (Scenario F) → Split F → Split F
  split [] sp = sp
  split (sc ∷ scs) sp = split scs (place sc sp)

abbrev pub empty_split : {F : Type 0} → Split F
empty_split = record { train = []; val = []; test = [] }

abbrev pub empty_haul : {F : Type 0} → ℕ → Haul F
empty_haul seed0 = record { out = []; rejected = 0; seed = seed0; made = 0 }

module _ {F : Type 0} (check : Scenario F → Option Bool) (make : String → ℕ → Scenario F)
    (bucket : Scenario F → ℕ) (hold : String) where
  abbrev pub per_family : ℕ → ℕ
  per_family n_target = max 1 (n_target / length family_list)

  -- `build`: the split, and how many were rejected
  unfoldable pub build : ℕ → ℕ → Option (Split F × ℕ)
  build n_target seed0 =
      elim (search check make (per_family n_target) (seed0 + 100_000) family_list
        (empty_haul seed0)) [
          | none ↦ none
          | some h ↦ some (split bucket hold h.out empty_split, h.rejected)
        ]
