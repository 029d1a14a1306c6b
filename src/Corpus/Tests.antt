-- ===== src/Corpus/Tests.antt =====
-- Searches and splits with a check that takes every other seed, and the theorems at concrete inputs.
use tactical_radio_jamming_s.Base.{
  ℕ, ◌+◌, ◌%◌, ◌≤◌, ◌==◌, String, ◌≡◌, refl, Bool, true, false, Option, some, [], ◌∷◌, is_some,
  Fixed, fixed_number, arith, length,
}
use tactical_radio_jamming_s.Scenario.{Scenario}
use tactical_radio_jamming_s.Scenario.Sample.{duel}
use tactical_radio_jamming_s.Sim.Toy.{toy_maths, counter}
use tactical_radio_jamming_s.Corpus.{
  Haul, Split, goes_on, gather, search, family_list, per_family, split, empty_split, empty_haul,
  validate, build,
}
use tactical_radio_jamming_s.Corpus.Verdicts.{HasVerdict, validate-HasVerdict}
use tactical_radio_jamming_s.Corpus.Search.{passes, IsGathered, gather_finishes}
use tactical_radio_jamming_s.Corpus.Splits.{IsSplit, build-IsSplit}

abbrev toy_make : String → ℕ → Scenario Fixed
toy_make fam n = record duel { family = fam; seed = n }

abbrev every_other : Scenario Fixed → Option Bool
every_other sc = some (sc.seed % 2 == 0)

every_other_checks : (fam : String) (n : ℕ) → is_some (every_other (toy_make fam n)) ≡ true
every_other_checks fam n = refl

abbrev first_bucket : Scenario Fixed → ℕ
first_bucket sc = 10

held_out_tests :
    split first_bucket "sweep" (toy_make "sweep" 1 ∷ toy_make "spot" 2 ∷ []) empty_split
    ≡ record { train = toy_make "spot" 2 ∷ []; val = []; test = toy_make "sweep" 1 ∷ [] }
unfolding split
held_out_tests = refl

validate-HasVerdict_example :
    (ok : Bool) × (validate toy_maths counter duel ≡ some ok) × HasVerdict toy_maths counter duel ok
validate-HasVerdict_example = validate-HasVerdict toy_maths counter duel refl refl

gather_finishes_example :
    (h' : Haul Fixed) × (gather every_other toy_make 2 9 9 "spot" (empty_haul 1) ≡ some h')
    × (goes_on every_other toy_make 2 9 h' ≡ false)
    × IsGathered every_other toy_make every_other_checks 2 9 (empty_haul 1) h'
gather_finishes_example =
    gather_finishes every_other toy_make every_other_checks 2 9 9 "spot" (empty_haul 1)
      (omega arith)

build-IsSplit_example :
    let per = per_family every_other toy_make first_bucket "sweep" 18 in
    (h : Haul Fixed) × (sp : Split Fixed) × (search every_other toy_make per 110_000 family_list
        (empty_haul 10_000)
      ≡ some h)
    × (build every_other toy_make first_bucket "sweep" 18 10_000 ≡ some (sp, h.rejected))
    × IsSplit first_bucket "sweep" (passes every_other toy_make every_other_checks) h.out sp
    × (length h.out + h.rejected ≤ 100_000)
build-IsSplit_example =
    build-IsSplit every_other toy_make every_other_checks first_bucket "sweep" 18 10_000
