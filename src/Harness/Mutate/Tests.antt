-- ===== src/Harness/Mutate/Tests.antt =====
-- Mutations of a small scenario, and the theorem at a concrete input.
use tactical_radio_jamming_s.Base.{
  ℕ, ◌+◌, ◌≡◌, refl, Bool, true, Option, some, map, Fixed, fixed_number, lit,
}
use tactical_radio_jamming_s.Base.Int.{◌+ℤ◌}
use tactical_radio_jamming_s.Scenario.{Scenario, Jammer}
use tactical_radio_jamming_s.Scenario.Sample.{duel}
use tactical_radio_jamming_s.Harness.Mutate.{Axis, power, shifted, deform, mutate}
use tactical_radio_jamming_s.Harness.Mutate.Cause.{SameCase, mutate-SameCase}

abbrev middle : Fixed → Fixed → ℕ → Fixed × ℕ
middle a b n = (lit 0 0, n + 1)

abbrev all_pass : Scenario Fixed → Option Bool
all_pass sc = some true

abbrev no_salt : Axis → ℕ
no_salt axis = 0

wraps : shifted 8 3 6 ≡ 1
wraps = refl

abbrev loud : Jammer Fixed → Jammer Fixed
loud j = record j { eirp_dbm = lit 18 0 }

abbrev louder : Scenario Fixed
louder = record duel { seed = 7919; jammers = map loud duel.jammers }

mutates : mutate middle all_pass no_salt power (lit 3 0) duel 0 ≡ some (some louder, 0)
unfolding mutate deform ◌+ℤ◌
mutates = refl

mutate-SameCase_example : SameCase duel louder × (all_pass louder ≡ some true)
mutate-SameCase_example =
    mutate-SameCase middle all_pass no_salt power (lit 3 0) duel 0 louder 0 mutates
