-- ===== src/Scenario/Tests.antt =====
-- The checks on small scenarios, and the theorems at concrete inputs.
use tactical_radio_jamming_s.Base.{◌≡◌, refl, ◌↔◌, some, [], ◌∷◌, Fixed, fixed_number}
use tactical_radio_jamming_s.Base.Int.{◌+ℤ◌, ◌-ℤ◌}
use tactical_radio_jamming_s.Scenario.{Scenario, adjacency}
use tactical_radio_jamming_s.Scenario.Checks.{Problem, problems, validate}
use tactical_radio_jamming_s.Scenario.Runnable.{IsRunnable, validate-IsRunnable}
use tactical_radio_jamming_s.Scenario.Sample.{axes, duel}

duel_links : adjacency axes duel ≡ ("a", "b") ∷ ("a", "c") ∷ ("b", "c") ∷ []
unfolding adjacency ◌+ℤ◌ ◌-ℤ◌
duel_links = refl

duel_checks : validate axes duel ≡ some []
unfolding validate problems adjacency ◌+ℤ◌ ◌-ℤ◌
duel_checks = refl

off_band : validate axes (record duel { channel = 9 }) ≡ some (Problem.channel_outside 9 ∷ [])
unfolding validate problems adjacency ◌+ℤ◌ ◌-ℤ◌
off_band = refl

abbrev empty : Scenario Fixed
empty = record duel { nodes = [] }

validate-IsRunnable_example : (validate axes duel ≡ some []) ↔ IsRunnable axes duel
validate-IsRunnable_example = validate-IsRunnable axes duel
