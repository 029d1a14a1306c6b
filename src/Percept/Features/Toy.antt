-- ===== src/Percept/Features/Toy.antt =====
-- Simple functions in place of `math`, for tests.
use tactical_radio_jamming_s.Base.{Fixed, fixed_number, lit}
use tactical_radio_jamming_s.Scenario.Sample.{axes}
use tactical_radio_jamming_s.Percept.Features.{FeatureMath}

abbrev pub math : FeatureMath Fixed
math = record { exp = λ a. lit 9 1; sqrt = λ a. a; log = λ a. a; log1p = λ a. a; dist = axes }
