-- ===== src/Agents/Student/Tests.antt =====
-- The student around two small networks, and its theorem at a concrete input.
use tactical_radio_jamming_s.Base.{
  ℕ, ◌≡◌, refl, true, some, List, [], ◌∷◌, length, Fixed, fixed_number, lit,
}
use tactical_radio_jamming_s.Api.{causes, hop_channel, no_op}
use tactical_radio_jamming_s.Agents.Student.{Numpy, Student, pick}

-- the positions from the last one on
abbrev countdown : {A : Type 0} → List A → List ℕ
countdown [] = []
countdown (x ∷ xs) = length xs ∷ countdown xs

abbrev toy_numpy : Numpy Fixed
toy_numpy = record { argmax = λ p. 0; argmin = λ p. 0; argsort = countdown; expected_cost = λ p. p }

abbrev pupil : Student Fixed
pupil = record {
  cause = record { classes = causes; run = λ x. lit 9 1 ∷ [] };
  call = record { classes = no_op ∷ hop_channel ∷ []; run = λ x. lit 1 1 ∷ lit 9 1 ∷ [] };
  cost_order = causes;
  abstain = lit 5 1;
  use_cost_rule = true;
}

picks_last :
    pick (no_op ∷ hop_channel ∷ []) (no_op ∷ hop_channel ∷ []) (1 ∷ 0 ∷ []) ≡ some hop_channel
unfolding pick
picks_last = refl
