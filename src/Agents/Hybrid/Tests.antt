-- ===== src/Agents/Hybrid/Tests.antt =====
-- The hybrid at work, with a stubborn network.
use tactical_radio_jamming_s.Base.{ℕ, [], Fixed, fixed_number, lit}
use tactical_radio_jamming_s.Api.{move}
use tactical_radio_jamming_s.Controller.Toy.{stubborn, ask}
use tactical_radio_jamming_s.Agents.Baseline.Sample.{context, features}
use tactical_radio_jamming_s.Agents.Hybrid.{
  Parts, Hybrid, decide, IsArbitrated, decide-IsArbitrated,
}

abbrev parts : Parts Fixed ℕ
parts = record {
  net = stubborn move;
  args = λ c ctx. [];
  names = [];
  rules = [];
  precision = λ r. lit 0 0;
  lead_precision = lit 8 1;
}

abbrev fresh : Hybrid ℕ
fresh = record { state = 0; rule_led = 0; net_led = 0; disagreements = 0 }

hybrid_decides : IsArbitrated parts (ask move) context fresh (decide parts features context fresh)
hybrid_decides = decide-IsArbitrated parts features context fresh
