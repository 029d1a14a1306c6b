-- ===== src/Agents/Baseline/Sample.antt =====
-- A context and a feature vector for the tests of the agents.
use tactical_radio_jamming_s.Base.{List, [], ◌∷◌, none, true, Fixed, fixed_number, lit}
use tactical_radio_jamming_s.Api.{Context, hop_channel, no_op, set_tx_power}

abbrev pub context : Context Fixed
context = record {
  t = lit 9 0;
  channel = 1;
  n_channels = 11;
  peers = "b" ∷ [];
  budget = record {
    hops_used = 0;
    scans_used = 0;
    actions_used = 0;
    max_channel_hops = 3;
    max_spectrum_scans = 4;
    max_costly_actions = 6;
  };
  available = no_op ∷ set_tx_power ∷ hop_channel ∷ [];
  last_scan = none;
  tests_run = [];
  actions_taken = [];
  hypothesis_history = [];
  lora_available = true;
}

-- a fresh scan, damped fading: feature 12 is high
abbrev pub features : List Fixed
features =
    lit 0 0
    ∷ lit 0 0
    ∷ lit 0 0
    ∷ lit 0 0
    ∷ lit 0 0
    ∷ lit 0 0
    ∷ lit 0 0
    ∷ lit 0 0
    ∷ lit 0 0
    ∷ lit 0 0
    ∷ lit 0 0
    ∷ lit 0 0
    ∷ lit 9 1
    ∷ []
