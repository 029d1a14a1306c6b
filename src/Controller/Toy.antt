-- ===== src/Controller/Toy.antt =====
-- A small world for tests: the clock counts seconds, every link delivers what a schedule says, and
-- the agent always asks for the same call.
use tactical_radio_jamming_s.Base.{
  ℕ, ◌+◌, true, false, none, some, [], ◌∷◌, Fixed, fixed_number, lit,
}
use tactical_radio_jamming_s.Base.Int.{negsuc}
use tactical_radio_jamming_s.Percept.Observation.{LinkObs, RawObs}
use tactical_radio_jamming_s.Api.{spot, Call, Decision}
use tactical_radio_jamming_s.Controller.State.{Sim, Agent, Extractor, Contract, World}

-- the budgets and thresholds of contract/agent_contract.json
abbrev pub caps : Contract Fixed
caps = record {
  max_costly_actions = 6;
  max_channel_hops = 3;
  max_spectrum_scans = 4;
  max_silent_listens = 3;
  max_moves = 2;
  min_scan_interval_s = lit 2 0;
  recovery_timeout_s = lit 30 0;
  declare_lost_deadline_s = lit 25 0;
  act_confidence = lit 75 2;
  recovery_pdr_frac_of_baseline = lit 8 1;
  recovery_hold_s = lit 3 0;
  no_link_declare_s = lit 20 0;
  jam_energy_dbm = negsuc 79_999_999;
}

abbrev pub link : Fixed → LinkObs Fixed
link pdr = record {
  pdr = pdr;
  rssi_dbm = negsuc 59_999_999;
  retry_rate = lit 0 0;
  frames_rx = 10;
  heartbeat_age_s = lit 0 0;
  reachable = true;
  rssi_reverse_dbm = none;
  pdr_reverse = none;
  report_age_s = lit 0 0;
}

abbrev pub sample : Fixed → ℕ → RawObs Fixed
sample pdr n = record {
  t = lit n 0;
  channel = 1;
  links = ("b", link pdr) ∷ [];
  noise_dbm = negsuc 94_999_999;
  cca_busy_frac = lit 0 0;
  decodable_fps = lit 0 0;
  own_tx_active = false;
  own_tx_duty = lit 0 0;
  offered_load_norm = lit 0 0;
  queue_occupancy = lit 0 0;
  consecutive_tx_fail = 0;
  pos = (lit 0 0, lit 0 0, lit 0 0);
  vel = (lit 0 0, lit 0 0, lit 0 0);
  scan = none;
  tx_attempts = 0;
  tx_acked = 0;
  tx_retry_depth = lit 0 0;
  tx_defer_ms = lit 0 0;
  shadow_expected = 0;
  shadow_missed = 0;
  silent_expected = 0;
  silent_missed = 0;
  budget = none;
}

abbrev pub clock : (ℕ → Fixed) → Sim Fixed ℕ
clock pdr = record {
  dt = lit 1 0;
  now = λ n. lit n 0;
  channel = λ n. 1;
  step = λ b n. (sample (pdr n) n, n + 1);
  scan = λ chs dwell n. (record { t = lit n 0; channels = [] }, n);
  load_test = λ v n. n;
  neighbor_probe = λ v n. n;
  hop_channel = λ v n. n;
  reroute = λ v n. n;
  set_tx_power = λ v n. n;
  change_tdma_slot = λ v n. n;
  move = λ x y z n. n;
  fallback_to_lora = λ n. n;
  declare_link_lost = λ n. n;
}

-- a decision for the call, certain of a spot jammer
abbrev pub ask : Call → Decision Fixed
ask c = record {
  belief = (spot, lit 9 1) ∷ [];
  call = c;
  args = [];
  confidence = lit 9 1;
  unrecoverable = lit 0 0;
  declared = some spot;
  abstained = false;
}

-- the agent's state counts the questions
abbrev pub stubborn : Call → Agent Fixed ℕ
stubborn c = record { decide = λ feats ctx n. (ask c, n + 1); reset = λ n. 0 }

-- the extractor sees the onset one second after the start
abbrev pub eager : Extractor Fixed ℕ
eager = record {
  update = λ obs n. ([], n + 1);
  note_scan = λ r n. n;
  onset_t = λ n. some (lit 1 0);
}

abbrev pub world : (ℕ → Fixed) → Call → World Fixed ℕ ℕ ℕ
world pdr c = record {
  sim = clock pdr;
  agent = stubborn c;
  extractor = eager;
  contract = caps;
  decision_hz = lit 1 0;
  n_channels = 11;
  lora_available = true;
  duration_s = lit 30 0;
}

abbrev pub steady : ℕ → Fixed
steady n = lit 9 1

abbrev pub dead : ℕ → Fixed
dead n = lit 0 0
