-- ===== src/Sim/Toy.antt =====
-- Simple functions in place of `math` and of the generator, and a small scenario's state, for tests.
use tactical_radio_jamming_s.Base.{
  ℕ, ◌+◌, Fixed, fixed_number, lit, refl, true, false, some, [], ◌∷◌, arith,
}
use tactical_radio_jamming_s.Base.Int.{negsuc}
use tactical_radio_jamming_s.Scenario.Sample.{axes, duel}
use tactical_radio_jamming_s.Scenario.{Node, Role}
use tactical_radio_jamming_s.Sim.State.{Setup, State}
use tactical_radio_jamming_s.Sim.Safe.{IsSound}
use tactical_radio_jamming_s.Sim.Radio.{Maths, Random}

abbrev pub toy_maths : Maths Fixed
toy_maths = record {
  pow = λ a b. a;
  log10 = λ a. a;
  exp = λ a. lit 1 0;
  sqrt = λ a. a;
  pi = lit 3 0;
  dist = axes;
}

abbrev pub counter : Random Fixed ℕ
counter = record {
  seeded = λ n. n;
  random = λ n. (lit 5 1, n + 1);
  gauss = λ mu sigma n. (lit 0 0, n + 1);
}

abbrev self : Node Fixed
self = record {
  id = "a";
  pos = (lit 0 0, lit 0 0, lit 0 0);
  role = Role.agent;
  tx_power_dbm = lit 16 0;
  alive = true;
}

abbrev pub toy : Setup Fixed
toy = record { scenario = duel; dt = lit 1 1; agent = self; jammers = []; mobility = [] }

abbrev pub parked : State Fixed ℕ
parked = record {
  rng = 0;
  t = lit 5 0;
  channel = 6;
  tx_power = lit 16 0;
  pos = (lit 0 0, lit 0 0, lit 0 0);
  vel = (lit 0 0, lit 0 0, lit 0 0);
  alive = (some "a", true) ∷ (some "b", true) ∷ (some "c", true) ∷ [];
  jammer_on = ("j", false) ∷ [];
  fade_extra_db = lit 0 0;
  load_factor = lit 1 0;
  hidden = false;
  lora_active = false;
  declared_lost = false;
  tdma_slot = 0;
  faders = [];
  neighbors = "b" ∷ "c" ∷ [];
  heartbeat_age = ("b", lit 0 0) ∷ ("c", lit 0 0) ∷ [];
  last_rssi = [];
  own_tx_active = false;
  consec_fail = 0;
  peer_reports = [];
  truth = [];
  events = [];
  ev_i = 0;
  pending_reactive_until = negsuc 999_999;
  wp_i = 0;
  probe_results = [];
  probes_run = 0;
}

pub parked-IsSound : IsSound toy_maths counter toy parked
parked-IsSound = record { tuned = refl; slotted = omega arith; ready = refl }
