-- ===== src/Scenario/Sample.antt =====
-- A scenario with an agent, two peers, a spot jammer, a reactive one, and three events.
use tactical_radio_jamming_s.Base.{
  ℕ, ◌+◌, String, true, false, none, some, [], ◌∷◌, Fixed, fixed_number, lit,
}
use tactical_radio_jamming_s.Base.Int.{ℤ, pos, negsuc, ◌-ℤ◌, pos_part, neg_part, ◌+ℤ◌}
use tactical_radio_jamming_s.Api.{Cause}
use tactical_radio_jamming_s.Scenario.{
  Point, Node, Jammer, JammerType, Event, EventType, Params, Scenario, Role, PathLoss, Fading,
  Links,
}

-- the distance along the axes, for the one of `math.dist`
abbrev pub axes : Point Fixed → Point Fixed → Fixed
axes (a, b, c) (x, y, z) = gap a x +ℤ gap b y +ℤ gap c z
  where
    gap : ℤ → ℤ → ℤ
    gap u v = pos (pos_part (u -ℤ v) + neg_part (u -ℤ v))

abbrev at : ℕ → Point Fixed
at x = (lit x 0, lit 0 0, lit 0 0)

abbrev member : String → Role → ℕ → Node Fixed
member id role x = record {
  id = id;
  pos = at x;
  role = role;
  tx_power_dbm = lit 16 0;
  alive = true;
}

abbrev source : String → JammerType → Jammer Fixed
source id type = record {
  id = id;
  type = type;
  pos = at 50;
  eirp_dbm = lit 15 0;
  channels = 6 ∷ [];
  duty = lit 1 0;
  dwell_ms = lit 200 0;
  threshold_dbm = negsuc 84_999_999;
  delay_us = lit 10 0;
  burst_ms = lit 15 1;
  p_fire = lit 1 0;
}

abbrev pub bare : Params Fixed
bare = record { depth_db = none; nakagami_m = none; factor = none; hidden = none }

abbrev pub event : ℕ → EventType → String → Event Fixed
event n type target = record { t = lit n 0; type = type; target = some target; params = bare }

abbrev pub duel : Scenario Fixed
duel = record {
  family = "spot";
  truth = record { cause = Cause.spot; onset_t = lit 5 0; recoverable = true };
  nodes = member "a" Role.agent 0 ∷ member "b" Role.peer 100 ∷ member "c" Role.peer 150 ∷ [];
  seed = 1;
  duration_s = lit 60 0;
  n_channels = 8;
  channel = 6;
  lora_available = true;
  lora_jammed = false;
  mobility = [];
  traffic =
      record {
        src = "a";
        dst = "b";
        rate_kbps = lit 200 0;
        packet_bytes = 512;
        start_s = lit 1 0;
        stop_s = none;
      }
      ∷ [];
  jammers = source "j" JammerType.spot ∷ source "r" JammerType.reactive ∷ [];
  events =
      event 9 EventType.node_down "c"
      ∷ event 5 EventType.jammer_on "j"
      ∷ event 5 EventType.load_spike "b"
      ∷ [];
  channel_model = record {
    path_loss = PathLoss.log_distance;
    exponent = lit 24 1;
    ref_loss_db = lit 40 0;
    fading = Fading.unfaded;
    nakagami_m = lit 1 0;
    doppler_hz = lit 0 0;
    shadowing_db = lit 0 0;
    noise_floor_dbm = negsuc 95_999_999;
  };
  links = Links.auto;
  comm_range_m = lit 220 0;
}
