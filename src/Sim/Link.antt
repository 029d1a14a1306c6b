-- ===== src/Sim/Link.antt =====
-- `_link_state` of capstone/sim/refsim.py: what the agent sees of one neighbour in a tick. `none` is a
-- KeyError: a neighbour that the scenario does not know, or one that has no fader or heartbeat.
use mathlib.Core.Option.{map as map_option}
use text.Mathlib.Text.{◌==◌ as str_eq}
use tactical_radio_jamming_s.Base.{
  ℕ, String, Bool, true, false, Option, none, some, lookup, store, same_key, or_else, ltb, Number,
  lit, max_of, min_of, if◌then◌else◌,
}
use tactical_radio_jamming_s.Percept.Observation.{LinkObs}
use tactical_radio_jamming_s.Scenario.{Node, Fading, unfaded, node}
use tactical_radio_jamming_s.Sim.Radio.{
  Maths, Random, Fader, path_loss_db, to_lin, to_db, delivery, sample_db, minus,
}
use tactical_radio_jamming_s.Sim.State.{Setup, State}
use tactical_radio_jamming_s.Sim.Jamming.{jammer_power_at_agent}

abbrev pub is_alive : {F R : Type 0} → String → State F R → Bool
is_alive p s = or_else (lookup same_key (some p) s.alive) true

module _ {F R : Type 0} ⦃num : Number F⦄ (maths : Maths F) (rand : Random F R)
    (setup : Setup F) where
  open num use {neg, add, sub, mul, div, lt, le}

  -- `self.heartbeat_age[p] += self.dt`
  abbrev pub older : String → Option F → State F R → Option (F × State F R)
  older p none s = none
  older p (some age) s = some (
    add age setup.dt,
    record s { heartbeat_age = store str_eq p (add age setup.dt) s.heartbeat_age },
  )

  abbrev link : F → F → F → ℕ → F → Bool → LinkObs F
  link pdr rssi retry frames age reachable = record {
    pdr = pdr;
    rssi_dbm = rssi;
    retry_rate = retry;
    frames_rx = frames;
    heartbeat_age_s = age;
    reachable = reachable;
    rssi_reverse_dbm = none;
    pdr_reverse = none;
    report_age_s = lit 999 0;
  }

  -- the observation of a peer that is down
  abbrev pub dead_link : F × State F R → LinkObs F × State F R
  dead_link (age, s) = (link (lit 0 0) (minus 120 0) (lit 1 0) 0 age false, s)

  -- the fade in dB
  abbrev pub faded_by : String → Option (Fader F) → State F R → Option (F × State F R)
  faded_by p none s = none
  faded_by p (some f) s =
      let (fade, f', r) = sample_db maths rand f s.rng in
      some (fade, record s { rng = r; faders = store str_eq p f' s.faders })

  abbrev pub fade_of : Fading → String → State F R → Option (F × State F R)
  fade_of unfaded p s = some (lit 0 0, s)
  fade_of _ p s = faded_by p (lookup str_eq p s.faders) s

  abbrev pub shadow : State F R → F × State F R
  shadow s =
      let sigma = setup.scenario.channel_model.shadowing_db in
      let (x, r) = rand.gauss (lit 0 0) sigma s.rng in
      if lt (lit 0 0) sigma then (x, record s { rng = r }) else (lit 0 0, s)

  -- the share of frames lost to collisions
  unfoldable pub collisions : State F R → F
  collisions s =
      let offered = min_of (lit 95 2) (mul (lit 6 2) s.load_factor) in
      if lt (lit 1 0) s.load_factor
      then (if s.hidden then min_of (lit 9 1) (mul offered (lit 16 1)) else offered)
      else lit 0 0

  -- the delivery ratio of a link at a ratio of signal to noise
  unfoldable pub pdr_of : F → State F R → F
  pdr_of sinr s =
      let pdr = max_of (lit 0 0) (mul (delivery maths sinr) (sub (lit 1 0) (collisions s))) in
      if s.lora_active
      then max_of pdr (if setup.scenario.lora_jammed then lit 2 2 else lit 85 2)
      else pdr

  -- Whether a frame got through; the generator is asked only if it may have.
  abbrev pub received : F → State F R → Bool × State F R
  received pdr s =
      let (x, r) = rand.random s.rng in
      if lt (lit 5 2) pdr then (lt x (max_of pdr (lit 5 2)), record s { rng = r }) else (false, s)

  -- the age of the heartbeat after that
  abbrev pub beat : String → Bool × State F R → Option (F × State F R)
  beat p (got, s) =
      if got
      then some (lit 0 0, record s { heartbeat_age = store str_eq p (lit 0 0) s.heartbeat_age })
      else older p (lookup str_eq p s.heartbeat_age) s

  -- frames that decode are better than the mean of the faded ones
  abbrev pub survivors : Fading → F → F → F
  survivors unfaded fade rssi = rssi
  survivors _ fade rssi = if lt fade (lit 0 0) then sub rssi (mul fade (lit 7 1)) else rssi

  -- The signal strength that is seen: without frames the last one.
  abbrev pub seen_rssi : ℕ → F → F → String → State F R → F × State F R
  seen_rssi frames fade rssi p s =
      let biased = survivors setup.scenario.channel_model.fading fade rssi in
      if ltb 0 frames
      then (biased, record s { last_rssi = store str_eq p biased s.last_rssi })
      else (or_else (lookup str_eq p s.last_rssi) rssi, s)

  -- The observation, once the heartbeat is known.
  abbrev pub observe_link : String → F → F → F → F → F × State F R → LinkObs F × State F R
  observe_link p fade rssi coll pdr (age, s) =
      let retry =
        min_of (lit 1 0)
          (mul (sub (lit 1 0) pdr) (if lt (lit 0 0) coll then lit 13 1 else lit 1 0)) in
      let frames = num.round_int (mul (mul (mul pdr (lit 20 0)) setup.dt) (lit 10 0)) in
      let (rssi', s') = seen_rssi frames fade rssi p s in
      (link pdr rssi' retry frames age (lt (lit 1 1) pdr), s')

  abbrev pub live_link : String → Node F → F × State F R → Option (LinkObs F × State F R)
  live_link p peer (fade, s0) =
      let cm = setup.scenario.channel_model in
      let pl =
        path_loss_db maths (maths.dist s0.pos peer.pos) cm.path_loss cm.exponent cm.ref_loss_db in
      let (shade, s1) = shadow s0 in
      let rssi = sub (sub (add (sub peer.tx_power_dbm pl) fade) shade) s1.fade_extra_db in
      let interf = jammer_power_at_agent maths rand setup s1.channel s1 in
      let sinr =
        sub rssi (to_db maths (add (to_lin maths cm.noise_floor_dbm) (to_lin maths interf))) in
      let pdr = pdr_of sinr s1 in
      map_option (observe_link p fade rssi (collisions s1) pdr) (beat p (received pdr s1))

  abbrev pub seen : String → Node F → Option (F × State F R) → Option (LinkObs F × State F R)
  seen p peer none = none
  seen p peer (some faded) = live_link p peer faded

  abbrev pub seen_node : String → State F R → Option (Node F) → Option (LinkObs F × State F R)
  seen_node p s none = none
  seen_node p s (some peer) = seen p peer (fade_of setup.scenario.channel_model.fading p s)

  -- `_link_state`
  unfoldable pub link_state : String → State F R → Option (LinkObs F × State F R)
  link_state p s =
      if is_alive p s
      then seen_node p s (node p setup.scenario)
      else map_option dead_link (older p (lookup str_eq p s.heartbeat_age) s)
