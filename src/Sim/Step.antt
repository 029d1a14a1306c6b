-- ===== src/Sim/Step.antt =====
-- `step` and `scan` of capstone/sim/refsim.py. `none` is the KeyError of a link.
use mathlib.Core.Option.{map as map_option}
use text.Mathlib.Text.{◌==◌ as str_eq}
use Prim.Native.Nat.{max}
use tactical_radio_jamming_s.Base.{
  ℕ, ◌+◌, ◌-◌, ◌*◌, ◌==◌, String, Bool, false, ◌&&◌, ◌||◌, Option, none, some, List, [], ◌∷◌, ◌++◌,
  map, any, keep, length, lookup, store, Number, lit, of_ℕ, max_of, min_of, sum, if◌then◌else◌,
}
use tactical_radio_jamming_s.Percept.Observation.{LinkObs, ChannelObs, ScanResult, RawObs, Budget}
use tactical_radio_jamming_s.Scenario.{Jammer}
use tactical_radio_jamming_s.Sim.Radio.{Maths, Random, to_lin, to_db, delivery, minus}
use tactical_radio_jamming_s.Sim.State.{Setup, State, Report, TruthRow}
use tactical_radio_jamming_s.Sim.World.{apply_events, move_on}
use tactical_radio_jamming_s.Sim.Jamming.{
  update_reactive, is_reactive, is_on, jammer_power_at_agent, jammer_power_at_peer, or_list,
  all_channels,
}
use tactical_radio_jamming_s.Sim.Link.{is_alive, link_state}

module _ {F R : Type 0} ⦃num : Number F⦄ (maths : Maths F) (rand : Random F R)
    (setup : Setup F) where
  open num use {neg, add, sub, mul, div, lt, le, round_int}

  abbrev loaded : State F R → Bool
  loaded s = lt (lit 1 0) s.load_factor

  abbrev noise_with : F → F
  noise_with interf =
      to_db maths
        (add (to_lin maths setup.scenario.channel_model.noise_floor_dbm) (to_lin maths interf))

  abbrev is_jammed : F → Bool
  is_jammed interf = lt (minus 95 0) interf

  -- one channel of a scan
  unfoldable pub scan_channel : State F R → ℕ → ChannelObs F
  scan_channel s ch =
      let interf = jammer_power_at_agent maths rand setup ch s in
      let here = ch == s.channel in
      record {
        ch = ch;
        noise_dbm = noise_with interf;
        busy_frac = min_of (lit 1 0) (
            add (add (lit 5 2) (if is_jammed interf then lit 9 1 else lit 0 0))
              (if loaded s && here then lit 5 1 else lit 0 0));
        decodable_fps =
            if loaded s
            then (if here
                then mul (lit 25 0) (min_of (lit 1 0) (div s.load_factor (lit 8 0)))
                else lit 0 0)
            else if here
            then lit 2 0
            else lit 0 0;
      }

  -- `scan`
  unfoldable pub scan : List ℕ → State F R → ScanResult F
  scan chans s = record {
    t = s.t;
    channels = map (scan_channel s) (or_list chans (all_channels maths rand setup));
  }

  -- the share of time that the agent sends
  unfoldable pub duty_of : State F R → F
  duty_of s = if s.hidden then lit 35 2 else min_of (lit 9 1) (mul (lit 35 2) s.load_factor)

  -- `self.own_tx_active`: the generator is not asked once the link was declared lost
  unfoldable pub transmit : F → State F R → State F R
  transmit duty s =
      let (x, r) = rand.random s.rng in
      if s.declared_lost
      then record s { own_tx_active = false }
      else record s { rng = r; own_tx_active = lt x duty }

  -- the links of all neighbours, in their order
  unfoldable pub look :
      List String
      → List (String × LinkObs F)
      → State F R
      → Option (List (String × LinkObs F) × State F R)
  look [] links s = some (links, s)
  look (p ∷ ps) links s = elim (link_state maths rand setup p s) [
    | none ↦ none
    | some (l, s') ↦ look ps (store str_eq p l links) s'
  ]

  abbrev pub Links : Type 0
  Links = List (String × LinkObs F)

  abbrev pub mean_pdr : Links → F
  mean_pdr links = div (sum (map (λ l. l.1.pdr) links)) (of_ℕ (max 1 (length links)))

  -- the row of the ground truth
  abbrev pub truth_row : Links → State F R → TruthRow F
  truth_row links s = record {
    t = s.t;
    cause = setup.scenario.truth.cause;
    jammer_on = any (λ j. j.1) s.jammer_on;
    jammer_channels =
        keep (λ c. is_jammed (jammer_power_at_agent maths rand setup c s))
          (all_channels maths rand setup);
    peers_alive = map (λ p. p.0) (keep (λ p. p.1) s.alive);
    true_pdr = map (λ l. (l.0, num.round l.1.pdr 4)) links;
  }

  abbrev pub acknowledged : F → State F R → ℕ × State F R
  acknowledged pdr_mean s =
      let (x, r) = rand.random s.rng in
      if s.own_tx_active then (if lt x pdr_mean then 1 else 0, record s { rng = r }) else (0, s)

  -- the time that sending was put off, for decodable traffic
  abbrev deferral : State F R → F
  deferral s =
      let base =
        min_of (lit 95 2)
          (add (lit 5 2) (mul (lit 11 2) (max_of (lit 0 0) (sub s.load_factor (lit 1 0))))) in
      let busy = if s.hidden then min_of (lit 95 2) (add base (lit 35 2)) else base in
      if s.own_tx_active then add (lit 6 2) (mul (mul (lit 22 1) busy) busy) else lit 0 0

  -- `react_extra`: the last reactive jammer that is on
  abbrev extra_loss : F → List (String × Jammer F) → State F R → F
  extra_loss extra [] s = extra
  extra_loss extra ((jid, j) ∷ js) s =
      extra_loss (if is_reactive j && is_on jid s then mul (lit 8 1) j.p_fire else extra) js s

  -- The beacons due and missed after the agent's own frames, and in silence. The share of
  -- the former is at most 0.85, so what is left is not negative.
  pub record Shadow : Type 0 where
    pub expected : ℕ
    pub missed : ℕ
    pub silent_expected : ℕ
    pub silent_missed : ℕ

  abbrev pub beacons_due : ℕ → ℕ
  beacons_due n = max 1 (round_int (div setup.dt (lit 1 1))) * max 1 n

  unfoldable pub shadow_loss : F → F → ℕ → State F R → Shadow
  shadow_loss duty pdr_mean n s =
      let n_due = beacons_due n in
      let share = min_of (lit 85 2) (max_of (lit 5 2) duty) in
      let sh_exp = round_int (mul (of_ℕ n_due) share) in
      let base_miss = sub (lit 1 0) pdr_mean in
      let extra = extra_loss (lit 0 0) setup.jammers s in
      let miss_shadow = min_of (lit 1 0) (add base_miss (mul extra (sub (lit 1 0) base_miss))) in
      record {
        expected = sh_exp;
        missed = round_int (mul (of_ℕ sh_exp) miss_shadow);
        silent_expected = n_due - sh_exp;
        silent_missed = round_int (mul (of_ℕ (n_due - sh_exp)) base_miss);
      }

  -- what a peer says of the agent
  abbrev pub reverse_pdr : String → F → State F R → F
  reverse_pdr p rev_rssi s =
      let interf = jammer_power_at_peer maths rand setup p s in
      let rev = delivery maths (sub rev_rssi (noise_with interf)) in
      if s.hidden || loaded s
      then mul rev (sub (lit 1 0) (min_of (lit 9 1) (mul (lit 6 2) s.load_factor)))
      else rev

  abbrev pub with_report : Option (Report F) → LinkObs F → State F R → LinkObs F
  with_report none l s = l
  with_report (some rep) l s = record l {
    rssi_reverse_dbm = some rep.rssi;
    pdr_reverse = some rep.pdr;
    report_age_s = sub s.t rep.t;
  }

  abbrev pub reported : String → F → F → State F R → List (String × Report F)
  reported p rssi pdr s = store str_eq p (record { rssi = rssi; pdr = pdr; t = s.t }) s.peer_reports

  abbrev pub report : String → LinkObs F → State F R → LinkObs F × State F R
  report p l s =
      let rev_rssi = add l.rssi_dbm (sub s.tx_power setup.agent.tx_power_dbm) in
      let (x, r) = rand.random s.rng in
      let heard = record s {
        rng = r;
        peer_reports =
            if lt x (lit 25 2)
            then reported p rev_rssi (reverse_pdr p rev_rssi s) s
            else s.peer_reports;
      } in
      if is_alive p s
      then (with_report (lookup str_eq p heard.peer_reports) l heard, heard)
      else (l, s)

  unfoldable pub reports : Links → State F R → Links × State F R
  reports [] s = ([], s)
  reports ((p, l) ∷ links) s =
      let (l', s1) = report p l s in let (links', s2) = reports links s1 in ((p, l') ∷ links', s2)

  abbrev pub counted : F → State F R → State F R
  counted pdr_mean s = record s {
    consec_fail = if lt (lit 5 1) pdr_mean then 0 else s.consec_fail + 1;
  }

  -- the second half of `step`: the books, the observation and the clock
  abbrev pub emit : Option Budget → F → Links × State F R → RawObs F × State F R
  emit budget duty (links, s) =
      let interf = jammer_power_at_agent maths rand setup s.channel s in
      let pdr_mean = mean_pdr links in
      let s1 = counted pdr_mean s in
      let s2 = record s1 { truth = s1.truth ++ (truth_row links s1 ∷ []) } in
      let (acked, s3) = acknowledged pdr_mean s2 in
      let shadow = shadow_loss duty pdr_mean (length links) s3 in
      let (links', s4) = reports links s3 in
      (
        record {
          t = s4.t;
          channel = s4.channel;
          links = links';
          noise_dbm = noise_with interf;
          cca_busy_frac = min_of (lit 1 0) (
              add (add (lit 5 2) (if is_jammed interf then lit 9 1 else lit 0 0))
                (if loaded s4 then lit 55 2 else lit 0 0));
          decodable_fps =
              if loaded s4
              then mul (lit 25 0) (min_of (lit 1 0) (div s4.load_factor (lit 8 0)))
              else lit 2 0;
          own_tx_active = s4.own_tx_active;
          own_tx_duty = duty;
          offered_load_norm =
              if s4.hidden then lit 35 2 else min_of (lit 1 0) (mul (lit 4 1) s4.load_factor);
          queue_occupancy = min_of (lit 1 0) (mul (sub (lit 1 0) pdr_mean) (lit 9 1));
          consecutive_tx_fail = s4.consec_fail;
          pos = s4.pos;
          vel = s4.vel;
          scan = none;
          budget = budget;
          tx_attempts = if s4.own_tx_active then 1 else 0;
          tx_acked = acked;
          tx_retry_depth = mul (sub (lit 1 0) pdr_mean) (lit 6 0);
          tx_defer_ms = deferral s4;
          shadow_expected = shadow.expected;
          shadow_missed = shadow.missed;
          silent_expected = shadow.silent_expected;
          silent_missed = shadow.silent_missed;
        },
        record s4 { t = add s4.t setup.dt },
      )

  -- the first half of `step`: events, motion, and the agent's frame with the jammers that it sets off
  unfoldable pub prepare : State F R → State F R
  prepare s =
      let s' = move_on maths rand setup (apply_events maths rand setup s) in
      update_reactive maths rand setup (transmit (duty_of s') s')

  -- `step`
  unfoldable pub step : Option Budget → State F R → Option (RawObs F × State F R)
  step budget s =
      let s' = prepare s in map_option (emit budget (duty_of s')) (look s'.neighbors [] s')
