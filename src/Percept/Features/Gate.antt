-- ===== src/Percept/Features/Gate.antt =====
-- `FeatureExtractor.update` up to the anomaly gate: delivery, signal, interference, and the five triggers.
use tactical_radio_jamming_s.Base.{
  ℕ, ◌+◌, leb, Bool, ◌&&◌, Option, none, some, is_some, not, or_else, if◌then◌else◌, Number, lit,
  of_ℕ,
}
use tactical_radio_jamming_s.Percept.Observation.{RawObs, ScanResult}
use tactical_radio_jamming_s.Percept.Ring.{push}
use tactical_radio_jamming_s.Percept.Trackers.{Ewma, smooth, accumulate}
use tactical_radio_jamming_s.Percept.Scans.{Scans, note_scan}
use tactical_radio_jamming_s.Percept.Features.{
  FeatureMath, FeatureExtractor, GateReason, pdr_drop, noise_rise, retry_rise, zero_rx, tx_shadow,
}
use tactical_radio_jamming_s.Percept.Features.Links.{Summary}

module _ {F : Type 0} ⦃num : Number F⦄ (math : FeatureMath F) where
  open num use {sub, mul, div, lt, le}

  abbrev pub scanned : Option (ScanResult F) → Scans F → Scans F
  scanned none s = s
  scanned (some scan) s = note_scan scan s

  abbrev pub begin : RawObs F → FeatureExtractor F → FeatureExtractor F
  begin o x = record x {
    t0 = some (or_else x.t0 o.t);
    ticks = x.ticks + 1;
    scans = scanned o.scan x.scans;
  }

  -- an average that stands still unless the condition holds
  abbrev pub smooth_if : Bool → F → F → Ewma F → Ewma F
  smooth_if b v dt e = if b then smooth math.exp v dt e else e

  -- the baselines follow nominal conditions only
  abbrev pub is_nominal : FeatureExtractor F → Bool
  is_nominal x = not (is_some x.onset_t)

  abbrev pub deliver : Summary F → FeatureExtractor F → FeatureExtractor F
  deliver s x = record x {
    pdr_fast = smooth math.exp s.pdr_mean x.dt x.pdr_fast;
    pdr_slow = smooth math.exp s.pdr_mean x.dt x.pdr_slow;
    cusum = accumulate s.pdr_mean (if x.pdr_base.init then x.pdr_base.v else s.pdr_mean) x.cusum;
    pdr_base = smooth_if (is_nominal x) s.pdr_mean x.dt x.pdr_base;
    pdr_hist = push s.pdr_mean x.pdr_hist;
  }

  abbrev pub signal : RawObs F → Summary F → FeatureExtractor F → FeatureExtractor F
  signal o s x = record x {
    rssi_fast = push s.rssi_mean x.rssi_fast;
    rssi_hist = push s.rssi_mean x.rssi_hist;
    rssi_base = smooth_if (is_nominal x) s.rssi_mean x.dt x.rssi_base;
    sinr_base = smooth_if (is_nominal x) s.sinr x.dt x.sinr_base;
    noise_base = smooth_if (is_nominal x) o.noise_dbm x.dt x.noise_base;
  }

  -- noise and loss, split by whether the agent was transmitting
  abbrev pub interfere : RawObs F → Summary F → FeatureExtractor F → FeatureExtractor F
  interfere o s x =
      let loss = sub (lit 1 0) s.pdr_mean in
      record x {
        noise_fast = push o.noise_dbm x.noise_fast;
        noise_tx = smooth_if o.own_tx_active o.noise_dbm x.dt x.noise_tx;
        loss_tx = smooth_if o.own_tx_active loss x.dt x.loss_tx;
        noise_silent = smooth_if (not o.own_tx_active) o.noise_dbm x.dt x.noise_silent;
        loss_silent = smooth_if (not o.own_tx_active) loss x.dt x.loss_silent;
      }

  abbrev pub count_gate : RawObs F → FeatureExtractor F → FeatureExtractor F
  count_gate o x = record x {
    gate_shadow_exp = x.gate_shadow_exp + o.shadow_expected;
    gate_shadow_miss = x.gate_shadow_miss + o.shadow_missed;
    gate_silent_exp = x.gate_silent_exp + o.silent_expected;
    gate_silent_miss = x.gate_silent_miss + o.silent_missed;
    gate_samples = x.gate_samples + 1;
  }

  abbrev pub noise_up : RawObs F → FeatureExtractor F → Bool
  noise_up o x = x.noise_base.init && lt (lit 6 0) (sub o.noise_dbm x.noise_base.v)

  abbrev pub retry_up : Summary F → Bool
  retry_up s = lt (lit 35 2) s.retry_mean

  abbrev pub no_rx : Summary F → Bool
  no_rx s = lt (lit 3 0) s.hb_now

  -- `a / b` of two counters
  abbrev pub ratio : ℕ → ℕ → F
  ratio a b = div (of_ℕ a) (of_ℕ b)

  abbrev pub shadow_up : FeatureExtractor F → Bool
  shadow_up x =
      leb 10 x.gate_shadow_exp
      && leb 10 x.gate_silent_exp
      && lt (lit 20 2) (
          sub (ratio x.gate_shadow_miss x.gate_shadow_exp)
            (ratio x.gate_silent_miss x.gate_silent_exp))

  -- `GATE_WARMUP_S` is over, and there is a baseline
  abbrev pub is_warm : FeatureExtractor F → Bool
  is_warm x = le (lit 4 0) (mul (of_ℕ x.gate_samples) x.dt) && x.pdr_base.init

  -- The first trigger in the code's order.
  unfoldable pub trigger : RawObs F → Summary F → FeatureExtractor F → Option GateReason
  trigger o s x =
      if x.cusum.fired
      then some pdr_drop
      else if noise_up o x
      then some noise_rise
      else if retry_up s
      then some retry_rise
      else if no_rx s
      then some zero_rx
      else if shadow_up x
      then some tx_shadow
      else none

  abbrev pub onset : RawObs F → Option GateReason → FeatureExtractor F → FeatureExtractor F
  onset o none x = x
  onset o (some reason) x = record x {
    onset_t = some o.t;
    onset_pos = some o.pos;
    gate_reason = some reason;
  }

  unfoldable pub open_gate : RawObs F → Summary F → FeatureExtractor F → FeatureExtractor F
  open_gate o s x = if is_warm x && is_nominal x then onset o (trigger o s x) x else x

  -- everything up to the gate
  abbrev pub before_gate : RawObs F → Summary F → FeatureExtractor F → FeatureExtractor F
  before_gate o s x = count_gate o (interfere o s (signal o s (deliver s (begin o x))))
