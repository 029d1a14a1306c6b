-- ===== src/Percept/Features.antt =====
-- `FeatureExtractor` of capstone/percept/features.py: the state that one update passes to the next.
-- The functions of Python's `math` are parameters.
pub mod Links
pub mod Gate
pub mod Spectrum
pub mod Advance
pub mod Vector
pub mod Bounds
pub mod Freeze
pub mod Windows
pub mod Histories
pub mod Warmup
pub mod Toy
mod Tests
use tactical_radio_jamming_s.Base.{ℕ, Bool, false, Option, none, List, [], Number, lit}
use tactical_radio_jamming_s.Percept.Ring.{Ring, new}
use tactical_radio_jamming_s.Percept.Trackers.{Ewma, Cusum, RunLength}
use tactical_radio_jamming_s.Percept.Scans.{Scans}

-- What the extractor takes from `math`.
pub record FeatureMath (F : Type 0) : Type 0 where
  pub exp : F → F
  pub sqrt : F → F
  pub log : F → F
  pub log1p : F → F
  pub dist : F × F × F → F × F × F → F

-- Which trigger opened the gate.
pub data GateReason : Type 0 where
  pdr_drop noise_rise retry_rise zero_rx tx_shadow : GateReason

pub record FeatureExtractor (F : Type 0) : Type 0 where
  pub n_channels : ℕ
  pub dt : F
  pub t0 : Option F
  pub ticks : ℕ
  -- delivery
  pub pdr_fast : Ewma F
  pub pdr_slow : Ewma F
  pub pdr_base : Ewma F
  pub cusum : Cusum F
  pub onset_t : Option F
  pub gate_reason : Option GateReason
  pub onset_pos : Option (F × F × F)
  pub pdr_hist : Ring F
  -- signal
  pub rssi_fast : Ring F
  pub rssi_hist : Ring F
  pub rssi_base : Ewma F
  pub sinr_base : Ewma F
  -- interference
  pub noise_fast : Ring F
  pub noise_base : Ewma F
  pub noise_tx : Ewma F
  pub noise_silent : Ewma F
  pub loss_tx : Ewma F
  pub loss_silent : Ewma F
  -- mac
  pub retry_ewma : Ewma F
  pub load_hist : Ring F
  pub loss_hist : Ring F
  pub max_consec_fail : ℕ
  -- spectral memory: `last_scan` and `hot_channel_hist`
  pub scans : Scans F
  -- temporal
  pub fade_runs : RunLength F
  pub outage_ticks : ℕ
  -- self
  pub speed_hist : Ring F
  pub disp_hist : Ring F
  -- transmissions
  pub tx_success : Ewma F
  pub tx_defer : Ewma F
  pub tx_retry_depth : Ewma F
  pub shadow_exp : ℕ
  pub shadow_miss : ℕ
  pub silent_exp : ℕ
  pub silent_miss : ℕ
  -- the gate's own counters
  pub gate_shadow_exp : ℕ
  pub gate_shadow_miss : ℕ
  pub gate_silent_exp : ℕ
  pub gate_silent_miss : ℕ
  pub gate_samples : ℕ

-- `_CORR_N` and `_FAST_N`: five seconds and one second at ten samples a second
abbrev pub corr_n : ℕ
corr_n = 50

abbrev pub fast_n : ℕ
fast_n = 10

module _ {F : Type 0} ⦃num : Number F⦄ where
  -- `Ewma(tau)` with `TAU_FAST`, `TAU_SLOW` and `TAU_BASE`
  abbrev ewma : F → Ewma F
  ewma tau = record { tau = tau; v = lit 0 0; init = false }

  abbrev fast : Ewma F
  fast = ewma (lit 5 1)

  abbrev slow : Ewma F
  slow = ewma (lit 5 0)

  abbrev nominal : Ewma F
  nominal = ewma (lit 60 0)

  abbrev history : Ring F
  history = new (lit 0 0) corr_n

  -- `FeatureExtractor(n_channels, dt)`
  unfoldable pub extractor : ℕ → F → FeatureExtractor F
  extractor n_channels dt = record {
    n_channels = n_channels;
    dt = dt;
    t0 = none;
    ticks = 0;
    pdr_fast = fast;
    pdr_slow = slow;
    pdr_base = nominal;
    cusum = record { k = lit 2 2; h = lit 35 2; s = lit 0 0; fired = false };
    onset_t = none;
    gate_reason = none;
    onset_pos = none;
    pdr_hist = history;
    rssi_fast = new (lit 0 0) fast_n;
    rssi_hist = history;
    rssi_base = nominal;
    sinr_base = nominal;
    noise_fast = new (lit 0 0) fast_n;
    noise_base = nominal;
    noise_tx = slow;
    noise_silent = slow;
    loss_tx = slow;
    loss_silent = slow;
    retry_ewma = slow;
    load_hist = history;
    loss_hist = history;
    max_consec_fail = 0;
    scans = record { last_scan = none; hot_channel_hist = [] };
    fade_runs = record { thresh = lit 5 1; cur = 0; runs = []; most = 32 };
    outage_ticks = 0;
    speed_hist = history;
    disp_hist = history;
    tx_success = slow;
    tx_defer = slow;
    tx_retry_depth = slow;
    shadow_exp = 0;
    shadow_miss = 0;
    silent_exp = 0;
    silent_miss = 0;
    gate_shadow_exp = 0;
    gate_shadow_miss = 0;
    gate_silent_exp = 0;
    gate_silent_miss = 0;
    gate_samples = 0;
  }
