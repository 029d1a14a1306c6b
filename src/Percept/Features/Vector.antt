-- ===== src/Percept/Features/Vector.antt =====
-- The vector of `FeatureExtractor.update`, in the order of `FEATURE_NAMES`, and the method itself.
use tactical_radio_jamming_s.Base.{
  ℕ, ◌==◌, String, ◌&&◌, Option, none, some, List, [], ◌∷◌, ◌++◌, or_else, if◌then◌else◌, Number,
  lit, of_ℕ, truthy, max_of, min_of,
}
use Prim.Native.Nat.{max}
use tactical_radio_jamming_s.Percept.Observation.{RawObs, Budget}
use tactical_radio_jamming_s.Percept.Ring.{values, std, lowest, slope_per_s}
use tactical_radio_jamming_s.Percept.Trackers.{Ewma, mean_run, p95_run, pearson}
use tactical_radio_jamming_s.Percept.Norm.{clamp, nz, unit}
use tactical_radio_jamming_s.Percept.Features.{FeatureMath, FeatureExtractor}
use tactical_radio_jamming_s.Percept.Features.Links.{Summary, summary, reciprocal}
use tactical_radio_jamming_s.Percept.Features.Spectrum.{spectrum, scan_age, periodicity}
use tactical_radio_jamming_s.Percept.Features.Advance.{
  advance, norm, displacement, period_of, shadow_delta, p_silent,
}

-- `FEATURE_NAMES`
abbrev pub feature_names : List String
feature_names =
    "pdr_fast" ∷ "pdr_slow" ∷ "pdr_delta" ∷ "pdr_cusum" ∷ "pdr_worst" ∷ "pdr_spread"
    ∷ "frac_links_degraded" ∷ "t_since_onset" ∷ "rssi_mean" ∷ "rssi_std" ∷ "rssi_slope" ∷ "rssi_min"
    ∷ "rssi_pdr_corr" ∷ "frames_rx_rate" ∷ "sinr" ∷ "sinr_delta_base" ∷ "noise_now"
    ∷ "noise_delta_base" ∷ "noise_std" ∷ "cca_busy" ∷ "energy_no_preamble" ∷ "foreign_fps"
    ∷ "tx_noise_delta" ∷ "tx_loss_delta" ∷ "retry_ewma" ∷ "retries_per_success" ∷ "consec_fail"
    ∷ "queue_occ" ∷ "offered_load" ∷ "loss_load_corr" ∷ "scan_age" ∷ "scan_bad_frac"
    ∷ "scan_noise_spread" ∷ "scan_cur_rank" ∷ "scan_best_alt_margin" ∷ "scan_periodicity"
    ∷ "fade_runlen_mean" ∷ "fade_runlen_p95" ∷ "outage_duty" ∷ "outage_period" ∷ "own_speed"
    ∷ "displacement" ∷ "pdr_motion_corr" ∷ "heartbeat_gap" ∷ "hops_used" ∷ "scans_used"
    ∷ "actions_used" ∷ "t_in_episode" ∷ "rssi_reverse" ∷ "pdr_reverse" ∷ "link_asymmetry"
    ∷ "frac_peers_report_me_bad" ∷ "tx_success_ratio" ∷ "tx_defer_time" ∷ "tx_shadow_loss_delta"
    ∷ "silent_loss_rate" ∷ []

-- `N_FEATURES`
abbrev pub n_features : ℕ
n_features = 56

-- the defaults of `b.get` in `update`
abbrev no_budget : Budget
no_budget = record {
  hops_used = 0;
  scans_used = 0;
  actions_used = 0;
  max_channel_hops = 3;
  max_spectrum_scans = 4;
  max_costly_actions = 6;
}

module _ {F : Type 0} ⦃num : Number F⦄ (math : FeatureMath F) where
  open num use {neg, add, sub, mul, div}

  -- `clamp(x)`
  abbrev pub clamped : F → F
  clamped x = clamp (neg (of_ℕ 1)) (of_ℕ 1) x

  -- `clamp(x * 2.0 - 1.0)`
  abbrev spread_out : F → F
  spread_out x = clamped (sub (mul x (lit 2 0)) (lit 1 0))

  -- `RSSI_OFFSET, RSSI_SCALE`, and so on
  abbrev nz_rssi : F → F
  nz_rssi x = nz x (neg (lit 70 0)) (lit 30 0)

  abbrev nz_noise : F → F
  nz_noise x = nz x (neg (lit 90 0)) (lit 25 0)

  abbrev nz_sinr : F → F
  nz_sinr x = nz x (lit 15 0) (lit 25 0)

  -- `a.value - b.value`, if both have begun
  abbrev contrast : Ewma F → Ewma F → F
  contrast a b = if a.init && b.init then sub a.v b.v else lit 0 0

  -- `t - onset`, if the onset counts as true
  abbrev since : F → Option F → F
  since t none = lit 0 0
  since t (some onset) = if truthy onset then sub t onset else lit 0 0

  abbrev frac : ℕ → ℕ → F
  frac used cap = if cap == 0 then lit 0 0 else min_of (lit 1 0) (div (of_ℕ used) (of_ℕ cap))

  -- features 0 to 7
  abbrev pub delivery_features : RawObs F → Summary F → FeatureExtractor F → List F
  delivery_features o s x =
      unit x.pdr_fast.v
      ∷ unit x.pdr_slow.v
      ∷ clamped (mul (sub x.pdr_fast.v x.pdr_slow.v) (lit 2 0))
      ∷ clamped (div x.cusum.s (lit 35 2))
      ∷ unit s.pdr_worst
      ∷ clamped (mul s.pdr_spread (lit 4 0))
      ∷ unit s.degraded
      ∷ clamped (div (math.log1p (max_of (lit 0 0) (since o.t x.onset_t))) (math.log (lit 31 0)))
      ∷ []

  -- features 8 to 15
  abbrev pub signal_features : RawObs F → Summary F → FeatureExtractor F → List F
  signal_features o s x =
      nz_rssi s.rssi_mean
      ∷ clamped (div (std math.sqrt (lit 0 0) x.rssi_fast) (lit 12 0))
      ∷ clamped (div (slope_per_s x.dt x.rssi_fast) (lit 10 0))
      ∷ nz_rssi (lowest s.rssi_mean x.rssi_fast)
      ∷ clamped (pearson math.sqrt (values x.rssi_hist) (values x.pdr_hist))
      ∷ spread_out (div (of_ℕ s.frames_rx) (mul (lit 50 0) x.dt))
      ∷ nz_sinr s.sinr
      ∷ clamped (div (sub s.sinr x.sinr_base.v) (lit 20 0))
      ∷ []

  -- `energy_no_preamble`: busy time that carries no decodable preamble
  abbrev preambleless : RawObs F → F
  preambleless o =
      mul o.cca_busy_frac (sub (lit 1 0) (min_of (lit 1 0) (div o.decodable_fps (lit 30 0))))

  -- features 16 to 23
  abbrev pub interference_features : RawObs F → FeatureExtractor F → List F
  interference_features o x =
      nz_noise o.noise_dbm
      ∷ clamped (div (sub o.noise_dbm x.noise_base.v) (lit 20 0))
      ∷ clamped (div (std math.sqrt (lit 0 0) x.noise_fast) (lit 8 0))
      ∷ unit o.cca_busy_frac
      ∷ unit (preambleless o)
      ∷ spread_out (div o.decodable_fps (lit 50 0))
      ∷ clamped (div (contrast x.noise_tx x.noise_silent) (lit 12 0))
      ∷ clamped (mul (contrast x.loss_tx x.loss_silent) (lit 2 0))
      ∷ []

  -- features 24 to 29
  abbrev pub arq_features : RawObs F → Summary F → FeatureExtractor F → List F
  arq_features o s x =
      unit x.retry_ewma.v
      ∷ clamped (sub (div s.retry_mean (max_of (lit 1 3) s.pdr_mean)) (lit 1 0))
      ∷ spread_out (div (of_ℕ x.max_consec_fail) (lit 20 0))
      ∷ unit o.queue_occupancy
      ∷ unit o.offered_load_norm
      ∷ clamped (pearson math.sqrt (values x.load_hist) (values x.loss_hist))
      ∷ []

  -- features 30 to 35
  abbrev pub spectrum_features : RawObs F → FeatureExtractor F → List F
  spectrum_features o x =
      let sp = spectrum math o x in
      spread_out (div (math.log1p (min_of (scan_age o x) (lit 120 0))) (math.log (lit 121 0)))
      ∷ unit sp.bad
      ∷ clamped (div sp.spread (lit 12 0))
      ∷ unit sp.rank
      ∷ clamped (div sp.margin (lit 20 0))
      ∷ unit (periodicity x.scans.hot_channel_hist)
      ∷ []

  -- features 36 to 39
  abbrev pub fade_features : FeatureExtractor F → List F
  fade_features x =
      clamped (div (mean_run x.fade_runs) (lit 3 0))
      ∷ clamped (div (p95_run x.fade_runs) (lit 5 0))
      ∷ unit (div (of_ℕ x.outage_ticks) (of_ℕ (max 1 x.ticks)))
      ∷ clamped (div (period_of math x.fade_runs) (lit 5 0))
      ∷ []

  -- features 40 to 43
  abbrev pub platform_features : RawObs F → Summary F → FeatureExtractor F → List F
  platform_features o s x =
      clamped (div (norm math o.vel) (lit 20 0))
      ∷ clamped (div (displacement math o.pos x.onset_pos) (lit 100 0))
      ∷ clamped (pearson math.sqrt (values x.disp_hist) (values x.pdr_hist))
      ∷ spread_out (div (math.log1p s.hb_now) (math.log (lit 21 0)))
      ∷ []

  -- features 44 to 47
  abbrev pub book_features : RawObs F → FeatureExtractor F → List F
  book_features o x =
      let b = or_else o.budget no_budget in
      unit (frac b.hops_used b.max_channel_hops)
      ∷ unit (frac b.scans_used b.max_spectrum_scans)
      ∷ unit (frac b.actions_used b.max_costly_actions)
      ∷ spread_out (div (sub o.t (or_else x.t0 o.t)) (lit 60 0))
      ∷ []

  -- features 48 to 55
  abbrev pub report_features : Summary F → FeatureExtractor F → List F
  report_features s x =
      let r = reciprocal s.links in
      nz_rssi r.rssi_rev
      ∷ unit r.pdr_rev
      ∷ clamped (mul r.asym_mean (lit 2 0))
      ∷ unit r.frac_bad_rep
      ∷ unit (if x.tx_success.init then x.tx_success.v else lit 1 0)
      ∷ spread_out (div (if x.tx_defer.init then x.tx_defer.v else lit 0 0) (lit 2 0))
      ∷ clamped (mul (shadow_delta math x) (lit 3 0))
      ∷ unit (p_silent math x)
      ∷ []

  -- the 56 features of the state that `update` leaves
  abbrev pub vector : RawObs F → FeatureExtractor F → List F
  vector o x =
      let s = summary math o in
      delivery_features o s x
      ++ signal_features o s x
      ++ interference_features o x
      ++ arq_features o s x
      ++ spectrum_features o x
      ++ fade_features x
      ++ platform_features o s x
      ++ book_features o x
      ++ report_features s x

  -- `FeatureExtractor.update`
  unfoldable pub update : RawObs F → FeatureExtractor F → List F × FeatureExtractor F
  update o x = let x' = advance math o x in (vector o x', x')
