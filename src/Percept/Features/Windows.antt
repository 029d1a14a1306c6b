-- ===== src/Percept/Features/Windows.antt =====
-- The invariant of the extractor's state: what its windows and counters hold after a number of updates.
use mathlib.Core.Path.{subst}
use tactical_radio_jamming_s.Base.{
  ℕ, ◌+◌, ◌≤◌, ◌≡◌, refl, ap, ◌∙◌, sym, Bool, Option, none, some, List, [], ◌∷◌, ◌&&◌, length,
  Number, Bool-cases, inl, inr, if◌then◌else◌, arith,
}
use tactical_radio_jamming_s.Percept.Observation.{RawObs, ScanResult}
use tactical_radio_jamming_s.Percept.Ring.{Ring, values}
use tactical_radio_jamming_s.Percept.Ring.Latest.{
  IsLatest, push-IsLatest, new-IsLatest, length-values,
}
use tactical_radio_jamming_s.Percept.Trackers.{RunLength, follow, IsWindow, follow-IsWindow}
use tactical_radio_jamming_s.Percept.Scans.{Scans, length-note_scan}
use tactical_radio_jamming_s.Percept.Features.{FeatureMath, FeatureExtractor, GateReason, extractor}
use tactical_radio_jamming_s.Percept.Features.Links.{Summary, summary}
use tactical_radio_jamming_s.Percept.Features.Gate.{
  before_gate, open_gate, trigger, onset, scanned, is_warm, is_nominal,
}
use tactical_radio_jamming_s.Percept.Features.Advance.{advance, after_gate}
use tactical_radio_jamming_s.Percept.Features.Vector.{update}
use tactical_radio_jamming_s.Percept.Features.Freeze.{updates}

-- The state after `n` updates.
pub record IsInStep {F : Type 0} ⦃num : Number F⦄ (n : ℕ) (x : FeatureExtractor F) : Type 0 where
  pub ticks_eq : x.ticks ≡ n
  pub samples_eq : x.gate_samples ≡ n
  pub pdr_hist : IsLatest 50 n x.pdr_hist
  pub rssi_hist : IsLatest 50 n x.rssi_hist
  pub load_hist : IsLatest 50 n x.load_hist
  pub loss_hist : IsLatest 50 n x.loss_hist
  pub speed_hist : IsLatest 50 n x.speed_hist
  pub disp_hist : IsLatest 50 n x.disp_hist
  pub rssi_fast : IsLatest 10 n x.rssi_fast
  pub noise_fast : IsLatest 10 n x.noise_fast
  pub outage_le : x.outage_ticks ≤ n
  pub hot_le : length x.scans.hot_channel_hist ≤ 12
  pub runs : IsWindow x.fade_runs
  pub most_eq : x.fade_runs.most ≡ 32
  -- the gate counts what the features count
  pub shadow_exp_eq : x.gate_shadow_exp ≡ x.shadow_exp
  pub shadow_miss_eq : x.gate_shadow_miss ≡ x.shadow_miss
  pub silent_exp_eq : x.gate_silent_exp ≡ x.silent_exp
  pub silent_miss_eq : x.gate_silent_miss ≡ x.silent_miss

module _ {F : Type 0} ⦃num : Number F⦄ (math : FeatureMath F) where
  pub extractor-IsInStep : (n_channels : ℕ) (dt : F) → IsInStep 0 (extractor n_channels dt)
  unfolding extractor
  extractor-IsInStep n_channels dt = record {
    ticks_eq = refl;
    samples_eq = refl;
    pdr_hist = new-IsLatest _ 50 (omega arith);
    rssi_hist = new-IsLatest _ 50 (omega arith);
    load_hist = new-IsLatest _ 50 (omega arith);
    loss_hist = new-IsLatest _ 50 (omega arith);
    speed_hist = new-IsLatest _ 50 (omega arith);
    disp_hist = new-IsLatest _ 50 (omega arith);
    rssi_fast = new-IsLatest _ 10 (omega arith);
    noise_fast = new-IsLatest _ 10 (omega arith);
    outage_le = omega arith;
    hot_le = omega arith;
    runs = record { runs_le = omega arith };
    most_eq = refl;
    shadow_exp_eq = refl;
    shadow_miss_eq = refl;
    silent_exp_eq = refl;
    silent_miss_eq = refl;
  }

  -- opening the gate writes three fields
  abbrev pub marked :
      Option F → Option (F × F × F) → Option GateReason → FeatureExtractor F → FeatureExtractor F
  marked t p r x = record x { onset_t = t; onset_pos = p; gate_reason = r }

  pub onset-marked :
      (o : RawObs F) (r : Option GateReason) (x : FeatureExtractor F)
      → (t : Option F) × (p : Option (F × F × F)) × (q : Option GateReason) × (onset math o r x
          ≡ marked t p q x)
  onset-marked o none x = (_, _, _, refl)
  onset-marked o (some r) x = (_, _, _, refl)

  pub open_gate-marked :
      (o : RawObs F) (s : Summary F) (x : FeatureExtractor F)
      → (t : Option F) × (p : Option (F × F × F)) × (r : Option GateReason) × (open_gate math o s x
          ≡ marked t p r x)
  unfolding open_gate
  open_gate-marked o s x = elim (Bool-cases (is_warm math x && is_nominal math x)) [
    | inl e ↦ rw e (onset-marked o (trigger math o s x) x)
    | inr e ↦ rw e (_, _, _, refl)
  ]

  length-scanned :
      (scan : Option (ScanResult F)) (s : Scans F)
      → length s.hot_channel_hist ≤ 12
      → length (scanned math scan s).hot_channel_hist ≤ 12
  length-scanned none s h = h
  length-scanned (some scan) s h = length-note_scan scan s h

  outage_step : (b : Bool) (k n : ℕ) → k ≤ n → (if b then 1 else 0) + k ≤ n + 1
  outage_step b k n h = ground (arith, h)

  most-follow : (v dt : F) (r : RunLength F) → (follow v dt r).most ≡ r.most
  unfolding follow
  most-follow v dt r = ground arith

  -- what the rest of `update` makes of any marks
  after_gate-IsInStep :
      (n : ℕ) (o : RawObs F) (s : Summary F) (x : FeatureExtractor F) (t : Option F)
      (p : Option (F × F × F)) (r : Option GateReason)
      → IsInStep n x
      → IsInStep (n + 1) (after_gate math o s (marked t p r (before_gate math o s x)))
  after_gate-IsInStep n o s x t p r h = record {
    ticks_eq = ap (◌+ 1) h.ticks_eq;
    samples_eq = ap (◌+ 1) h.samples_eq;
    pdr_hist = push-IsLatest _ _ h.pdr_hist;
    rssi_hist = push-IsLatest _ _ h.rssi_hist;
    load_hist = push-IsLatest _ _ h.load_hist;
    loss_hist = push-IsLatest _ _ h.loss_hist;
    speed_hist = push-IsLatest _ _ h.speed_hist;
    disp_hist = push-IsLatest _ _ h.disp_hist;
    rssi_fast = push-IsLatest _ _ h.rssi_fast;
    noise_fast = push-IsLatest _ _ h.noise_fast;
    outage_le = outage_step _ x.outage_ticks n h.outage_le;
    hot_le = length-scanned o.scan x.scans h.hot_le;
    runs = follow-IsWindow _ _ _ h.runs;
    most_eq = most-follow _ _ x.fade_runs ∙ h.most_eq;
    shadow_exp_eq = ap (◌+ o.shadow_expected) h.shadow_exp_eq;
    shadow_miss_eq = ap (◌+ o.shadow_missed) h.shadow_miss_eq;
    silent_exp_eq = ap (◌+ o.silent_expected) h.silent_exp_eq;
    silent_miss_eq = ap (◌+ o.silent_missed) h.silent_miss_eq;
  }

  pub update-IsInStep :
      (n : ℕ) (o : RawObs F) (x : FeatureExtractor F)
      → IsInStep n x
      → IsInStep (n + 1) (update math o x).1
  unfolding update advance
  update-IsInStep n o x h =
      let (t, p, r, e) =
        open_gate-marked o (summary math o) (before_gate math o (summary math o) x) in
      rw e (after_gate-IsInStep n o (summary math o) x t p r h)

  updates-IsInStep :
      (n : ℕ) (os : List (RawObs F)) (x : FeatureExtractor F)
      → IsInStep n x
      → IsInStep (n + length os) (updates math os x)
  unfolding updates
  updates-IsInStep n [] x h = subst (λ k. IsInStep k x) (omega arith) h
  updates-IsInStep n (o ∷ os) x h =
      subst (λ k. IsInStep k (updates math os (update math o x).1)) (omega arith)
        (updates-IsInStep (n + 1) os _ (update-IsInStep n o x h))

  -- After any observations from the start, both tick counters agree with their number; each of the
  -- six histories has as many values as there were observations, but at most fifty, and each of the two
  -- short windows at most ten; the outage is at most the whole time; at most twelve hot channels and 32 runs are remembered; and the
  -- gate has counted the same beacons as the features.
  pub run-IsInStep :
      (n_channels : ℕ) (dt : F) (os : List (RawObs F))
      → IsInStep (length os) (updates math os (extractor n_channels dt))
  run-IsInStep n_channels dt os =
      subst (λ k. IsInStep k (updates math os (extractor n_channels dt))) (omega arith)
        (updates-IsInStep 0 os _ (extractor-IsInStep n_channels dt))

  -- After any observations from the start, the samples that each of the three correlations compares are
  -- paired tick by tick: both sides hold equally many of them.
  pub run-pairs :
      (n_channels : ℕ) (dt : F) (os : List (RawObs F))
      → let x = updates math os (extractor n_channels dt) in
        (length (values x.rssi_hist) ≡ length (values x.pdr_hist))
        × (length (values x.load_hist) ≡ length (values x.loss_hist))
        × (length (values x.disp_hist) ≡ length (values x.pdr_hist))
  run-pairs n_channels dt os =
      let h = run-IsInStep n_channels dt os in
      (same h.rssi_hist h.pdr_hist, same h.load_hist h.loss_hist, same h.disp_hist h.pdr_hist)
    where
      same :
          {cap n : ℕ} {r q : Ring F}
          → IsLatest cap n r
          → IsLatest cap n q
          → length (values r) ≡ length (values q)
      same {cap} {n} {r} {q} a b =
          length-values r a.valid ∙ a.n_eq ∙ sym (length-values q b.valid ∙ b.n_eq)
