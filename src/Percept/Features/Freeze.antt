-- ===== src/Percept/Features/Freeze.antt =====
-- What the anomaly gate of `FeatureExtractor.update` keeps once it is open, and when it opens.
use tactical_radio_jamming_s.Base.{
  ◌≡◌, refl, ap, ◌∙◌, Bool, true, ◌&&◌, ◌||◌, Option, none, some, is_some, List, [], ◌∷◌, Number,
  Bool-cases, inl, inr, arith,
}
use tactical_radio_jamming_s.Percept.Observation.{RawObs}
use tactical_radio_jamming_s.Percept.Features.{FeatureMath, FeatureExtractor, GateReason}
use tactical_radio_jamming_s.Percept.Features.Links.{Summary, summary}
use tactical_radio_jamming_s.Percept.Features.Gate.{
  before_gate, open_gate, is_warm, trigger, onset, noise_up, retry_up, no_rx, shadow_up,
}
use tactical_radio_jamming_s.Percept.Features.Advance.{advance, after_gate}
use tactical_radio_jamming_s.Percept.Features.Vector.{update}

-- The second state has the onset and the baselines of the first.
pub record IsFrozen {F : Type 0} (x y : FeatureExtractor F) : Type 0 where
  pub onset_t_eq : y.onset_t ≡ x.onset_t
  pub onset_pos_eq : y.onset_pos ≡ x.onset_pos
  pub reason_eq : y.gate_reason ≡ x.gate_reason
  pub pdr_eq : y.pdr_base ≡ x.pdr_base
  pub rssi_eq : y.rssi_base ≡ x.rssi_base
  pub sinr_eq : y.sinr_base ≡ x.sinr_base
  pub noise_eq : y.noise_base ≡ x.noise_base

IsFrozen-refl : {F : Type 0} (x : FeatureExtractor F) → IsFrozen x x
IsFrozen-refl x = record {
  onset_t_eq = refl;
  onset_pos_eq = refl;
  reason_eq = refl;
  pdr_eq = refl;
  rssi_eq = refl;
  sinr_eq = refl;
  noise_eq = refl;
}

IsFrozen-trans :
    {F : Type 0} {x y z : FeatureExtractor F} → IsFrozen x y → IsFrozen y z → IsFrozen x z
IsFrozen-trans h k = record {
  onset_t_eq = k.onset_t_eq ∙ h.onset_t_eq;
  onset_pos_eq = k.onset_pos_eq ∙ h.onset_pos_eq;
  reason_eq = k.reason_eq ∙ h.reason_eq;
  pdr_eq = k.pdr_eq ∙ h.pdr_eq;
  rssi_eq = k.rssi_eq ∙ h.rssi_eq;
  sinr_eq = k.sinr_eq ∙ h.sinr_eq;
  noise_eq = k.noise_eq ∙ h.noise_eq;
}

module _ {F : Type 0} ⦃num : Number F⦄ (math : FeatureMath F) where
  open num use {le, mul}

  -- the states after a sequence of updates
  unfoldable pub updates : List (RawObs F) → FeatureExtractor F → FeatureExtractor F
  updates [] x = x
  updates (o ∷ os) x = updates os (update math o x).1

  shut-IsFrozen :
      (o : RawObs F) (s : Summary F) (x : FeatureExtractor F)
      → is_some x.onset_t ≡ true
      → IsFrozen x (open_gate math o s x)
  unfolding open_gate
  shut-IsFrozen o s x h = elim (Bool-cases (is_warm math x)) [
    | inl e ↦ rw (e, h) (IsFrozen-refl x)
    | inr e ↦ rw e (IsFrozen-refl x)
  ]

  before_gate-IsFrozen :
      (o : RawObs F) (s : Summary F) (x : FeatureExtractor F)
      → is_some x.onset_t ≡ true
      → IsFrozen x (before_gate math o s x)
  before_gate-IsFrozen o s x h = record {
    onset_t_eq = refl;
    onset_pos_eq = refl;
    reason_eq = refl;
    pdr_eq = rw h refl;
    rssi_eq = rw h refl;
    sinr_eq = rw h refl;
    noise_eq = rw h refl;
  }

  after_gate-IsFrozen :
      (o : RawObs F) (s : Summary F) (x : FeatureExtractor F) → IsFrozen x (after_gate math o s x)
  after_gate-IsFrozen o s x = record {
    onset_t_eq = refl;
    onset_pos_eq = refl;
    reason_eq = refl;
    pdr_eq = refl;
    rssi_eq = refl;
    sinr_eq = refl;
    noise_eq = refl;
  }

  update-IsFrozen :
      (o : RawObs F) (x : FeatureExtractor F)
      → is_some x.onset_t ≡ true
      → IsFrozen x (update math o x).1
  unfolding update advance
  update-IsFrozen o x h =
      let s = summary math o in
      let b = before_gate-IsFrozen o s x h in
      IsFrozen-trans b
        (IsFrozen-trans (shut-IsFrozen o s (before_gate math o s x) h) (after_gate-IsFrozen o s _))

  -- Once the gate has opened, no later observation moves the onset, its place and its reason, or any of
  -- the four baselines that anomalies are measured against.
  pub updates-IsFrozen :
      (os : List (RawObs F)) (x : FeatureExtractor F)
      → is_some x.onset_t ≡ true
      → IsFrozen x (updates os x)
  unfolding updates
  updates-IsFrozen [] x h = IsFrozen-refl x
  updates-IsFrozen (o ∷ os) x h =
      let first = update-IsFrozen o x h in
      IsFrozen-trans first (updates-IsFrozen os _ (ap is_some first.onset_t_eq ∙ h))

  -- One of the five triggers holds.
  abbrev pub is_alarmed : RawObs F → Summary F → FeatureExtractor F → Bool
  is_alarmed o s x =
      x.cusum.fired || noise_up math o x || retry_up math s || no_rx math s || shadow_up math x

  trigger-is_alarmed :
      (o : RawObs F) (s : Summary F) (x : FeatureExtractor F)
      → is_some (trigger math o s x) ≡ is_alarmed o s x
  unfolding trigger
  trigger-is_alarmed o s x = ground arith

  is_some-onset :
      (o : RawObs F) (r : Option GateReason) (x : FeatureExtractor F)
      → is_some (onset math o r x).onset_t ≡ (is_some x.onset_t || is_some r)
  is_some-onset o none x = ground arith
  is_some-onset o (some r) x = ground arith

  -- The gate is open after an update exactly if it was open before, or the warm-up is over, there is a
  -- baseline, and at least one of the five triggers holds.
  pub open_iff :
      (o : RawObs F) (x : FeatureExtractor F)
      → let y = before_gate math o (summary math o) x in
        is_some (update math o x).1.onset_t
        ≡ (is_some x.onset_t || (is_warm math y && is_alarmed o (summary math o) y))
  unfolding update advance open_gate
  open_iff o x =
      let s = summary math o in
      let y = before_gate math o s x in
      ground (arith, trigger-is_alarmed o s y, is_some-onset o (trigger math o s y) y)
