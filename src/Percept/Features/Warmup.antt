-- ===== src/Percept/Features/Warmup.antt =====
-- The warm-up of the anomaly gate, and what opens it afterwards.
use mathlib.Core.Path.{subst}
use tactical_radio_jamming_s.Base.{
  ℕ, ◌+◌, ◌≤◌, ◌≡◌, refl, ◌∙◌, Bool, true, false, ◌&&◌, ◌||◌, Option, none, some, is_some, List, [],
  ◌∷◌, length, Number, lit, of_ℕ, Bool-cases, inl, inr, arith,
}
use tactical_radio_jamming_s.Percept.Observation.{RawObs}
use tactical_radio_jamming_s.Percept.Trackers.{Ewma, smooth}
use tactical_radio_jamming_s.Percept.Features.{FeatureMath, FeatureExtractor, extractor}
use tactical_radio_jamming_s.Percept.Features.Links.{summary}
use tactical_radio_jamming_s.Percept.Features.Gate.{before_gate, is_warm, retry_up, no_rx}
use tactical_radio_jamming_s.Percept.Features.Advance.{advance}
use tactical_radio_jamming_s.Percept.Features.Vector.{update}
use tactical_radio_jamming_s.Percept.Features.Freeze.{updates, open_iff, is_alarmed}
use tactical_radio_jamming_s.Percept.Features.Windows.{
  IsInStep, extractor-IsInStep, update-IsInStep, open_gate-marked, run-IsInStep,
}

module _ {F : Type 0} ⦃num : Number F⦄ (math : FeatureMath F) where
  open num use {le, mul}

  -- `n` samples of `dt` seconds last at least the warm-up
  abbrev pub is_over : ℕ → F → Bool
  is_over n dt = le (lit 4 0) (mul (of_ℕ n) dt)

  is_some-none : {A : Type 0} (a : Option A) → is_some a ≡ false → a ≡ none
  is_some-none none h = refl
  is_some-none (some a) h = absurd (ground arith)

  update-dt : (o : RawObs F) (x : FeatureExtractor F) → (update math o x).1.dt ≡ x.dt
  unfolding update advance
  update-dt o x =
      let s = summary math o in
      let (t, p, r, e) = open_gate-marked math o s (before_gate math o s x) in rw e refl

  -- the state after `n` samples of `dt`, with the gate shut
  pub record IsShut (n : ℕ) (dt : F) (x : FeatureExtractor F) : Type 0 where
    pub in_step : IsInStep n x
    pub dt_eq : x.dt ≡ dt
    pub shut : x.onset_t ≡ none

  pub extractor-IsShut : (n_channels : ℕ) (dt : F) → IsShut 0 dt (extractor n_channels dt)
  unfolding extractor
  extractor-IsShut n_channels dt = record {
    in_step = extractor-IsInStep math n_channels dt;
    dt_eq = refl;
    shut = refl;
  }

  -- An observation in the warm-up leaves the gate shut.
  pub update-IsShut :
      (n : ℕ) (dt : F) (o : RawObs F) (x : FeatureExtractor F)
      → is_over (n + 1) dt ≡ false
      → IsShut n dt x
      → IsShut (n + 1) dt (update math o x).1
  update-IsShut n dt o x early h = record {
    in_step = update-IsInStep math n o x h.in_step;
    dt_eq = update-dt o x ∙ h.dt_eq;
    shut = is_some-none _ (open_iff math o x ∙ still);
  }
    where
      counted : mul (of_ℕ (x.gate_samples + 1)) x.dt ≡ mul (of_ℕ (n + 1)) dt
      counted = rw (h.in_step.samples_eq, h.dt_eq) refl

      still :
          (is_some x.onset_t
            || (is_warm math (before_gate math o (summary math o) x)
                && is_alarmed math o (summary math o) (before_gate math o (summary math o) x)))
          ≡ false
      still = rw (h.shut, counted, early) refl

  updates-IsShut :
      (n : ℕ) (dt : F) (os : List (RawObs F)) (x : FeatureExtractor F)
      → ((k : ℕ) → k ≤ n + length os → is_over k dt ≡ false)
      → IsShut n dt x
      → IsShut (n + length os) dt (updates math os x)
  unfolding updates
  updates-IsShut n dt [] x early h = subst (λ k. IsShut k dt x) (omega arith) h
  updates-IsShut n dt (o ∷ os) x early h =
      subst (λ k. IsShut k dt (updates math os (update math o x).1)) (omega arith)
        (updates-IsShut (n + 1) dt os _ (λ k le. early k (omega (arith, le)))
          (update-IsShut n dt o x (early (n + 1) (omega arith)) h))

  -- As long as the samples together last less than the warm-up of four seconds, the gate stays shut,
  -- whatever is observed.
  pub warm_up-shut :
      (n_channels : ℕ) (dt : F) (os : List (RawObs F))
      → ((k : ℕ) → k ≤ length os → is_over k dt ≡ false)
      → (updates math os (extractor n_channels dt)).onset_t ≡ none
  warm_up-shut n_channels dt os early =
      (updates-IsShut 0 dt os _ (λ k le. early k (omega (arith, le)))
        (extractor-IsShut n_channels dt)).shut

  -- one more sample gives the average a value
  init-smooth : (v dt : F) (e : Ewma F) → (smooth math.exp v dt e).init ≡ true
  unfolding smooth
  init-smooth v dt e = ground arith

  -- an observation with that many retries or that long a silence
  update-opens :
      (n : ℕ) (dt : F) (o : RawObs F) (x : FeatureExtractor F)
      → IsInStep n x
      → x.dt ≡ dt
      → is_over (n + 1) dt ≡ true
      → (retry_up math (summary math o) || no_rx math (summary math o)) ≡ true
      → is_some (update math o x).1.onset_t ≡ true
  update-opens n dt o x h same over alarm = elim (Bool-cases (is_some x.onset_t)) [
    | inl was ↦ open_iff math o x ∙ rw was refl
    | inr shut ↦ open_iff math o x ∙ both _ _ _ (warm shut) alarmed
  ]
    where
      counted : mul (of_ℕ (x.gate_samples + 1)) x.dt ≡ mul (of_ℕ (n + 1)) dt
      counted = rw (h.samples_eq, same) refl

      warm : is_some x.onset_t ≡ false → is_warm math (before_gate math o (summary math o) x) ≡ true
      warm shut = rw (shut, counted, over, init-smooth _ _ x.pdr_base) refl

      both : (a b c : Bool) → b ≡ true → c ≡ true → (a || (b && c)) ≡ true
      both a b c p q = ground arith

      alarmed : is_alarmed math o (summary math o) (before_gate math o (summary math o) x) ≡ true
      alarmed = ground (arith, alarm)

  updates-dt : (os : List (RawObs F)) (x : FeatureExtractor F) → (updates math os x).dt ≡ x.dt
  unfolding updates
  updates-dt [] x = refl
  updates-dt (o ∷ os) x = updates-dt os _ ∙ update-dt o x

  -- Once the samples together last the warm-up, then whatever was observed before, an observation in
  -- which the retries exceed 0.35 on average, or some neighbour has been silent for more than three
  -- seconds, leaves the gate open.
  pub late_alarm-opens :
      (n_channels : ℕ) (dt : F) (os : List (RawObs F)) (o : RawObs F)
      → is_over (length os + 1) dt ≡ true
      → (retry_up math (summary math o) || no_rx math (summary math o)) ≡ true
      → is_some (update math o (updates math os (extractor n_channels dt))).1.onset_t ≡ true
  unfolding extractor
  late_alarm-opens n_channels dt os o =
      update-opens (length os) dt o _ (run-IsInStep math n_channels dt os) (updates-dt os _)
