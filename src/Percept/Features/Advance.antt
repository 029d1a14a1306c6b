-- ===== src/Percept/Features/Advance.antt =====
-- `FeatureExtractor.update` after the gate, and its whole effect on the state.
use tactical_radio_jamming_s.Base.{
  ◌+◌, ltb, leb, Bool, ◌&&◌, ◌||◌, Option, none, some, [], ◌∷◌, length, if◌then◌else◌, Number, lit,
  sum, max_of,
}
use Prim.Native.Nat.{max}
use tactical_radio_jamming_s.Percept.Observation.{RawObs}
use tactical_radio_jamming_s.Percept.Ring.{push}
use tactical_radio_jamming_s.Percept.Trackers.{RunLength, smooth, follow}
use tactical_radio_jamming_s.Percept.Features.{FeatureMath, FeatureExtractor}
use tactical_radio_jamming_s.Percept.Features.Links.{Summary, summary, average, deviation}
use tactical_radio_jamming_s.Percept.Features.Gate.{smooth_if, ratio, before_gate, open_gate}

module _ {F : Type 0} ⦃num : Number F⦄ (math : FeatureMath F) where
  open num use {sub, mul, lt}

  abbrev pub arq : RawObs F → Summary F → FeatureExtractor F → FeatureExtractor F
  arq o s x = record x {
    retry_ewma = smooth math.exp s.retry_mean x.dt x.retry_ewma;
    max_consec_fail = max x.max_consec_fail o.consecutive_tx_fail;
    load_hist = push o.offered_load_norm x.load_hist;
    loss_hist = push (sub (lit 1 0) s.pdr_mean) x.loss_hist;
  }

  -- below `FADE_PDR_THRESH` the link is out
  abbrev pub fade : Summary F → FeatureExtractor F → FeatureExtractor F
  fade s x = record x {
    fade_runs = follow s.pdr_mean x.dt x.fade_runs;
    outage_ticks = (if lt s.pdr_mean (lit 5 1) then 1 else 0) + x.outage_ticks;
  }

  abbrev pub norm : F × F × F → F
  norm (a, b, c) = math.sqrt (sum (mul a a ∷ mul b b ∷ mul c c ∷ []))

  -- how far the agent is from where the onset found it
  abbrev pub displacement : F × F × F → Option (F × F × F) → F
  displacement p none = lit 0 0
  displacement p (some onset) = math.dist p onset

  abbrev pub locate : RawObs F → FeatureExtractor F → FeatureExtractor F
  locate o x = record x {
    speed_hist = push (norm o.vel) x.speed_hist;
    disp_hist = push (displacement o.pos x.onset_pos) x.disp_hist;
  }

  abbrev pub transmissions : RawObs F → FeatureExtractor F → FeatureExtractor F
  transmissions o x = record x {
    tx_success =
        smooth_if math (ltb 0 o.tx_attempts) (ratio math o.tx_acked o.tx_attempts) x.dt
          x.tx_success;
    tx_retry_depth = smooth_if math (ltb 0 o.tx_attempts) o.tx_retry_depth x.dt x.tx_retry_depth;
    tx_defer =
        smooth_if math (lt (lit 0 0) o.tx_defer_ms || ltb 0 o.tx_attempts) o.tx_defer_ms x.dt
          x.tx_defer;
  }

  abbrev pub count_shadow : RawObs F → FeatureExtractor F → FeatureExtractor F
  count_shadow o x = record x {
    shadow_exp = x.shadow_exp + o.shadow_expected;
    shadow_miss = x.shadow_miss + o.shadow_missed;
    silent_exp = x.silent_exp + o.silent_expected;
    silent_miss = x.silent_miss + o.silent_missed;
  }

  abbrev pub after_gate : RawObs F → Summary F → FeatureExtractor F → FeatureExtractor F
  after_gate o s x = count_shadow o (transmissions o (locate o (fade s (arq o s x))))

  -- the state after `update`
  unfoldable pub advance : RawObs F → FeatureExtractor F → FeatureExtractor F
  advance o x =
      let s = summary math o in after_gate o s (open_gate math o s (before_gate math o s x))

  -- `period_est`: the mean run, if the runs are regular
  unfoldable pub period_of : RunLength F → F
  period_of r =
      let m = average r.runs in
      if leb 3 (length r.runs) && lt (deviation math m r.runs) (mul (lit 35 2) (max_of (lit 1 6) m))
      then m
      else lit 0 0

  -- `p_shadow - p_silent` and `p_silent`, once both have been counted five times
  abbrev pub is_counted : FeatureExtractor F → Bool
  is_counted x = leb 5 x.shadow_exp && leb 5 x.silent_exp

  unfoldable pub shadow_delta : FeatureExtractor F → F
  shadow_delta x =
      if is_counted x
      then sub (ratio math x.shadow_miss x.shadow_exp) (ratio math x.silent_miss x.silent_exp)
      else lit 0 0

  unfoldable pub p_silent : FeatureExtractor F → F
  p_silent x = if is_counted x then ratio math x.silent_miss x.silent_exp else lit 0 0
