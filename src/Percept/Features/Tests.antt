-- ===== src/Percept/Features/Tests.antt =====
-- The extractor on a few observations; the functions of `math` are simple ones.
use tactical_radio_jamming_s.Base.{
  ℕ, zero, suc, ◌≡◌, ◌≤◌, ◌||◌, ◌&&◌, refl, true, false, none, some, is_some, [], ◌∷◌, length, All,
  Fixed, fixed_number, lit, Fixed-IsOrdered, arith,
}
use tactical_radio_jamming_s.Base.Int.{negsuc, ◌-ℤ◌, ◌+ℤ◌, ◌*ℤ◌, quot}
use tactical_radio_jamming_s.Percept.Observation.{LinkObs, RawObs}
use tactical_radio_jamming_s.Percept.Features.Toy.{math}
use tactical_radio_jamming_s.Percept.Features.{FeatureExtractor, extractor}
use tactical_radio_jamming_s.Percept.Features.Links.{summary, default_link}
use tactical_radio_jamming_s.Percept.Features.Gate.{before_gate, is_warm}
use tactical_radio_jamming_s.Percept.Features.Vector.{update, feature_names, n_features}
use tactical_radio_jamming_s.Percept.Features.Bounds.{IsUnit, length-update, update-IsUnit}
use tactical_radio_jamming_s.Percept.Features.Freeze.{
  updates, IsFrozen, updates-IsFrozen, open_iff, is_alarmed,
}
use tactical_radio_jamming_s.Percept.Features.Histories.{HasWindows, run-HasWindows}
use tactical_radio_jamming_s.Percept.Features.Windows.{IsInStep, run-IsInStep}
use tactical_radio_jamming_s.Percept.Features.Warmup.{is_over, warm_up-shut, late_alarm-opens}

-- a link that retries half of its frames
abbrev bad_link : LinkObs Fixed
bad_link = record default_link { retry_rate = lit 5 1; pdr = lit 4 1; frames_rx = 2 }

abbrev seen : Fixed → LinkObs Fixed → RawObs Fixed
seen t l = record {
  t = t;
  channel = 3;
  links = ("b", l) ∷ ("c", default_link) ∷ [];
  noise_dbm = negsuc 90_999_999;
  cca_busy_frac = lit 5 1;
  decodable_fps = lit 2 0;
  own_tx_active = true;
  own_tx_duty = lit 4 1;
  offered_load_norm = lit 5 1;
  queue_occupancy = lit 1 1;
  consecutive_tx_fail = 1;
  pos = (lit 1 0, lit 2 0, lit 3 0);
  vel = (lit 1 0, lit 0 0, lit 0 0);
  scan = none;
  budget = none;
  tx_attempts = 1;
  tx_acked = 1;
  tx_retry_depth = lit 1 0;
  tx_defer_ms = lit 5 1;
  shadow_expected = 2;
  shadow_missed = 1;
  silent_expected = 2;
  silent_missed = 0;
}

-- three seconds a sample
abbrev coarse : FeatureExtractor Fixed
coarse = extractor 8 (lit 3 0)

abbrev alone : LinkObs Fixed
alone = record default_link { heartbeat_age_s = lit 5 0 }

names_all : length feature_names ≡ n_features
names_all = refl

length_of_update : length (update math (seen (lit 9 0) bad_link) coarse).0 ≡ length feature_names
length_of_update = length-update math (seen (lit 9 0) bad_link) coarse

update-IsUnit_example : All (IsUnit math) (update math (seen (lit 9 0) bad_link) coarse).0
unfolding ◌-ℤ◌
update-IsUnit_example = update-IsUnit math Fixed-IsOrdered refl (seen (lit 9 0) bad_link) coarse

-- one sample of three seconds is too early, two are enough
shut_early : (updates math (seen (lit 9 0) alone ∷ []) coarse).onset_t ≡ none
unfolding ◌*ℤ◌ quot
shut_early = warm_up-shut math 8 (lit 3 0) (seen (lit 9 0) alone ∷ []) early
  where
    early : (k : ℕ) → k ≤ 1 → is_over math k (lit 3 0) ≡ false
    early zero h = refl
    early (suc zero) h = refl
    early (suc (suc k)) h = absurd (omega (arith, h))

late_alarm-opens_example :
    is_some
      (update math
        (seen (lit 9 0) alone)
        (updates math (seen (lit 6 0) bad_link ∷ []) coarse)).1.onset_t
    ≡ true
unfolding ◌*ℤ◌ quot ◌-ℤ◌ ◌+ℤ◌ summary
late_alarm-opens_example =
    late_alarm-opens math 8 (lit 3 0) (seen (lit 6 0) bad_link ∷ []) (seen (lit 9 0) alone) refl
      refl

-- a state in which the gate has opened
abbrev opened : FeatureExtractor Fixed
opened = record coarse { onset_t = some (lit 6 0); onset_pos = some (lit 0 0, lit 0 0, lit 0 0) }

updates-IsFrozen_example :
    IsFrozen opened (updates math (seen (lit 9 0) bad_link ∷ seen (lit 12 0) alone ∷ []) opened)
updates-IsFrozen_example =
    updates-IsFrozen math (seen (lit 9 0) bad_link ∷ seen (lit 12 0) alone ∷ []) opened refl

-- what the history holds after two observations
run-HasWindows_example :
    HasWindows math
      (seen (lit 9 0) bad_link ∷ seen (lit 12 0) alone ∷ [])
      (updates math (seen (lit 9 0) bad_link ∷ seen (lit 12 0) alone ∷ []) coarse)
run-HasWindows_example =
    run-HasWindows math 8 (lit 3 0) (seen (lit 9 0) bad_link ∷ seen (lit 12 0) alone ∷ [])

windows_twice :
    IsInStep 2 (updates math (seen (lit 9 0) bad_link ∷ seen (lit 12 0) alone ∷ []) coarse)
windows_twice = run-IsInStep math 8 (lit 3 0) (seen (lit 9 0) bad_link ∷ seen (lit 12 0) alone ∷ [])

opens_late :
    let y = before_gate math (seen (lit 9 0) alone) (summary math (seen (lit 9 0) alone)) coarse in
    is_some (update math (seen (lit 9 0) alone) coarse).1.onset_t ≡ (
      is_some coarse.onset_t
      || (is_warm math y
          && is_alarmed math (seen (lit 9 0) alone) (summary math (seen (lit 9 0) alone)) y))
opens_late = open_iff math (seen (lit 9 0) alone) coarse
