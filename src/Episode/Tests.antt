-- ===== src/Episode/Tests.antt =====
-- The whole program's theorems at a small scenario.
use tactical_radio_jamming_s.Base.{
  ℕ, zero, suc, ◌≤◌, ◌≡◌, refl, true, false, some, none, Fixed, fixed_number, lit, [], arith,
}
use tactical_radio_jamming_s.Base.Int.{pos, ◌*ℤ◌, quot}
use tactical_radio_jamming_s.Percept.Features.{FeatureExtractor, extractor}
use tactical_radio_jamming_s.Percept.Features.Toy.{math}
use tactical_radio_jamming_s.Percept.Features.Warmup.{is_over}
use tactical_radio_jamming_s.Scenario.Sample.{duel}
use tactical_radio_jamming_s.Sim.Toy.{toy_maths, counter, toy, parked, parked-IsSound}
use tactical_radio_jamming_s.Sim.Safe.{Op, perform}
use tactical_radio_jamming_s.Sim.Step.{step}
use tactical_radio_jamming_s.Api.{no_op, Budget}
use tactical_radio_jamming_s.Controller.Toy.{stubborn, caps, clock, steady}
use tactical_radio_jamming_s.Controller.State.{State, World, reset}
use tactical_radio_jamming_s.Controller.Run.{ticks, observe}
use tactical_radio_jamming_s.Controller.Safety.{declared_is_final}
use tactical_radio_jamming_s.Episode.{Reads, Sound, refsim, assembled, ticked, called}
use tactical_radio_jamming_s.Episode.Silent.{refsim-follows, episode_silent}
use tactical_radio_jamming_s.Episode.Early.{IsWaiting, early_idle}

abbrev reads : Reads Fixed
reads = record {
  to_int = λ v. pos 3;
  to_float = λ v. lit 1 0;
  to_peer = λ v. none;
  to_channels = λ v. [];
}

abbrev spent : Budget
spent = record {
  hops_used = 1;
  scans_used = 0;
  actions_used = 1;
  max_channel_hops = 3;
  max_spectrum_scans = 4;
  max_costly_actions = 6;
}

abbrev start : Sound toy_maths counter reads toy
start = (parked, parked-IsSound)

follows_step :
    (step toy_maths counter toy (some spent) start.0
      ≡ some (
        (ticked toy_maths counter reads toy spent start).0,
        (ticked toy_maths counter reads toy spent start).1.0,
      ))
    × (perform toy_maths counter toy (Op.hop (pos 3)) start.0
        ≡ some (called toy_maths counter reads toy (Op.hop (pos 3)) start).0)
follows_step = refsim-follows toy_maths counter reads toy spent (Op.hop (pos 3)) start

abbrev toy_world : World Fixed (Sound toy_maths counter reads toy) ℕ (FeatureExtractor Fixed)
toy_world = assembled (refsim toy_maths counter reads toy) toy.scenario (stubborn no_op) caps math

-- the link was declared lost
abbrev given_up : State Fixed (Sound toy_maths counter reads toy) ℕ (FeatureExtractor Fixed)
given_up = record (reset toy_world start 0 (extractor 11 (lit 1 1))) {
  sim = (
    record parked { declared_lost = true },
    record { tuned = refl; slotted = omega arith; ready = refl },
  );
  declared = true;
}

episode_silent_example :
    ((observe toy_world (ticks toy_world 5 0 given_up)).0.obs.tx_attempts ≡ 0)
    × ((observe toy_world (ticks toy_world 5 0 given_up)).0.obs.own_tx_active ≡ false)
episode_silent_example =
    episode_silent toy_maths counter reads toy (stubborn no_op) caps math 5 0 given_up (λ e. refl)
      (declared_is_final toy_world 5 0 given_up refl).still_declared

early_idle_example : IsWaiting (clock steady) duel (stubborn no_op) caps math 0 2 (
    ticks (assembled (clock steady) duel (stubborn no_op) caps math) 2 0 (
      reset (assembled (clock steady) duel (stubborn no_op) caps math) 0 0 (extractor 8 (lit 1 0))))
unfolding ◌*ℤ◌ quot
early_idle_example = early_idle (clock steady) duel (stubborn no_op) caps math 2 0 0 early
  where
    early : (k : ℕ) → k ≤ 2 → is_over math k (lit 1 0) ≡ false
    early zero h = refl
    early (suc zero) h = refl
    early (suc (suc zero)) h = refl
    early (suc (suc (suc k))) h = absurd (omega (arith, h))
