-- ===== src/Episode.antt =====
-- `run_one` of capstone/run_episode.py: the controller around the reference simulator and the feature
-- extractor. The simulator's states are those that are sound, so that no tick of it raises.
pub mod Silent
pub mod Early
mod Tests
use tactical_radio_jamming_s.Base.{ℕ, String, Option, some, List, Number, lit}
use tactical_radio_jamming_s.Base.Int.{ℤ}
use tactical_radio_jamming_s.Percept.Observation.{RawObs, Budget}
use tactical_radio_jamming_s.Percept.Scans.{note_scan}
use tactical_radio_jamming_s.Percept.Features.{FeatureMath, FeatureExtractor, extractor}
use tactical_radio_jamming_s.Percept.Features.Vector.{update}
use tactical_radio_jamming_s.Api.{Value}
use tactical_radio_jamming_s.Scenario.{Scenario}
use tactical_radio_jamming_s.Sim.Radio.{Maths, Random}
use tactical_radio_jamming_s.Sim.State.{Setup, State}
use tactical_radio_jamming_s.Sim.Step.{scan}
use tactical_radio_jamming_s.Sim.Ticks.{step_total}
use tactical_radio_jamming_s.Sim.Safe.{Op, IsSound, Holds-IsSound, perform-Safe}
use tactical_radio_jamming_s.Controller.State.{
  Sim, Agent, Extractor, Contract, World, EpisodeLog, reset,
}
use tactical_radio_jamming_s.Controller.Run.{run}

-- What Python's `int`, `float`, arithmetic and truth values make of the arguments of a call. An argument
-- that they refuse ends the program, and is left out.
pub record Reads (F : Type 0) : Type 0 where
  pub to_int : Value F → ℤ
  pub to_float : Value F → F
  pub to_peer : Value F → Option String
  pub to_channels : Value F → List ℕ

module _ {F : Type 0} ⦃num : Number F⦄ where
  -- the extractor, as the controller calls it
  abbrev pub features : FeatureMath F → Extractor F (FeatureExtractor F)
  features math = record {
    update = update math;
    note_scan = λ scan x. record x { scans = note_scan scan x.scans };
    onset_t = λ x. x.onset_t;
  }

  -- `Controller(sim, sc, agent, contract)`, which decides once a second by default
  abbrev pub assembled :
      {S A : Type 0}
      → Sim F S
      → Scenario F
      → Agent F A
      → Contract F
      → FeatureMath F
      → World F S A (FeatureExtractor F)
  assembled sim sc agent contract math = record {
    sim = sim;
    agent = agent;
    extractor = features math;
    contract = contract;
    decision_hz = lit 1 0;
    n_channels = sc.n_channels;
    lora_available = sc.lora_available;
    duration_s = sc.duration_s;
  }

  module _ {R : Type 0} (maths : Maths F) (rand : Random F R) (reads : Reads F)
      (setup : Setup F) where
    -- a state with the proof that it is sound
    abbrev pub Sound : Type 0
    Sound = (s : State F R) × IsSound maths rand setup s

    -- a call of the simulator, which keeps the state sound
    abbrev pub called : Op F → Sound → Sound
    called op s = let safe = perform-Safe maths rand setup op s.0 s.1 in (safe.next, safe.sound)

    abbrev pub ticked : Budget → Sound → RawObs F × Sound
    ticked b s =
        let (r, e, h, quiet) = step_total maths rand setup (some b) s.0 s.1.ready in
        (r.0, (r.1, Holds-IsSound maths rand setup h s.1))

    -- `RefSim`, as the controller calls it
    abbrev pub refsim : Sim F Sound
    refsim = record {
      dt = setup.dt;
      now = λ s. s.0.t;
      channel = λ s. s.0.channel;
      step = ticked;
      scan = λ chans dwell s. (scan maths rand setup (reads.to_channels chans) s.0, s);
      load_test = λ factor. called (Op.test (reads.to_float factor));
      neighbor_probe = λ peer. called (Op.probe (reads.to_peer peer));
      hop_channel = λ ch. called (Op.hop (reads.to_int ch));
      reroute = λ via. called Op.route;
      set_tx_power = λ dbm. called (Op.power (reads.to_float dbm));
      change_tdma_slot = λ slot. called (Op.slot (reads.to_int slot));
      move = λ dx dy dz. called (Op.fly (reads.to_float dx, reads.to_float dy, reads.to_float dz));
      fallback_to_lora = called Op.lora;
      declare_link_lost = called Op.declare;
    }

    -- the log of one episode
    unfoldable pub run_one :
        {A : Type 0} → Agent F A → Contract F → FeatureMath F → Sound → A → EpisodeLog F
    run_one agent contract math s a =
        let w = assembled refsim setup.scenario agent contract math in
        run w (reset w s a (extractor setup.scenario.n_channels setup.dt))
