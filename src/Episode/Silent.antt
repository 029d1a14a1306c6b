-- ===== src/Episode/Silent.antt =====
-- The reference simulator fills the controller's interface: its ticks and calls are those of the code,
-- and the declaration of the loss silences it.
use tactical_radio_jamming_s.Base.{
  ℕ, ◌≡◌, ap, sym, ◌∙◌, Bool, true, false, Option, none, some, Number,
}
use tactical_radio_jamming_s.Percept.Observation.{Budget}
use tactical_radio_jamming_s.Percept.Features.{FeatureMath, FeatureExtractor}
use tactical_radio_jamming_s.Sim.Radio.{Maths, Random}
use tactical_radio_jamming_s.Sim.State.{Setup}
use tactical_radio_jamming_s.Sim.State.{State as SimState}
use tactical_radio_jamming_s.Sim.Step.{step}
use tactical_radio_jamming_s.Sim.Actions.{declare_link_lost}
use tactical_radio_jamming_s.Sim.Ticks.{step_total}
use tactical_radio_jamming_s.Sim.Safe.{Op, perform, perform-Safe}
use tactical_radio_jamming_s.Controller.State.{Agent, Contract, State}
use tactical_radio_jamming_s.Controller.Run.{ticks, observe}
use tactical_radio_jamming_s.Controller.Silence.{IsSilencing, ticks_silent}
use tactical_radio_jamming_s.Episode.{Reads, Sound, called, ticked, refsim, assembled}

module _ {F R : Type 0} ⦃num : Number F⦄ (maths : Maths F) (rand : Random F R) (reads : Reads F)
    (setup : Setup F) where
  -- Every tick of the instance is a `step` that returns, and every call of it is the simulator's own,
  -- which returns too: neither raises, and both leave the state that the code leaves.
  pub refsim-follows :
      (b : Budget) (op : Op F) (s : Sound maths rand reads setup)
      → (step maths rand setup (some b) s.0
          ≡ some ((ticked maths rand reads setup b s).0, (ticked maths rand reads setup b s).1.0))
        × (perform maths rand setup op s.0 ≡ some (called maths rand reads setup op s).0)
  refsim-follows b op s = (
    (step_total maths rand setup (some b) s.0 s.1.ready).1,
    (perform-Safe maths rand setup op s.0 s.1).returns,
  )

  abbrev pub is_lost : Sound maths rand reads setup → Bool
  is_lost s = s.0.declared_lost

  abbrev is_lost_after : Option (SimState F R) → Bool
  is_lost_after none = true
  is_lost_after (some s) = s.declared_lost

  keeps_lost :
      (op : Op F) (s : Sound maths rand reads setup)
      → is_lost s ≡ true
      → is_lost (called maths rand reads setup op s) ≡ true
  keeps_lost op s h = (perform-Safe maths rand setup op s.0 s.1).lost h

  declares_lost :
      (s : Sound maths rand reads setup)
      → is_lost (called maths rand reads setup Op.declare s) ≡ true
  unfolding declare_link_lost
  declares_lost s =
      sym (ap is_lost_after (perform-Safe maths rand setup Op.declare s.0 s.1).returns)

  pub refsim-IsSilencing : IsSilencing (refsim maths rand reads setup) is_lost
  refsim-IsSilencing = record {
    declares = declares_lost;
    steps = λ b s h.
        let (r, e, holds, quiet) = step_total maths rand setup (some b) s.0 s.1.ready in
        holds.lost ∙ h;
    scans = λ c d s h. h;
    loads = λ v s h. keeps_lost _ s h;
    probes = λ v s h. keeps_lost _ s h;
    hops = λ v s h. keeps_lost _ s h;
    routes = λ v s h. keeps_lost _ s h;
    powers = λ v s h. keeps_lost _ s h;
    slots = λ v s h. keeps_lost _ s h;
    moves = λ x y z s h. keeps_lost _ s h;
    falls = λ s h. keeps_lost _ s h;
    silent = λ b s h.
        let (r, e, holds, quiet) = step_total maths rand setup (some b) s.0 s.1.ready in quiet h;
  }

  -- In an episode of any agent in the reference simulator, from its start or from any state in which
  -- the simulator knows what the controller has declared: once the controller has declared the link
  -- lost, the next observation is one in which the agent sends nothing.
  pub episode_silent :
      {A : Type 0} (agent : Agent F A) (contract : Contract F) (math : FeatureMath F)
      → let w = assembled (refsim maths rand reads setup) setup.scenario agent contract math in
        (n i : ℕ) (s : State F (Sound maths rand reads setup) A (FeatureExtractor F))
        → (s.declared ≡ true → is_lost s.sim ≡ true)
        → (ticks w n i s).declared ≡ true
        → ((observe w (ticks w n i s)).0.obs.tx_attempts ≡ 0)
          × ((observe w (ticks w n i s)).0.obs.own_tx_active ≡ false)
  episode_silent agent contract math n i s h e =
      ticks_silent (assembled (refsim maths rand reads setup) setup.scenario agent contract math)
        is_lost refsim-IsSilencing n i s h e
