-- ===== src/Sim/Tests.antt =====
-- Runs of the simulator on a small scenario, and the theorems at concrete inputs. The functions of
-- `math` and the generator are simple ones.
use tactical_radio_jamming_s.Base.{
  ℕ, ◌≡◌, refl, true, false, none, some, [], ◌∷◌, Fixed, fixed_number, lit,
}
use tactical_radio_jamming_s.Base.Int.{pos, negsuc}
use tactical_radio_jamming_s.Percept.Observation.{RawObs}
use tactical_radio_jamming_s.Scenario.Sample.{axes, duel}
use tactical_radio_jamming_s.Base.{drop, Fixed-IsOrdered}
use tactical_radio_jamming_s.Base.Int.{◌+ℤ◌, ◌-ℤ◌}
use tactical_radio_jamming_s.Scenario.{EventType, adjacency}
use tactical_radio_jamming_s.Scenario.Sample.{event}
use tactical_radio_jamming_s.Scenario.Checks.{problems, validate}
use tactical_radio_jamming_s.Scenario.Runnable.{IsRunnable, validate-IsRunnable}
use tactical_radio_jamming_s.Sim.State.{start, sort_events}
use tactical_radio_jamming_s.Sim.World.{apply_events, apply_due, happen}
use tactical_radio_jamming_s.Sim.Order.{IsCaughtUp, apply_events-IsCaughtUp}
use tactical_radio_jamming_s.Sim.Ready.{start-IsSound}
use tactical_radio_jamming_s.Sim.Toy.{toy_maths, counter, toy, parked, parked-IsSound}
use tactical_radio_jamming_s.Sim.State.{Setup, State}
use tactical_radio_jamming_s.Sim.Step.{step}
use tactical_radio_jamming_s.Sim.Actions.{hop_channel, change_tdma_slot}
use tactical_radio_jamming_s.Sim.Safe.{
  Op, perform_all, IsSound, Safe, perform_all-Safe, declared_silent,
}

clamps : (hop_channel {F = Fixed} {R = ℕ} 8 (pos 12) parked).channel ≡ 8
unfolding hop_channel
clamps = refl

rounds_down : (change_tdma_slot (negsuc 0) parked).tdma_slot ≡ 7
unfolding change_tdma_slot
rounds_down = refl

perform_all-Safe_example : Safe toy_maths counter toy parked (
    perform_all toy_maths counter toy
      (Op.hop (pos 3) ∷ Op.tick none ∷ Op.sense [] ∷ Op.route ∷ [])
      parked)
perform_all-Safe_example =
    perform_all-Safe toy_maths counter toy
      (Op.hop (pos 3) ∷ Op.tick none ∷ Op.sense [] ∷ Op.route ∷ []) parked parked-IsSound

hears_nothing :
    (t : State Fixed ℕ) × (r : RawObs Fixed × State Fixed ℕ) × (perform_all toy_maths counter toy
        (Op.declare ∷ Op.tick none ∷ [])
        parked
      ≡ some t)
    × (step toy_maths counter toy none t ≡ some r)
    × (r.0.tx_attempts ≡ 0)
    × (r.0.own_tx_active ≡ false)
hears_nothing = declared_silent toy_maths counter toy (Op.tick none ∷ []) none parked parked-IsSound

duel_runs : IsRunnable axes duel
unfolding validate problems adjacency ◌+ℤ◌ ◌-ℤ◌
duel_runs = (validate-IsRunnable axes duel).0 refl

duel_starts :
    (setup : Setup Fixed) × (s : State Fixed ℕ) × (start toy_maths counter duel (lit 1 1)
      ≡ some (setup, s))
    × IsSound toy_maths counter setup s
duel_starts = start-IsSound toy_maths counter duel (lit 1 1) duel_runs refl refl

abbrev scheduled : State Fixed ℕ
scheduled = record parked {
  events =
      event 2 EventType.fade_exit "b"
      ∷ event 5 EventType.jammer_on "j"
      ∷ event 9 EventType.node_down "c"
      ∷ [];
  ev_i = 1;
}

jammer_starts : (apply_events toy_maths counter toy scheduled).jammer_on ≡ ("j", true) ∷ []
unfolding apply_events apply_due happen
jammer_starts = refl

apply_events-IsCaughtUp_example :
    IsCaughtUp toy_maths counter toy
      (drop 1 scheduled.events)
      scheduled
      (apply_events toy_maths counter toy scheduled)
apply_events-IsCaughtUp_example =
    apply_events-IsCaughtUp toy_maths counter toy Fixed-IsOrdered scheduled refl

-- Events of one time keep the order of the file.
sorts :
    sort_events toy_maths duel.events
    ≡ event 5 EventType.jammer_on "j"
      ∷ event 5 EventType.load_spike "b"
      ∷ event 9 EventType.node_down "c"
      ∷ []
unfolding sort_events
sorts = refl
