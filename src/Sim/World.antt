-- ===== src/Sim/World.antt =====
-- What happens around the agent in a tick: events and motion, of capstone/sim/refsim.py.
use text.Mathlib.Text.{◌==◌ as str_eq}
use Prim.Native.Nat.{min}
use tactical_radio_jamming_s.Base.{
  ℕ, ◌+◌, ◌-◌, String, Bool, true, false, Option, none, some, List, [], ◌∷◌, length, get_elem?,
  drop, lookup, store, has_key, same_key, or_else, Number, lit, max_of, sum, if◌then◌else◌,
}
use tactical_radio_jamming_s.Scenario.{Point, Event, EventType, Mobility, Motion}
use tactical_radio_jamming_s.Sim.Radio.{Maths, Random, Fader}
use tactical_radio_jamming_s.Sim.State.{Setup, State}

module _ {F R : Type 0} ⦃num : Number F⦄ (maths : Maths F) (rand : Random F R)
    (setup : Setup F) where
  open num use {add, sub, mul, div, lt, le}

  -- `self.jammer_on[e.target] = on`, if the target is a jammer
  abbrev pub switch : Bool → Option String → State F R → State F R
  switch on none s = s
  switch on (some j) s =
      if has_key str_eq j s.jammer_on
      then record s { jammer_on = store str_eq j on s.jammer_on }
      else s

  -- `fd.m = max(0.2, m)` for every fader
  abbrev pub reshape : F → List (String × Fader F) → List (String × Fader F)
  reshape m [] = []
  reshape m ((p, f) ∷ fs) = (p, record f { m = max_of (lit 2 1) m }) ∷ reshape m fs

  -- the effect of one event
  unfoldable pub happen : EventType → Event F → State F R → State F R
  happen EventType.jammer_on e s = switch true e.target s
  happen EventType.jammer_off e s = switch false e.target s
  happen EventType.node_down e s = record s { alive = store same_key e.target false s.alive }
  happen EventType.node_up e s = record s { alive = store same_key e.target true s.alive }
  happen EventType.fade_enter e s = record s {
    fade_extra_db = or_else e.params.depth_db (lit 15 0);
    faders = reshape (or_else e.params.nakagami_m (lit 1 0)) s.faders;
  }
  happen EventType.fade_exit e s = record s {
    fade_extra_db = lit 0 0;
    faders = reshape setup.scenario.channel_model.nakagami_m s.faders;
  }
  happen EventType.load_spike e s = record s {
    load_factor = or_else e.params.factor (lit 8 0);
    hidden = or_else e.params.hidden false;
  }
  happen (EventType.unheard_of kind) e s = s

  -- The loop of `_apply_events` over the events from `ev_i` on.
  unfoldable pub apply_due : List (Event F) → State F R → State F R
  apply_due [] s = s
  apply_due (e ∷ es) s =
      let rest = apply_due es (happen e.type e (record s { ev_i = s.ev_i + 1 })) in
      if le e.t s.t then rest else s

  -- `_apply_events`
  unfoldable pub apply_events : State F R → State F R
  apply_events s = apply_due (drop s.ev_i s.events) s

  abbrev drift : Point F → Point F → Point F
  drift (x, y, z) (u, v, w) =
      (add x (mul u setup.dt), add y (mul v setup.dt), add z (mul w setup.dt))

  -- the distance to a way point
  abbrev away : Point F → State F R → F
  away (x, y, z) s =
      let (a, b, c) = s.pos in
      let u = sub x a in
      let v = sub y b in let w = sub z c in maths.sqrt (sum (mul u u ∷ mul v v ∷ mul w w ∷ []))

  -- the velocity towards it
  abbrev course : F → Point F → State F R → Point F
  course speed (x, y, z) s =
      let dist = away (x, y, z) s in
      let (a, b, c) = s.pos in
      (
        mul (div (sub x a) dist) speed,
        mul (div (sub y b) dist) speed,
        mul (div (sub z c) dist) speed,
      )

  abbrev pub is_near : Point F → State F R → Bool
  is_near target s = lt (away target s) (lit 5 0)

  -- towards the way point that is due, or on to the next one within five metres of it
  abbrev pub steer : Mobility F → Point F → ℕ → State F R → State F R
  steer m target last s =
      if is_near target s
      then record s { wp_i = min (s.wp_i + 1) last; vel = (lit 0 0, lit 0 0, lit 0 0) }
      else record s { vel = course m.speed target s }

  abbrev pub to_waypoint : Mobility F → ℕ → Option (Point F) → State F R → State F R
  to_waypoint m last none s = s
  to_waypoint m last (some target) s = steer m target last s

  abbrev pub head_for : Motion → Mobility F → State F R → State F R
  head_for Motion.constant_velocity m s = record s { vel = m.velocity }
  head_for Motion.waypoint m s =
      let last = length m.waypoints - 1 in
      to_waypoint m last (get_elem? m.waypoints (min s.wp_i last)) s
  head_for _ m s = s

  abbrev pub moved_by : Option (Mobility F) → State F R → State F R
  moved_by none s = s
  moved_by (some m) s = let s' = head_for m.type m s in record s' { pos = drift s'.pos s'.vel }

  -- `_move`
  unfoldable pub move_on : State F R → State F R
  move_on s = moved_by (lookup str_eq setup.agent.id setup.mobility) s
