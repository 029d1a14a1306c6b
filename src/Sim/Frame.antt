-- ===== src/Sim/Frame.antt =====
-- What the parts of a tick leave as it is: the neighbours, the channel, the slot and the declaration;
-- and they forget no heartbeat and no fader.
use Prim.Native.Nat.{min}
use text.Mathlib.Text.{◌==◌ as str_eq}
use tactical_radio_jamming_s.Base.{
  ℕ, ◌+◌, String, ◌≡◌, refl, ◌∙◌, Bool, true, false, ◌&&◌, Option, none, some, List, [], ◌∷◌,
  length, ◌-◌, get_elem?, has_key, Number, arith, Bool-cases, inl, inr,
}
use tactical_radio_jamming_s.Scenario.{Point, Event, EventType, Jammer, Mobility, Motion}
use tactical_radio_jamming_s.Sim.Radio.{Maths, Random, Fader}
use tactical_radio_jamming_s.Sim.State.{Setup, State}
use tactical_radio_jamming_s.Sim.World.{
  reshape, happen, apply_due, apply_events, move_on, moved_by, to_waypoint, head_for, switch,
  is_near,
}
use tactical_radio_jamming_s.Sim.Jamming.{react, update_reactive, is_reactive, is_on}

module _ {F R : Type 0} where
  pub record Holds (s s' : State F R) : Type 0 where
    pub neighbors : s'.neighbors ≡ s.neighbors
    pub channel : s'.channel ≡ s.channel
    pub slot : s'.tdma_slot ≡ s.tdma_slot
    pub lost : s'.declared_lost ≡ s.declared_lost
    pub beats :
        (p : String)
        → has_key str_eq p s.heartbeat_age ≡ true
        → has_key str_eq p s'.heartbeat_age ≡ true
    pub fades : (p : String) → has_key str_eq p s.faders ≡ true → has_key str_eq p s'.faders ≡ true

  pub Holds_refl : (s : State F R) → Holds s s
  Holds_refl s = record {
    neighbors = refl;
    channel = refl;
    slot = refl;
    lost = refl;
    beats = λ p h. h;
    fades = λ p h. h;
  }

  pub Holds_trans : {s t u : State F R} → Holds s t → Holds t u → Holds s u
  Holds_trans a b = record {
    neighbors = b.neighbors ∙ a.neighbors;
    channel = b.channel ∙ a.channel;
    slot = b.slot ∙ a.slot;
    lost = b.lost ∙ a.lost;
    beats = λ p h. b.beats p (a.beats p h);
    fades = λ p h. b.fades p (a.fades p h);
  }

  -- ... and the agent's own transmission.
  pub record Keeps (s s' : State F R) : Type 0 where
    pub holds : Holds s s'
    pub tx : s'.own_tx_active ≡ s.own_tx_active

  pub Keeps-refl : (s : State F R) → Keeps s s
  Keeps-refl s = record { holds = Holds_refl s; tx = refl }

  pub Keeps-trans : {s t u : State F R} → Keeps s t → Keeps t u → Keeps s u
  Keeps-trans a b = record { holds = Holds_trans a.holds b.holds; tx = b.tx ∙ a.tx }

  -- A state with the same fields, but perhaps for a heartbeat and a fader that were stored.
  pub held :
      {s s' : State F R}
      → s'.neighbors ≡ s.neighbors
      → s'.channel ≡ s.channel
      → s'.tdma_slot ≡ s.tdma_slot
      → s'.declared_lost ≡ s.declared_lost
      → ((p : String)
          → has_key str_eq p s.heartbeat_age ≡ true
          → has_key str_eq p s'.heartbeat_age ≡ true)
      → ((p : String) → has_key str_eq p s.faders ≡ true → has_key str_eq p s'.faders ≡ true)
      → Holds s s'
  held n c t l b f = record { neighbors = n; channel = c; slot = t; lost = l; beats = b; fades = f }

  pub stored :
      {s s' : State F R}
      → s'.neighbors ≡ s.neighbors
      → s'.channel ≡ s.channel
      → s'.tdma_slot ≡ s.tdma_slot
      → s'.declared_lost ≡ s.declared_lost
      → s'.own_tx_active ≡ s.own_tx_active
      → ((p : String)
          → has_key str_eq p s.heartbeat_age ≡ true
          → has_key str_eq p s'.heartbeat_age ≡ true)
      → ((p : String) → has_key str_eq p s.faders ≡ true → has_key str_eq p s'.faders ≡ true)
      → Keeps s s'
  stored n c t l x b f = record { holds = held n c t l b f; tx = x }

module _ {F R : Type 0} ⦃num : Number F⦄ (maths : Maths F) (rand : Random F R)
    (setup : Setup F) where
  has_key-reshape :
      (p : String) (m : F) (fs : List (String × Fader F))
      → has_key str_eq p fs ≡ true
      → has_key str_eq p (reshape maths rand setup m fs) ≡ true
  has_key-reshape p m [] h = h
  has_key-reshape p m ((q, f) ∷ fs) h = ground (arith, has_key-reshape p m fs)

  -- the fields that nothing of this touches
  switch-Keeps :
      (on : Bool) (j : Option String) (s : State F R) → Keeps s (switch maths rand setup on j s)
  switch-Keeps on none s = Keeps-refl s
  switch-Keeps on (some j) s = elim (Bool-cases (has_key str_eq j s.jammer_on)) [
    | inl e ↦ rw e (stored refl refl refl refl refl (λ p h. h) (λ p h. h))
    | inr e ↦ rw e (Keeps-refl s)
  ]

  happen-Keeps :
      (k : EventType) (e : Event F) (s : State F R) → Keeps s (happen maths rand setup k e s)
  unfolding happen
  happen-Keeps EventType.jammer_on e s = switch-Keeps true e.target s
  happen-Keeps EventType.jammer_off e s = switch-Keeps false e.target s
  happen-Keeps EventType.node_down e s = stored refl refl refl refl refl (λ p h. h) (λ p h. h)
  happen-Keeps EventType.node_up e s = stored refl refl refl refl refl (λ p h. h) (λ p h. h)
  happen-Keeps EventType.load_spike e s = stored refl refl refl refl refl (λ p h. h) (λ p h. h)
  happen-Keeps EventType.fade_enter e s =
      stored refl refl refl refl refl (λ p h. h) (λ p h. has_key-reshape p _ s.faders h)
  happen-Keeps EventType.fade_exit e s =
      stored refl refl refl refl refl (λ p h. h) (λ p h. has_key-reshape p _ s.faders h)
  happen-Keeps (EventType.unheard_of k) e s = Keeps-refl s

  apply_due-Keeps :
      (es : List (Event F)) (s : State F R) → Keeps s (apply_due maths rand setup es s)
  unfolding apply_due
  apply_due-Keeps [] s = Keeps-refl s
  apply_due-Keeps (e ∷ es) s = elim (Bool-cases (num.le e.t s.t)) [
    | inl h ↦ rw h (Keeps-trans (counted e s) (apply_due-Keeps es _))
    | inr h ↦ rw h (Keeps-refl s)
  ]
    where
      counted :
          (e : Event F) (s : State F R)
          → Keeps s (happen maths rand setup e.type e (record s { ev_i = s.ev_i + 1 }))
      counted e s =
          Keeps-trans (stored refl refl refl refl refl (λ p h. h) (λ p h. h))
            (happen-Keeps e.type e _)

  pub apply_events-Keeps : (s : State F R) → Keeps s (apply_events maths rand setup s)
  unfolding apply_events
  apply_events-Keeps s = apply_due-Keeps _ s

  to_waypoint-Keeps :
      (m : Mobility F) (last : ℕ) (target : Option (Point F)) (s : State F R)
      → Keeps s (to_waypoint maths rand setup m last target s)
  to_waypoint-Keeps m last none s = Keeps-refl s
  to_waypoint-Keeps m last (some target) s = elim (Bool-cases (is_near maths rand setup target s)) [
    | inl e ↦ rw e (stored refl refl refl refl refl (λ p h. h) (λ p h. h))
    | inr e ↦ rw e (stored refl refl refl refl refl (λ p h. h) (λ p h. h))
  ]

  head_for-Keeps :
      (k : Motion) (m : Mobility F) (s : State F R) → Keeps s (head_for maths rand setup k m s)
  head_for-Keeps Motion.still m s = Keeps-refl s
  head_for-Keeps Motion.random_walk m s = Keeps-refl s
  head_for-Keeps Motion.constant_velocity m s =
      stored refl refl refl refl refl (λ p h. h) (λ p h. h)
  head_for-Keeps Motion.waypoint m s =
      to_waypoint-Keeps m (length m.waypoints - 1)
        (get_elem? m.waypoints (min s.wp_i (length m.waypoints - 1))) s

  moved_by-Keeps :
      (m : Option (Mobility F)) (s : State F R) → Keeps s (moved_by maths rand setup m s)
  moved_by-Keeps none s = Keeps-refl s
  moved_by-Keeps (some m) s =
      Keeps-trans (head_for-Keeps m.type m s)
        (stored refl refl refl refl refl (λ p h. h) (λ p h. h))

  pub move_on-Keeps : (s : State F R) → Keeps s (move_on maths rand setup s)
  unfolding move_on
  move_on-Keeps s = moved_by-Keeps _ s

  react-Keeps :
      (js : List (String × Jammer F)) (s : State F R) → Keeps s (react maths rand setup js s)
  unfolding react
  react-Keeps [] s = Keeps-refl s
  react-Keeps ((jid, j) ∷ js) s =
      Keeps-trans
        (elim (Bool-cases (is_reactive j && is_on jid s && s.own_tx_active)) [
          | inl e ↦ rw e (stored refl refl refl refl refl (λ p h. h) (λ p h. h))
          | inr e ↦ rw e (Keeps-refl s)
        ])
        (react-Keeps js _)

  pub update_reactive-Keeps : (s : State F R) → Keeps s (update_reactive maths rand setup s)
  unfolding update_reactive
  update_reactive-Keeps s = react-Keeps _ s
