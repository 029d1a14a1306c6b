-- ===== src/Sim/Order.antt =====
-- The events of a scenario: they are sorted by their time, and a tick applies those that are due.
use text.Mathlib.Text.{◌==◌ as str_eq}
use tactical_radio_jamming_s.Base.{
  ℕ, zero, suc, String, ◌+◌, ◌≡◌, refl, sym, ap, ◌∙◌, Bool, true, false, not, ◌&&◌, Option, none,
  some, List, [], ◌∷◌, all, take, drop, Number, IsOrdered, arith, Bool-cases, inl, inr, has_key,
}
use tactical_radio_jamming_s.Scenario.{Event, EventType}
use tactical_radio_jamming_s.Sim.Radio.{Maths, Random}
use tactical_radio_jamming_s.Sim.State.{Setup, State, insert_event, sort_onto, sort_events}
use tactical_radio_jamming_s.Sim.World.{switch, happen, apply_due, apply_events}

module _ {F : Type 0} ⦃num : Number F⦄ where
  open num use {le}

  -- No event comes before an earlier one.
  abbrev pub is_sorted : List (Event F) → Bool
  is_sorted [] = true
  is_sorted (e ∷ es) = all (λ f. le e.t f.t) es && is_sorted es

  drop_sorted : (n : ℕ) (es : List (Event F)) → is_sorted es ≡ true → is_sorted (drop n es) ≡ true
  drop_sorted zero es h = h
  drop_sorted (suc n) [] h = h
  drop_sorted (suc n) (e ∷ es) h = drop_sorted n es (ground arith)

  module _ (ordered : IsOrdered F) where
    open ordered use {le_trans, le_total, lt-eq-not-le}

    all_later :
        (x y : F) (es : List (Event F))
        → le x y ≡ true
        → all (λ f. le y f.t) es ≡ true
        → all (λ f. le x f.t) es ≡ true
    all_later x y [] h k = refl
    all_later x y (e ∷ es) h k = ground (arith, le_trans x y e.t, all_later x y es)

    -- behind an event that is not due, none is
    none_due :
        (t : F) (e : Event F) (es : List (Event F))
        → le e.t t ≡ false
        → all (λ f. le e.t f.t) es ≡ true
        → all (λ f. not (le f.t t)) es ≡ true
    none_due t e [] h k = refl
    none_due t e (f ∷ es) h k = ground (arith, le_trans e.t f.t t, none_due t e es)

    module _ (maths : Maths F) where
      all-insert_event :
          (p : Event F → Bool) (e : Event F) (es : List (Event F))
          → p e ≡ true
          → all p es ≡ true
          → all p (insert_event maths e es) ≡ true
      all-insert_event p e [] h k = ground arith
      all-insert_event p e (f ∷ es) h k = ground (arith, all-insert_event p e es)

      insert_sorted :
          (e : Event F) (es : List (Event F))
          → is_sorted es ≡ true
          → is_sorted (insert_event maths e es) ≡ true
      insert_sorted e [] h = refl
      insert_sorted e (f ∷ es) h = ground (
        arith,
        insert_sorted e es,
        all_later e.t f.t es,
        lt-eq-not-le e.t f.t,
        le_total e.t f.t,
        all-insert_event (λ g. le f.t g.t) e es,
      )

      sort_onto_sorted :
          (done es : List (Event F))
          → is_sorted done ≡ true
          → is_sorted (sort_onto maths done es) ≡ true
      sort_onto_sorted done [] h = h
      sort_onto_sorted done (e ∷ es) h =
          sort_onto_sorted (insert_event maths e done) es (insert_sorted e done h)

      pub sort_events_sorted : (es : List (Event F)) → is_sorted (sort_events maths es) ≡ true
      unfolding sort_events
      sort_events_sorted es = sort_onto_sorted [] es refl

both : {a b : Bool} → a ≡ true → b ≡ true → (a && b) ≡ true
both h k = ground arith

module _ {F R : Type 0} ⦃num : Number F⦄ (maths : Maths F) (rand : Random F R)
    (setup : Setup F) where
  open num use {le}

  -- events applied one after the other, without a look at the clock
  abbrev pub happen_all : List (Event F) → State F R → State F R
  happen_all [] s = s
  happen_all (e ∷ es) s =
      happen_all es (happen maths rand setup e.type e (record s { ev_i = s.ev_i + 1 }))

  -- An event changes neither the clock nor the schedule.
  abbrev SameClock : State F R → State F R → Type 0
  SameClock s s' = (s'.t ≡ s.t) × (s'.events ≡ s.events) × (s'.ev_i ≡ s.ev_i)

  switch_clock :
      (on : Bool) (j : Option String) (s : State F R) → SameClock s (switch maths rand setup on j s)
  switch_clock on none s = (refl, refl, refl)
  switch_clock on (some j) s = elim (Bool-cases (has_key str_eq j s.jammer_on)) [
    | inl e ↦ rw e (refl, refl, refl)
    | inr e ↦ rw e (refl, refl, refl)
  ]

  happen_clock :
      (k : EventType) (e : Event F) (s : State F R) → SameClock s (happen maths rand setup k e s)
  unfolding happen
  happen_clock EventType.jammer_on e s = switch_clock true e.target s
  happen_clock EventType.jammer_off e s = switch_clock false e.target s
  happen_clock EventType.node_down e s = (refl, refl, refl)
  happen_clock EventType.node_up e s = (refl, refl, refl)
  happen_clock EventType.load_spike e s = (refl, refl, refl)
  happen_clock EventType.fade_enter e s = (refl, refl, refl)
  happen_clock EventType.fade_exit e s = (refl, refl, refl)
  happen_clock (EventType.unheard_of k) e s = (refl, refl, refl)

  -- What a tick does with the events `es` that are left.
  pub record IsCaughtUp (es : List (Event F)) (s s' : State F R) : Type 0 where
    pub applied : ℕ
    pub in_order : s' ≡ happen_all (take applied es) s
    pub due : all (λ e. le e.t s.t) (take applied es) ≡ true
    pub not_due : all (λ e. not (le e.t s.t)) (drop applied es) ≡ true
    pub counted : s'.ev_i ≡ s.ev_i + applied

  apply_due-IsCaughtUp :
      IsOrdered F
      → (es : List (Event F)) (s : State F R) → is_sorted es ≡ true
      → IsCaughtUp es s (apply_due maths rand setup es s)
  unfolding apply_due
  apply_due-IsCaughtUp ordered [] s h = record {
    applied = 0;
    in_order = refl;
    due = refl;
    not_due = refl;
    counted = omega arith;
  }
  apply_due-IsCaughtUp ordered (e ∷ es) s h = elim (Bool-cases (le e.t s.t)) [
    | inr later ↦
        rw (later, apply_due)
          (record {
            applied = 0;
            in_order = refl;
            due = refl;
            not_due = ground (arith, none_due ordered s.t e es);
            counted = omega arith;
          })
    | inl now ↦
        let next = happen maths rand setup e.type e (record s { ev_i = s.ev_i + 1 }) in
        let (t, _, i) = happen_clock e.type e (record s { ev_i = s.ev_i + 1 }) in
        let rest = apply_due-IsCaughtUp ordered es next (ground arith) in
        rw (now, apply_due)
          (record {
            applied = suc rest.applied;
            in_order = rest.in_order;
            due =
                both now (ap (λ u. all (λ f. le f.t u) (take rest.applied es)) (sym t) ∙ rest.due);
            not_due =
                ap (λ u. all (λ f. not (le f.t u)) (drop rest.applied es)) (sym t) ∙ rest.not_due;
            counted = omega (arith, rest.counted, i);
          })
  ]

  -- If the order of the numbers is total and the events are sorted, a tick applies, in their order and
  -- once, those events of the schedule that are due and were not yet applied, and no other.
  pub apply_events-IsCaughtUp :
      IsOrdered F
      → (s : State F R) → is_sorted s.events ≡ true
      → IsCaughtUp (drop s.ev_i s.events) s (apply_events maths rand setup s)
  unfolding apply_events
  apply_events-IsCaughtUp ordered s h =
      apply_due-IsCaughtUp ordered (drop s.ev_i s.events) s (drop_sorted s.ev_i s.events h)
