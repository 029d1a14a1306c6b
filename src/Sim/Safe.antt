-- ===== src/Sim/Safe.antt =====
-- The simulator as a machine: what every sequence of ticks and calls keeps true.
use text.Mathlib.Text.{◌==◌ as str_eq}
use tactical_radio_jamming_s.Base.{
  ℕ, ◌<◌, String, ◌≡◌, refl, ap, ◌∙◌, Bool, true, false, Option, none, some, List, [], ◌∷◌, all,
  keep, lookup, Number, arith, Bool-cases, inl, inr,
}
use tactical_radio_jamming_s.Base.Int.{ℤ, pos, negsuc}
use tactical_radio_jamming_s.Scenario.{Point}
use tactical_radio_jamming_s.Scenario.Checks.{is_channel}
use tactical_radio_jamming_s.Percept.Observation.{RawObs, ScanResult, Budget}
use tactical_radio_jamming_s.Sim.Radio.{Maths, Random}
use tactical_radio_jamming_s.Sim.State.{Setup, State, Report}
use tactical_radio_jamming_s.Sim.Link.{is_alive}
use tactical_radio_jamming_s.Sim.Step.{step, scan}
use tactical_radio_jamming_s.Sim.Actions.{
  clamp_channel, slot_mod, hop_channel, set_tx_power, change_tdma_slot, load_test, neighbor_probe,
  fallback_to_lora, reroute, move, declare_link_lost, rerouted, answer, answers, fresh_report,
  probed,
}
use tactical_radio_jamming_s.Sim.Frame.{Holds, Holds_refl, Holds_trans, held}
use tactical_radio_jamming_s.Sim.Ticks.{are_ready, are_ready-Holds, step_total}

-- What the controller can make the simulator do.
pub data Op (F : Type 0) : Type 0 where
  tick : Option Budget → Op F
  lora route declare : Op F
  hop slot : ℤ → Op F
  power test : F → Op F
  probe : Option String → Op F
  fly : Point F → Op F
  -- a scan only reads
  sense : List ℕ → Op F

module _ {F R : Type 0} ⦃num : Number F⦄ (maths : Maths F) (rand : Random F R)
    (setup : Setup F) where
  -- the state once a scan has returned
  abbrev scanned : ScanResult F → State F R → State F R
  scanned result s = s

  -- the next state; `none` is an exception
  abbrev pub perform : Op F → State F R → Option (State F R)
  perform (Op.tick budget) s = elim (step maths rand setup budget s) [
    | none ↦ none
    | some (obs, s') ↦ some s'
  ]
  perform (Op.hop ch) s = some (hop_channel setup.scenario.n_channels ch s)
  perform (Op.power dbm) s = some (set_tx_power dbm s)
  perform (Op.slot n) s = some (change_tdma_slot n s)
  perform (Op.test factor) s = some (load_test factor s)
  perform (Op.probe peer) s = some (neighbor_probe peer s)
  perform Op.lora s = some (fallback_to_lora s)
  perform Op.route s = some (reroute s)
  perform (Op.fly d) s = some (move d s)
  perform Op.declare s = some (declare_link_lost s)
  perform (Op.sense chans) s = some (scanned (scan maths rand setup chans s) s)

  abbrev pub perform_all : List (Op F) → State F R → Option (State F R)
  perform_all [] s = some s
  perform_all (op ∷ ops) s = elim (perform op s) [ none ↦ none | some s' ↦ perform_all ops s' ]

  -- The channel is in the band, the slot is one of eight, and every neighbour can be observed.
  pub record IsSound (s : State F R) : Type 0 where
    pub tuned : is_channel setup.scenario.n_channels s.channel ≡ true
    pub slotted : s.tdma_slot < 8
    pub ready : are_ready maths rand setup s.neighbors s ≡ true

  pub Holds-IsSound : {s t : State F R} → Holds s t → IsSound s → IsSound t
  Holds-IsSound {s} {t} h i = record {
    tuned = ap (is_channel setup.scenario.n_channels) h.channel ∙ i.tuned;
    slotted = omega (arith, h.slot, i.slotted);
    ready =
        ap (λ ps. are_ready maths rand setup ps t) h.neighbors
        ∙ are_ready-Holds maths rand setup s.neighbors h i.ready;
  }

  clamp_channel-IsSound :
      (ch : ℤ) (n c : ℕ) → is_channel n c ≡ true → is_channel n (clamp_channel n ch) ≡ true
  clamp_channel-IsSound (pos k) n c h = ground arith
  clamp_channel-IsSound (negsuc k) n c h = ground arith

  slot_mod_bound : (n : ℤ) → slot_mod n < 8
  slot_mod_bound (pos n) = omega arith
  slot_mod_bound (negsuc n) = omega arith

  hop-IsSound :
      (ch : ℤ) (s : State F R) → IsSound s → IsSound (hop_channel setup.scenario.n_channels ch s)
  unfolding hop_channel
  hop-IsSound ch s i = record {
    tuned = clamp_channel-IsSound ch setup.scenario.n_channels s.channel i.tuned;
    slotted = i.slotted;
    ready = i.ready;
  }

  slot-IsSound : (n : ℤ) (s : State F R) → IsSound s → IsSound (change_tdma_slot n s)
  unfolding change_tdma_slot
  slot-IsSound n s i = record { tuned = i.tuned; slotted = slot_mod_bound n; ready = i.ready }

  all-keep :
      {A : Type 0} (p q : A → Bool) (xs : List A) → all p xs ≡ true → all p (keep q xs) ≡ true
  all-keep p q [] h = refl
  all-keep p q (x ∷ xs) h = ground (arith, all-keep p q xs)

  rerouted-IsSound :
      (live : List String) (s : State F R)
      → are_ready maths rand setup live s ≡ true
      → IsSound s
      → IsSound (rerouted live s)
  rerouted-IsSound [] s h i = i
  rerouted-IsSound (p ∷ live) s h i = record { tuned = i.tuned; slotted = i.slotted; ready = h }

  rerouted_lost :
      (live : List String) (s : State F R)
      → s.declared_lost ≡ true
      → (rerouted live s).declared_lost ≡ true
  rerouted_lost [] s h = h
  rerouted_lost (p ∷ live) s h = h

  answer-Holds : (p : Option String) (s : State F R) → Holds s (answer p s)
  answer-Holds none s = Holds_refl s
  answer-Holds (some p) s = elim (Bool-cases (is_alive p s)) [
    | inl e ↦ rw e (fresh_report-Holds (lookup str_eq p s.peer_reports))
    | inr e ↦ rw e (Holds_refl s)
  ]
    where
      fresh_report-Holds : (rep : Option (Report F)) → Holds s (fresh_report p rep s)
      fresh_report-Holds none = Holds_refl s
      fresh_report-Holds (some rep) = held refl refl refl refl (λ q k. k) (λ q k. k)

  answers-Holds : (ps : List (Option String)) (s : State F R) → Holds s (answers ps s)
  answers-Holds [] s = Holds_refl s
  answers-Holds (p ∷ ps) s = Holds_trans (answer-Holds p s) (answers-Holds ps (answer p s))

  probe-Holds : (peer : Option String) (s : State F R) → Holds s (neighbor_probe peer s)
  unfolding neighbor_probe
  probe-Holds peer s =
      Holds_trans (answers-Holds (probed peer s) s) (held refl refl refl refl (λ q k. k) (λ q k. k))

  -- The result of an operation on a state that the invariant holds of.
  pub record Safe (s : State F R) (o : Option (State F R)) : Type 0 where
    pub next : State F R
    pub returns : o ≡ some next
    pub sound : IsSound next
    pub lost : s.declared_lost ≡ true → next.declared_lost ≡ true

  simple :
      {s t : State F R}
      → IsSound t
      → (s.declared_lost ≡ true → t.declared_lost ≡ true)
      → Safe s (some t)
  simple {s} {t} i l = record { next = t; returns = refl; sound = i; lost = l }

  -- Every tick and every call of the controller returns and keeps the invariant, and none takes the
  -- declaration of the loss back.
  pub perform-Safe : (op : Op F) (s : State F R) → IsSound s → Safe s (perform op s)
  unfolding hop_channel change_tdma_slot reroute set_tx_power load_test fallback_to_lora move
      declare_link_lost
  perform-Safe (Op.tick budget) s i =
      let (r, e, h, quiet) = step_total maths rand setup budget s i.ready in
      rw (e, perform) (simple (Holds-IsSound h i) (λ l. h.lost ∙ l))
  perform-Safe (Op.hop ch) s i = simple (hop-IsSound ch s i) (λ h. h)
  perform-Safe (Op.power dbm) s i =
      simple (record { tuned = i.tuned; slotted = i.slotted; ready = i.ready }) (λ h. h)
  perform-Safe (Op.test factor) s i =
      simple (record { tuned = i.tuned; slotted = i.slotted; ready = i.ready }) (λ h. h)
  perform-Safe Op.lora s i =
      simple (record { tuned = i.tuned; slotted = i.slotted; ready = i.ready }) (λ h. h)
  perform-Safe (Op.fly d) s i =
      simple (record { tuned = i.tuned; slotted = i.slotted; ready = i.ready }) (λ h. h)
  perform-Safe (Op.slot n) s i = simple (slot-IsSound n s i) (λ h. h)
  perform-Safe (Op.sense chans) s i = simple i (λ h. h)
  perform-Safe (Op.probe peer) s i =
      let h = probe-Holds peer s in simple (Holds-IsSound h i) (λ l. h.lost ∙ l)
  perform-Safe Op.route s i =
      simple (rerouted-IsSound _ s (all-keep _ _ s.neighbors i.ready) i) (rerouted_lost _ s)
  perform-Safe Op.declare s i =
      simple (record { tuned = i.tuned; slotted = i.slotted; ready = i.ready }) (λ h. refl)

  -- As far as the functions of `math` and the powers return, which the model takes to be total, every
  -- sequence of ticks, scans and calls runs from a sound state without an exception, and keeps it sound:
  -- every link finds its report and its fader. None takes the declaration of the loss back.
  pub perform_all-Safe :
      (ops : List (Op F)) (s : State F R) → IsSound s → Safe s (perform_all ops s)
  perform_all-Safe [] s i = simple i (λ l. l)
  perform_all-Safe (op ∷ ops) s i =
      let first = perform-Safe op s i in
      let rest = perform_all-Safe ops first.next first.sound in
      rw (first.returns, perform_all)
        (record {
          next = rest.next;
          returns = rest.returns;
          sound = rest.sound;
          lost = λ l. rest.lost (first.lost l);
        })

  -- From a sound state, whatever is done after the link was declared lost, the next tick returns an
  -- observation in which the agent sends nothing.
  pub declared_silent :
      (ops : List (Op F)) (budget : Option Budget) (s : State F R)
      → IsSound s
      → (t : State F R) × (r : RawObs F × State F R) × (perform_all (Op.declare ∷ ops) s ≡ some t)
        × (step maths rand setup budget t ≡ some r)
        × (r.0.tx_attempts ≡ 0)
        × (r.0.own_tx_active ≡ false)
  unfolding declare_link_lost
  declared_silent ops budget s i =
      let after =
        perform_all-Safe ops (declare_link_lost s)
          (record { tuned = i.tuned; slotted = i.slotted; ready = i.ready }) in
      let (r, e, h, quiet) = step_total maths rand setup budget after.next after.sound.ready in
      let (a, b) = quiet (after.lost refl) in (after.next, r, after.returns, e, a, b)
