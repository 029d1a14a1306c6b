-- ===== src/Controller/Silence.antt =====
-- The controller and a simulator that remembers the loss of the link: what the one has declared, the
-- other knows, and sends nothing any more.
use tactical_radio_jamming_s.Base.{
  ℕ, zero, suc, ◌+◌, ◌≡◌, refl, ap, sym, ◌∙◌, Bool, true, false, some, none, Option, Number,
  Bool-cases, inl, inr, arith, List,
}
use tactical_radio_jamming_s.Api.{Call, Value, Decision, Context, Budget}
use tactical_radio_jamming_s.Controller.State.{World, Sim, State, Reason, reset}
use tactical_radio_jamming_s.Controller.Choose.{choose}
use tactical_radio_jamming_s.Controller.Apply.{apply, perform}
use tactical_radio_jamming_s.Controller.Failsafe.{failsafe_triggered}
use tactical_radio_jamming_s.Controller.Run.{
  Seen, observe, may_decide, decide, tick, ticks, context, log_decision, note_declared, note_onset,
  budget_view, verify_recovery,
}

-- A simulator in which `lost` is set by the declaration, is taken back by nothing, and silences the
-- agent's radio.
pub record IsSilencing {F S : Type 0} (sim : Sim F S) (lost : S → Bool) : Type 0 where
  pub declares : (s : S) → lost (sim.declare_link_lost s) ≡ true
  pub steps : (b : Budget) (s : S) → lost s ≡ true → lost (sim.step b s).1 ≡ true
  pub scans : (c d : Value F) (s : S) → lost s ≡ true → lost (sim.scan c d s).1 ≡ true
  pub loads : (v : Value F) (s : S) → lost s ≡ true → lost (sim.load_test v s) ≡ true
  pub probes : (v : Value F) (s : S) → lost s ≡ true → lost (sim.neighbor_probe v s) ≡ true
  pub hops : (v : Value F) (s : S) → lost s ≡ true → lost (sim.hop_channel v s) ≡ true
  pub routes : (v : Value F) (s : S) → lost s ≡ true → lost (sim.reroute v s) ≡ true
  pub powers : (v : Value F) (s : S) → lost s ≡ true → lost (sim.set_tx_power v s) ≡ true
  pub slots : (v : Value F) (s : S) → lost s ≡ true → lost (sim.change_tdma_slot v s) ≡ true
  pub moves : (x y z : Value F) (s : S) → lost s ≡ true → lost (sim.move x y z s) ≡ true
  pub falls : (s : S) → lost s ≡ true → lost (sim.fallback_to_lora s) ≡ true
  pub silent :
      (b : Budget) (s : S)
      → lost s ≡ true
      → ((sim.step b s).0.tx_attempts ≡ 0) × ((sim.step b s).0.own_tx_active ≡ false)

module _ {F S A X : Type 0} ⦃num : Number F⦄ (w : World F S A X) (lost : S → Bool)
    (law : IsSilencing w.sim lost) where
  -- What the controller has declared, the simulator knows.
  abbrev pub IsAgreed : State F S A X → Type 0
  IsAgreed s = s.declared ≡ true → lost s.sim ≡ true

  perform-IsAgreed :
      (c : Call) (d : Decision F) (t : F) (s : State F S A X)
      → IsAgreed s
      → IsAgreed (perform w c d t s)
  unfolding perform
  perform-IsAgreed Call.spectrum_scan d t s h = λ e. law.scans _ _ s.sim (h e)
  perform-IsAgreed Call.load_test d t s h = λ e. law.loads _ s.sim (h e)
  perform-IsAgreed Call.neighbor_probe d t s h = λ e. law.probes _ s.sim (h e)
  perform-IsAgreed Call.hop_channel d t s h = λ e. law.hops _ s.sim (h e)
  perform-IsAgreed Call.channel_hop_probe d t s h = λ e. law.hops _ s.sim (h e)
  perform-IsAgreed Call.reroute d t s h = λ e. law.routes _ s.sim (h e)
  perform-IsAgreed Call.set_tx_power d t s h = λ e. law.powers _ s.sim (h e)
  perform-IsAgreed Call.change_tdma_slot d t s h = λ e. law.slots _ s.sim (h e)
  perform-IsAgreed Call.move d t s h = λ e. law.moves _ _ _ s.sim (h e)
  perform-IsAgreed Call.mobility_test d t s h = λ e. law.moves _ _ _ s.sim (h e)
  perform-IsAgreed Call.fallback_to_lora d t s h = λ e. law.falls s.sim (h e)
  perform-IsAgreed Call.declare_link_lost d t s h = λ e. law.declares s.sim
  perform-IsAgreed Call.silent_listen d t s h = h
  perform-IsAgreed Call.no_op d t s h = h
  perform-IsAgreed (Call.other x) d t s h = h

  -- The simulator's state and the flag of the declaration are left alone.
  record IsAside (s t : State F S A X) : Type 0 where
    sim_eq : t.sim ≡ s.sim
    declared_eq : t.declared ≡ s.declared

  aside-IsAgreed : {s t : State F S A X} → IsAside s t → IsAgreed s → IsAgreed t
  aside-IsAgreed k h = λ e. ap lost k.sim_eq ∙ h (sym k.declared_eq ∙ e)

  choose-IsAside :
      (r : Option Reason) (f : List F) (ctx : Context F) (s : State F S A X)
      → IsAside s (choose w r f ctx s).1
  unfolding choose
  choose-IsAside none f ctx s = record { sim_eq = refl; declared_eq = refl }
  choose-IsAside (some why) f ctx s = record { sim_eq = refl; declared_eq = refl }

  note_declared-IsAside :
      (t : F) (d : Decision F) (s : State F S A X) → IsAside s (note_declared w t d s)
  unfolding note_declared
  note_declared-IsAside t d s = ground arith

  verify_recovery-IsAside : (t pdr : F) (s : State F S A X) → IsAside s (verify_recovery w t pdr s)
  unfolding verify_recovery
  verify_recovery-IsAside t pdr s = ground arith

  apply-IsAgreed :
      (d : Decision F) (t : F) (s : State F S A X) → IsAgreed s → IsAgreed (apply w d t s)
  unfolding apply
  apply-IsAgreed d t s h = perform-IsAgreed d.call d t s h

  decide-IsAgreed : (o : Seen w) (s : State F S A X) → IsAgreed s → IsAgreed (decide w o s)
  unfolding decide log_decision
  decide-IsAgreed o s h =
      let why = failsafe_triggered w s o.t in
      let chosen = choose-IsAside why o.features (context w o s) s in
      aside-IsAgreed (verify_recovery-IsAside o.t o.pdr _) (
        aside-IsAgreed (note_declared-IsAside o.t _ _)
          (apply-IsAgreed _ o.t _ (aside-IsAgreed chosen h)))

  sim-observe : (s : State F S A X) → (observe w s).1.sim ≡ (w.sim.step (budget_view w s) s.sim).1
  unfolding observe budget_view note_onset
  sim-observe s = ground arith

  declared-observe : (s : State F S A X) → (observe w s).1.declared ≡ s.declared
  unfolding observe
  declared-observe s = ground arith

  observe-IsAgreed : (s : State F S A X) → IsAgreed s → IsAgreed (observe w s).1
  observe-IsAgreed s h =
      λ e. ap lost (sim-observe s) ∙ law.steps _ s.sim (h (sym (declared-observe s) ∙ e))

  tick-IsAgreed : (i : ℕ) (s : State F S A X) → IsAgreed s → IsAgreed (tick w i s)
  unfolding tick
  tick-IsAgreed i s h =
      let (o, s') = observe w s in
      let h' = observe-IsAgreed s h in
      elim (Bool-cases (may_decide w i o.pdr s')) [
        | inl due ↦ rw due (decide-IsAgreed o s' h')
        | inr idle ↦ rw idle h'
      ]

  ticks-IsAgreed : (n i : ℕ) (s : State F S A X) → IsAgreed s → IsAgreed (ticks w n i s)
  unfolding ticks
  ticks-IsAgreed zero i s h = h
  ticks-IsAgreed (suc n) i s h = ticks-IsAgreed n (i + 1) (tick w i s) (tick-IsAgreed i s h)

  observe_silent :
      (s : State F S A X)
      → lost s.sim ≡ true
      → ((observe w s).0.obs.tx_attempts ≡ 0) × ((observe w s).0.obs.own_tx_active ≡ false)
  unfolding observe
  observe_silent s h = law.silent _ s.sim h

  -- at the start nothing is declared
  pub reset-IsAgreed : (sim : S) (agent : A) (ex : X) → IsAgreed (reset w sim agent ex)
  unfolding reset
  reset-IsAgreed sim agent ex e = absurd (cc)

  -- With a simulator that is silenced by the declaration, from a state in which it knows what the
  -- controller has declared, whatever the agent and the extractor do: once the controller has declared
  -- the link lost, the next observation is one in which the agent sends nothing.
  pub ticks_silent :
      (n i : ℕ) (s : State F S A X)
      → IsAgreed s
      → (ticks w n i s).declared ≡ true
      → ((observe w (ticks w n i s)).0.obs.tx_attempts ≡ 0)
        × ((observe w (ticks w n i s)).0.obs.own_tx_active ≡ false)
  ticks_silent n i s h e = observe_silent _ (ticks-IsAgreed n i s h e)
