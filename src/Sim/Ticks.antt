-- ===== src/Sim/Ticks.antt =====
-- A whole tick raises nothing and keeps what its parts keep, except for the agent's own transmission.
use text.Mathlib.Text.{◌==◌ as str_eq}
use tactical_radio_jamming_s.Base.{
  ℕ, String, ◌≡◌, refl, ap, ◌∙◌, Bool, true, false, Option, some, List, [], ◌∷◌, all, Number, arith,
  Bool-cases, inl, inr, if◌then◌else◌, if_both, store,
}
use tactical_radio_jamming_s.Percept.Observation.{LinkObs, RawObs, Budget}
use tactical_radio_jamming_s.Scenario.{Fading, unfaded, nakagami, rayleigh}
use tactical_radio_jamming_s.Sim.Radio.{Maths, Random}
use tactical_radio_jamming_s.Sim.State.{Setup, State}
use tactical_radio_jamming_s.Sim.Link.{is_alive}
use tactical_radio_jamming_s.Sim.Step.{
  duty_of, transmit, look, acknowledged, report, reports, emit, prepare, step,
}
use tactical_radio_jamming_s.Sim.Frame.{
  Holds, Holds_trans, Keeps, Keeps-refl, Keeps-trans, held, stored, apply_events-Keeps,
  move_on-Keeps, update_reactive-Keeps,
}
use tactical_radio_jamming_s.Sim.Total.{Gives, Gives-after, has_fader, is_ready, link_state_total}

module _ {F R : Type 0} ⦃num : Number F⦄ (maths : Maths F) (rand : Random F R)
    (setup : Setup F) where
  has_fader-Holds :
      (k : Fading) (p : String) {s t : State F R}
      → Holds s t
      → has_fader k p s.faders ≡ true
      → has_fader k p t.faders ≡ true
  has_fader-Holds unfaded p h e = refl
  has_fader-Holds nakagami p h e = h.fades p e
  has_fader-Holds rayleigh p h e = h.fades p e

  pub is_ready-Holds :
      (p : String) {s t : State F R}
      → Holds s t
      → is_ready maths rand setup p s ≡ true
      → is_ready maths rand setup p t ≡ true
  is_ready-Holds p h e =
      ground (arith, h.beats p, has_fader-Holds setup.scenario.channel_model.fading p h)

  -- All neighbours of a list are ready.
  abbrev pub are_ready : List String → State F R → Bool
  are_ready ps s = all (λ p. is_ready maths rand setup p s) ps

  pub are_ready-Holds :
      (ps : List String) {s t : State F R}
      → Holds s t
      → are_ready ps s ≡ true
      → are_ready ps t ≡ true
  are_ready-Holds [] h e = refl
  are_ready-Holds (p ∷ ps) h e = ground (arith, is_ready-Holds p h, are_ready-Holds ps h)

  look_total :
      (ps : List String) (links : List (String × LinkObs F)) (s : State F R)
      → are_ready ps s ≡ true
      → Gives s (look maths rand setup ps links s)
  unfolding look
  look_total [] links s h = (_, refl, Keeps-refl s)
  look_total (p ∷ ps) links s h =
      let (r, e, k) = link_state_total maths rand setup p s (ground arith) in
      rw (e, look)
        (Gives-after _ k (
          look_total ps (store str_eq p r.0 links) r.1 (are_ready-Holds ps k.holds (ground arith))))

  acknowledged-Keeps : (pdr : F) (s : State F R) → Keeps s (acknowledged maths rand setup pdr s).1
  acknowledged-Keeps pdr s =
      if_both (λ (r : ℕ × State F R). Keeps s r.1) s.own_tx_active _ _
        (stored refl refl refl refl refl (λ q k. k) (λ q k. k)) (Keeps-refl s)

  report-Keeps :
      (p : String) (l : LinkObs F) (s : State F R) → Keeps s (report maths rand setup p l s).1
  report-Keeps p l s = elim (Bool-cases (is_alive p s)) [
    | inl e ↦ rw e (stored refl refl refl refl refl (λ q k. k) (λ q k. k))
    | inr e ↦ rw e (Keeps-refl s)
  ]

  reports-Keeps :
      (links : List (String × LinkObs F)) (s : State F R)
      → Keeps s (reports maths rand setup links s).1
  unfolding reports
  reports-Keeps [] s = Keeps-refl s
  reports-Keeps ((p, l) ∷ links) s = Keeps-trans (report-Keeps p l s) (reports-Keeps links _)

  emit-Keeps :
      (budget : Option Budget) (duty : F) (links : List (String × LinkObs F)) (s : State F R)
      → Keeps s (emit maths rand setup budget duty (links, s)).1
  emit-Keeps budget duty links s =
      Keeps-trans (stored refl refl refl refl refl (λ q k. k) (λ q k. k)) (
        Keeps-trans (acknowledged-Keeps _ _) (
          Keeps-trans (reports-Keeps links _)
            (stored refl refl refl refl refl (λ q k. k) (λ q k. k))))

  transmit-Holds : (duty : F) (s : State F R) → Holds s (transmit maths rand setup duty s)
  unfolding transmit
  transmit-Holds duty s =
      if_both (Holds s) s.declared_lost _ _ (held refl refl refl refl (λ q k. k) (λ q k. k))
        (held refl refl refl refl (λ q k. k) (λ q k. k))

  -- The agent sends nothing once the link was declared lost.
  transmit_silent :
      (duty : F) (s : State F R)
      → s.declared_lost ≡ true
      → (transmit maths rand setup duty s).own_tx_active ≡ false
  unfolding transmit
  transmit_silent duty s h = ground arith

  prepare-Holds : (s : State F R) → Holds s (prepare maths rand setup s)
  unfolding prepare
  prepare-Holds s =
      let moved =
        Keeps-trans (apply_events-Keeps maths rand setup s) (move_on-Keeps maths rand setup _) in
      Holds_trans moved.holds
        (Holds_trans (transmit-Holds _ _) (update_reactive-Keeps maths rand setup _).holds)

  prepare_silent :
      (s : State F R) → s.declared_lost ≡ true → (prepare maths rand setup s).own_tx_active ≡ false
  unfolding prepare
  prepare_silent s h =
      let moved =
        Keeps-trans (apply_events-Keeps maths rand setup s) (move_on-Keeps maths rand setup _) in
      (update_reactive-Keeps maths rand setup _).tx ∙ transmit_silent _ _ (moved.holds.lost ∙ h)

  -- A tick of ready neighbours raises nothing and keeps what its parts keep; and the agent sends nothing
  -- in it once the link was declared lost.
  pub step_total :
      (budget : Option Budget) (s : State F R)
      → are_ready s.neighbors s ≡ true
      → (r : RawObs F × State F R) × (step maths rand setup budget s ≡ some r)
        × Holds s r.1
        × (s.declared_lost ≡ true → (r.0.tx_attempts ≡ 0) × (r.0.own_tx_active ≡ false))
  unfolding step
  step_total budget s h =
      let before = prepare-Holds s in
      let s' = prepare maths rand setup s in
      let (r, e, k) = look_total s'.neighbors [] s' (ready_now before) in
      (
        emit maths rand setup budget (duty_of maths rand setup s') r,
        rw e refl,
        Holds_trans before
            (Keeps-trans k (emit-Keeps budget (duty_of maths rand setup s') r.0 r.1)).holds,
        λ lost.
            let quiet =
              (Keeps-trans k (emit-Keeps budget (duty_of maths rand setup s') r.0 r.1)).tx
              ∙ prepare_silent s lost in
            (ap (λ b. if b then 1 else 0) quiet, quiet),
      )
    where
      ready_now : {t : State F R} → Holds s t → are_ready t.neighbors t ≡ true
      ready_now {t} k = ap (λ ps. are_ready ps t) k.neighbors ∙ are_ready-Holds s.neighbors k h
