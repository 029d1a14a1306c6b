-- ===== src/Controller/Recovery.antt =====
-- What a tick of `Controller.run` does to the recovery time and the hold.
use tactical_radio_jamming_s.Base.{
  ℕ, zero, suc, ◌+◌, ◌≡◌, ◌⊎◌, refl, ap, true, false, Option, none, some, Number, arith, Bool-cases,
  inl, inr, List, ◌∙◌,
}
use tactical_radio_jamming_s.Api.{Call, Context, Decision, spectrum_scan, other}
use tactical_radio_jamming_s.Controller.State.{World, State, Reason}
use tactical_radio_jamming_s.Controller.Choose.{choose}
use tactical_radio_jamming_s.Controller.Apply.{apply, perform}
use tactical_radio_jamming_s.Controller.Failsafe.{failsafe_triggered}
use tactical_radio_jamming_s.Controller.Run.{
  Seen, context, observe, may_decide, log_decision, note_declared, is_back, verify_recovery, decide,
  tick, ticks,
}

module _ {F S A X : Type 0} ⦃num : Number F⦄ (w : World F S A X) where
  open num use {le, sub, round}

  -- The fields that the recovery check reads, before it runs.
  abbrev pub SameRecovery : State F S A X → State F S A X → Type 0
  SameRecovery s s' =
      (s'.log.recovery_t ≡ s.log.recovery_t)
      × (s'.recovery_hold_start ≡ s.recovery_hold_start)
      × (s'.baseline_pdr ≡ s.baseline_pdr)

  choose-SameRecovery :
      (r : Option Reason) (feats : List F) (ctx : Context F) (s : State F S A X)
      → SameRecovery s (choose w r feats ctx s).1
  unfolding choose
  choose-SameRecovery none feats ctx s = (refl, refl, refl)
  choose-SameRecovery (some r) feats ctx s = (refl, refl, refl)

  perform-SameRecovery :
      (c : Call) (d : Decision F) (t : F) (s : State F S A X) → SameRecovery s (perform w c d t s)
  unfolding perform
  perform-SameRecovery spectrum_scan d t s = (refl, refl, refl)
  perform-SameRecovery (other x) d t s = (refl, refl, refl)
  perform-SameRecovery c d t s = (refl, refl, refl)

  log_decision-SameRecovery :
      (t : F) (d : Decision F) (s : State F S A X) → SameRecovery s (log_decision w t d s)
  unfolding log_decision
  log_decision-SameRecovery t d s = ground arith

  apply-SameRecovery : (d : Decision F) (t : F) (s : State F S A X) → SameRecovery s (apply w d t s)
  unfolding apply
  apply-SameRecovery d t s = perform-SameRecovery d.call d t s

  note_declared-SameRecovery :
      (t : F) (d : Decision F) (s : State F S A X) → SameRecovery s (note_declared w t d s)
  unfolding note_declared
  note_declared-SameRecovery t d s = ground arith

  SameRecovery-trans :
      (a b c : State F S A X) → SameRecovery a b → SameRecovery b c → SameRecovery a c
  SameRecovery-trans a b c p q = (q.0 ∙ p.0, q.1 ∙ p.1, q.2 ∙ p.2)

  -- everything that a decision does before the recovery check
  abbrev pub acted : Seen w → State F S A X → State F S A X
  acted o s =
      let (d, s₁) = choose w (failsafe_triggered w s o.t) o.features (context w o s) s in
      note_declared w o.t d (apply w d o.t (log_decision w o.t d s₁))

  pub acted-SameRecovery : (o : Seen w) (s : State F S A X) → SameRecovery s (acted o s)
  acted-SameRecovery o s =
      let c = choose w (failsafe_triggered w s o.t) o.features (context w o s) s in
      let l = log_decision w o.t c.0 c.1 in
      let a = apply w c.0 o.t l in
      SameRecovery-trans s a (acted o s)
        (SameRecovery-trans s l a
          (SameRecovery-trans s c.1 l (choose-SameRecovery _ o.features (context w o s) s)
            (log_decision-SameRecovery o.t c.0 c.1))
          (apply-SameRecovery c.0 o.t l))
        (note_declared-SameRecovery o.t c.0 a)

  verify_recovery-keeps :
      (t pdr : F) (s : State F S A X) {r : F}
      → s.log.recovery_t ≡ some r
      → (verify_recovery w t pdr s).log.recovery_t ≡ some r
  unfolding verify_recovery
  verify_recovery-keeps t pdr s h = ground arith

  pub observe-recovery : (s : State F S A X) → (observe w s).1.log.recovery_t ≡ s.log.recovery_t
  unfolding observe
  observe-recovery s = ground arith

  decide-keeps :
      (o : Seen w) (s : State F S A X) {r : F}
      → s.log.recovery_t ≡ some r
      → (decide w o s).log.recovery_t ≡ some r
  unfolding decide
  decide-keeps o s h = verify_recovery-keeps o.t o.pdr (acted o s) ((acted-SameRecovery o s).0 ∙ h)

  tick-keeps :
      (i : ℕ) (s : State F S A X) {r : F}
      → s.log.recovery_t ≡ some r
      → (tick w i s).log.recovery_t ≡ some r
  unfolding tick
  tick-keeps i s h =
      let (o, s') = observe w s in
      elim (Bool-cases (may_decide w i o.pdr s')) [
        | inl due ↦ rw due (decide-keeps o s' (observe-recovery s ∙ h))
        | inr idle ↦ rw idle (observe-recovery s ∙ h)
      ]

  -- A recovery time that is written is never changed by the ticks that follow.
  pub recovery_is_kept :
      (n i : ℕ) (s : State F S A X) {r : F}
      → s.log.recovery_t ≡ some r
      → (ticks w n i s).log.recovery_t ≡ some r
  unfolding ticks
  recovery_is_kept zero i s h = h
  recovery_is_kept (suc n) i s h = recovery_is_kept n (i + 1) (tick w i s) (tick-keeps i s h)

  pub verify_recovery-lost :
      (t pdr : F) (s : State F S A X)
      → is_back w pdr s.baseline_pdr ≡ false
      → ((verify_recovery w t pdr s).recovery_hold_start ≡ none)
        × ((verify_recovery w t pdr s).log.recovery_t ≡ s.log.recovery_t)
  unfolding verify_recovery
  verify_recovery-lost t pdr s e = rw e (refl, refl)

  pub verify_recovery-begun :
      (t pdr : F) (s : State F S A X)
      → is_back w pdr s.baseline_pdr ≡ true
      → s.recovery_hold_start ≡ none
      → ((verify_recovery w t pdr s).recovery_hold_start ≡ some t)
        × ((verify_recovery w t pdr s).log.recovery_t ≡ s.log.recovery_t)
  unfolding verify_recovery
  verify_recovery-begun t pdr s e h = rw (e, h) (refl, refl)

  -- what becomes of a hold: it stays, and the recovery time is as it was or is written
  pub record IsLonger (t since : F) (s s' : State F S A X) : Type 0 where
    pub hold_eq : s'.recovery_hold_start ≡ some since
    pub written :
        (r : F)
        → s'.log.recovery_t ≡ some r
        → (s.log.recovery_t ≡ some r)
          ⊎ ((le w.contract.recovery_hold_s (sub t since) ≡ true) × (r ≡ round t 2))

  pub verify_recovery-IsLonger :
      (t pdr since : F) (s : State F S A X)
      → is_back w pdr s.baseline_pdr ≡ true
      → s.recovery_hold_start ≡ some since
      → IsLonger t since s (verify_recovery w t pdr s)
  unfolding verify_recovery
  verify_recovery-IsLonger t pdr since s e h = record {
    hold_eq = ground (arith, e, h);
    written = λ r is. ground (arith, e, h, is);
  }

  pub observe-hold :
      (s : State F S A X) → (observe w s).1.recovery_hold_start ≡ s.recovery_hold_start
  unfolding observe
  observe-hold s = ground arith

  pub ticks-last :
      (n i : ℕ) (s : State F S A X) → ticks w (suc n) i s ≡ tick w (i + n) (ticks w n i s)
  unfolding ticks
  ticks-last zero i s = ap (λ k. tick w k s) (omega arith)
  ticks-last (suc n) i s =
      ticks-last n (i + 1) (tick w i s)
      ∙ ap (λ k. tick w k (ticks w n (i + 1) (tick w i s))) (omega arith)
