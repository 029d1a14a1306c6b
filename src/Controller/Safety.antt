-- ===== src/Controller/Safety.antt =====
-- The dead-man rule overrides the agent, and a declared episode is over.
use tactical_radio_jamming_s.Base.{
  ℕ, zero, suc, ◌+◌, ◌≡◌, refl, Bool, true, false, ◌&&◌, none, some, Number, arith, lit, ◌↔◌,
  if◌then◌else◌,
}
use tactical_radio_jamming_s.Controller.State.{World, State, Reason, EndReason}
use tactical_radio_jamming_s.Controller.Failsafe.{
  failsafe_triggered, overdue, all_bad, spent_out, no_escape,
}
use tactical_radio_jamming_s.Controller.Choose.{choose}
use tactical_radio_jamming_s.Controller.Apply.{apply}
use tactical_radio_jamming_s.Controller.Run.{
  Seen, context, observe, may_decide, decide, tick, ticks, log_decision, note_declared,
  verify_recovery,
}

reasons_none_iff :
    (a b c d : Bool) (p q r u : Reason)
    → ((if a
          then some p
          else if b
          then some q
          else if c
          then some r
          else if d
          then some u
          else none)
        ≡ none)
      ↔ ((a ≡ false) × (b ≡ false) × (c ≡ false) × (d ≡ false))
reasons_none_iff a b c d p q r u = ground arith

module _ {F S A X : Type 0} ⦃num : Number F⦄ (w : World F S A X) where
  open num use {le, lt, round}

  -- What holds of an episode that the dead-man rule has ended.
  pub record IsEnded (why : Reason) (t : F) (before after : State F S A X) : Type 0 where
    pub is_declared : after.declared ≡ true
    pub at_time : after.log.declared_lost_t ≡ some (round t 2)
    pub because : after.log.end_reason ≡ EndReason.failsafe why
    pub unasked : after.agent ≡ before.agent

  verify_recovery-IsEnded :
      (why : Reason) (t' : F) (b : State F S A X) (t pdr : F) (s : State F S A X)
      → IsEnded why t' b s
      → IsEnded why t' b (verify_recovery w t pdr s)
  unfolding verify_recovery
  verify_recovery-IsEnded why t' b t pdr s h = ground arith

  forced_IsEnded :
      (why : Reason) (o : Seen w) (s : State F S A X)
      → let (d, s₁) = choose w (some why) o.features (context w o s) s in
        IsEnded why o.t s (note_declared w o.t d (apply w d o.t (log_decision w o.t d s₁)))
  unfolding choose apply log_decision note_declared
  forced_IsEnded why o s = record {
    is_declared = refl;
    at_time = refl;
    because = refl;
    unasked = refl;
  }

  -- If the dead-man rule fires at a tick where a decision is due, the link is declared lost at that
  -- tick with the rule's reason, and the agent is not asked.
  pub failsafe_forces :
      (o : Seen w) (s : State F S A X) {why : Reason}
      → failsafe_triggered w s o.t ≡ some why
      → IsEnded why o.t s (decide w o s)
  unfolding decide
  failsafe_forces o s {why} h =
      rw h (verify_recovery-IsEnded why o.t s o.t o.pdr _ (forced_IsEnded why o s))

  -- The dead-man rule stays silent exactly when none of its four conditions holds.
  pub failsafe_silent_iff :
      (s : State F S A X) (t : F)
      → (failsafe_triggered w s t ≡ none) ↔ (
          (le w.contract.no_link_declare_s s.no_link_for ≡ false)
          × (overdue w.contract s.onset_t t ≡ false)
          × (spent_out w s ≡ false)
          × ((all_bad w.contract s.last_scan && lt (lit 2 0) s.no_link_for && no_escape w s)
              ≡ false))
  unfolding failsafe_triggered
  failsafe_silent_iff s t = reasons_none_iff _ _ _ _ _ _ _ _

  -- What a declared episode keeps from tick to tick: everything but what the loop observes.
  pub record IsKept (before after : State F S A X) : Type 0 where
    pub used_same : after.used ≡ before.used
    pub agent_same : after.agent ≡ before.agent
    pub still_declared : after.declared ≡ true
    pub tried_same : after.tried ≡ before.tried
    pub trace_same : after.log.classification_trace ≡ before.log.classification_trace
    pub actions_same : after.log.actions ≡ before.log.actions
    pub recovery_same : after.log.recovery_t ≡ before.log.recovery_t
    pub reason_same : after.log.end_reason ≡ before.log.end_reason

  observe-IsKept : (s : State F S A X) → s.declared ≡ true → IsKept s (observe w s).1
  unfolding observe
  observe-IsKept s h = ground arith

  not-may_decide :
      (i : ℕ) (pdr : F) (s : State F S A X) → s.declared ≡ true → may_decide w i pdr s ≡ false
  unfolding may_decide
  not-may_decide i pdr s h = rw h

  tick-IsKept : (i : ℕ) (s : State F S A X) → s.declared ≡ true → IsKept s (tick w i s)
  unfolding tick
  tick-IsKept i s h =
      let k = observe-IsKept s h in
      rw (not-may_decide i (observe w s).0.pdr (observe w s).1 k.still_declared) k

  -- Once the link is declared lost no later tick asks the agent, spends budget, or adds to the
  -- trace, to the actions, to the recovery time or to the end reason.
  pub declared_is_final :
      (n i : ℕ) (s : State F S A X) → s.declared ≡ true → IsKept s (ticks w n i s)
  unfolding ticks
  declared_is_final zero i s h = ground arith
  declared_is_final (suc n) i s h =
      let k = tick-IsKept i s h in
      ground (arith, declared_is_final n (i + 1) (tick w i s) k.still_declared)
