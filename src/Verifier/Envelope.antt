-- ===== src/Verifier/Envelope.antt =====
-- The verifier over the logs that the controller writes.
use tactical_radio_jamming_s.Base.{
  ℕ, zero, suc, ◌+◌, ◌≡◌, ◌≢◌, refl, Bool, false, ◌&&◌, Option, none, some, List, [], ◌∷◌, any,
  any-append, Number, arith, Bool-cases, inl, inr, String,
}
use tactical_radio_jamming_s.Base.Int.{ℤ, sub_ℕ}
use tactical_radio_jamming_s.Api.{
  Cause, fading, Call, Decision, Context, cause_eq, call_eq, contains, hop_channel,
  channel_hop_probe, spectrum_scan, other,
}
use tactical_radio_jamming_s.Api.Beliefs.{top}
use tactical_radio_jamming_s.Controller.State.{World, State, EpisodeLog, ActionRow, Reason, reset}
use tactical_radio_jamming_s.Controller.Choose.{choose, screen, is_repeat}
use tactical_radio_jamming_s.Controller.Apply.{apply, perform}
use tactical_radio_jamming_s.Controller.Failsafe.{failsafe_triggered}
use tactical_radio_jamming_s.Controller.Run.{
  Seen, context, observe, may_decide, log_call, log_decision, note_declared, verify_recovery,
  decide, tick, ticks, finish, trace_row,
}
use tactical_radio_jamming_s.Controller.Budget.{reset-ticks-WithinBudget}
use tactical_radio_jamming_s.Verifier.Score.{
  Truth, CostConfig, claim, hopped, refusal, score_episode,
}

module _ {F : Type 0} where
  abbrev is_fn : Call → ActionRow F → Bool
  is_fn c a = call_eq a.fn c

  abbrev NoProbe : EpisodeLog F → Type 0
  NoProbe log = any (is_fn channel_hop_probe) log.actions ≡ false

  hopped-NoProbe :
      (acts : List (ActionRow F))
      → any (is_fn channel_hop_probe) acts ≡ false
      → hopped acts ≡ any (is_fn hop_channel) acts
  unfolding hopped
  hopped-NoProbe [] h = refl
  hopped-NoProbe (a ∷ acts) h = ground (arith, hopped-NoProbe acts)

module _ {F : Type 0} ⦃num : Number F⦄ where
  log_call-NoProbe :
      (t : F) (c : Call) (left : ℤ) (log : EpisodeLog F)
      → NoProbe log
      → NoProbe (log_call t c left log)
  unfolding log_call
  log_call-NoProbe t spectrum_scan left log h = grind (arith, any-append)
  log_call-NoProbe t (other x) left log h = grind (arith, any-append)
  log_call-NoProbe t c left log h = grind (arith, any-append)

  -- A decision that the screen rewrites, because it repeats a failed recovery or because the mask
  -- refuses its call, is recorded as a claim of the most probable cause, whatever cause the agent
  -- had declared and even if it had abstained.
  pub rewritten_claims_top :
      {S A X : Type 0} (w : World F S A X) (d : Decision F) (t : F) (av : List Call)
      (tried : List (Cause × Call × F))
      → (screen d t av tried).call ≢ d.call
      → claim (trace_row w t (screen d t av tried)) ≡ some (top d.belief)
  unfolding screen claim
  rewritten_claims_top w d t av tried h = elim (Bool-cases (is_repeat d t tried)) [
    | inl again ↦ rw again (ground arith)
    | inr fresh ↦ elim (Bool-cases (contains d.call av)) [
      | inl allowed ↦ absurd (h (rw (fresh, allowed)))
      | inr masked ↦ rw (fresh, masked)
    ]
  ]

module _ {F S A X : Type 0} ⦃num : Number F⦄ (w : World F S A X) where
  log_decision-NoProbe :
      (t : F) (d : Decision F) (s : State F S A X)
      → NoProbe s.log
      → NoProbe (log_decision w t d s).log
  unfolding log_decision
  log_decision-NoProbe t d s h =
      log_call-NoProbe (num.round t 2) d.call (sub_ℕ w.contract.max_costly_actions s.used.costly) _
        h

  perform-NoProbe :
      (c : Call) (d : Decision F) (t : F) (s : State F S A X)
      → NoProbe s.log
      → NoProbe (perform w c d t s).log
  unfolding perform
  perform-NoProbe spectrum_scan d t s h = h
  perform-NoProbe (other x) d t s h = h
  perform-NoProbe c d t s h = h

  apply-NoProbe :
      (d : Decision F) (t : F) (s : State F S A X) → NoProbe s.log → NoProbe (apply w d t s).log
  unfolding apply
  apply-NoProbe d t s h = perform-NoProbe d.call d t s h

  note_declared-NoProbe :
      (t : F) (d : Decision F) (s : State F S A X)
      → NoProbe s.log
      → NoProbe (note_declared w t d s).log
  unfolding note_declared
  note_declared-NoProbe t d s h = ground arith

  verify_recovery-NoProbe :
      (t pdr : F) (s : State F S A X) → NoProbe s.log → NoProbe (verify_recovery w t pdr s).log
  unfolding verify_recovery
  verify_recovery-NoProbe t pdr s h = ground arith

  choose-NoProbe :
      (r : Option Reason) (feats : List F) (ctx : Context F) (s : State F S A X)
      → NoProbe s.log
      → NoProbe (choose w r feats ctx s).1.log
  unfolding choose
  choose-NoProbe none feats ctx s h = h
  choose-NoProbe (some r) feats ctx s h = h

  decide-NoProbe : (o : Seen w) (s : State F S A X) → NoProbe s.log → NoProbe (decide w o s).log
  unfolding decide
  decide-NoProbe o s h = verify_recovery-NoProbe o.t o.pdr _ (
      note_declared-NoProbe o.t _ _ (
        apply-NoProbe _ o.t _ (
          log_decision-NoProbe o.t _ _
            (choose-NoProbe (failsafe_triggered w s o.t) o.features (context w o s) s h))))

  observe-NoProbe : (s : State F S A X) → NoProbe s.log → NoProbe (observe w s).1.log
  unfolding observe
  observe-NoProbe s h = ground arith

  tick-NoProbe : (i : ℕ) (s : State F S A X) → NoProbe s.log → NoProbe (tick w i s).log
  unfolding tick
  tick-NoProbe i s h =
      let (o, s') = observe w s in
      let h' = observe-NoProbe s h in
      elim (Bool-cases (may_decide w i o.pdr s')) [
        | inl due ↦ rw due (decide-NoProbe o s' h')
        | inr idle ↦ rw idle h'
      ]

  ticks-NoProbe : (n i : ℕ) (s : State F S A X) → NoProbe s.log → NoProbe (ticks w n i s).log
  unfolding ticks
  ticks-NoProbe zero i s h = h
  ticks-NoProbe (suc n) i s h = ticks-NoProbe n (i + 1) (tick w i s) (tick-NoProbe i s h)

  -- The log of an episode of `n` ticks from a reset.
  abbrev pub episode : ℕ → S → A → X → EpisodeLog F
  episode n sim agent ex = finish w (ticks w n 0 (reset w sim agent ex))

  -- Over the controller's logs the acted-on false positive sees the call `hop_channel` alone: hops
  -- made by `channel_hop_probe` are logged as tests, where the verifier does not look.
  pub probe_hops_unseen :
      (n : ℕ) (sim : S) (agent : A) (ex : X) (truth : Truth F) (cfg : CostConfig F)
      (family : String)
      → let log = episode n sim agent ex in
        (score_episode w.contract log truth cfg family).false_positive_acted
        ≡ (cause_eq truth.cause fading && any (is_fn hop_channel) log.actions)
  unfolding score_episode finish reset
  probe_hops_unseen n sim agent ex truth cfg family =
      rw (hopped-NoProbe _ (ticks-NoProbe n 0 (reset w sim agent ex) refl))

  -- Over the controller's logs the refusal of an unrecoverable episode is good exactly if the link
  -- was declared lost within the deadline: the cap on hops is always kept.
  pub refusal_is_deadline :
      (n : ℕ) (sim : S) (agent : A) (ex : X) (truth : Truth F)
      → truth.recoverable ≡ false
      → let log = episode n sim agent ex in
        refusal w.contract truth log
        ≡ some (elim log.declared_lost_t [
          | none ↦ false
          | some lost ↦ num.le (num.sub lost truth.onset_t) w.contract.declare_lost_deadline_s
        ])
  unfolding refusal finish
  refusal_is_deadline n sim agent ex truth h =
      let b = (reset-ticks-WithinBudget w n sim agent ex).hops_le in ground arith
