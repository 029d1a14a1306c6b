-- ===== src/Controller/Accounts.antt =====
-- The counters of `self.used` against the rows of the episode's log.
use tactical_radio_jamming_s.Base.{
  ℕ, zero, suc, ◌+◌, ◌*◌, ◌≡◌, refl, List, [], ◌∷◌, ◌++◌, count, count-append, Number, arith,
  Bool-cases, Option, none, some, inl, inr,
}
use tactical_radio_jamming_s.Base.Int.{ℤ, sub_ℕ}
use tactical_radio_jamming_s.Api.{
  Call, Context, Decision, spectrum_scan, silent_listen, channel_hop_probe, mobility_test,
  hop_channel, fallback_to_lora, move, other, call_eq,
}
use tactical_radio_jamming_s.Controller.State.{
  World, State, Used, Reason, EpisodeLog, TestRow, ActionRow, reset,
}
use tactical_radio_jamming_s.Controller.Choose.{choose}
use tactical_radio_jamming_s.Controller.Apply.{apply, charge, perform}
use tactical_radio_jamming_s.Controller.Failsafe.{failsafe_triggered}
use tactical_radio_jamming_s.Controller.Run.{
  Seen, context, observe, may_decide, log_call, log_decision, note_declared, verify_recovery,
  decide, tick, ticks,
}

module _ {F : Type 0} where
  abbrev pub tests_of : Call → List (TestRow F) → ℕ
  tests_of c = count (λ r. call_eq c r.test)

  abbrev pub actions_of : Call → List (ActionRow F) → ℕ
  actions_of c = count (λ r. call_eq c r.fn)

  -- Every unit of the budget that was spent has its row in the log, and the other way round.
  pub record Accounts (u : Used) (log : EpisodeLog F) : Type 0 where
    pub hops_logged :
        u.hops ≡ actions_of hop_channel log.actions + tests_of channel_hop_probe log.tests_run
    pub scans_logged : u.scans ≡ tests_of spectrum_scan log.tests_run
    pub silent_logged : u.silent ≡ tests_of silent_listen log.tests_run
    pub moves_logged : u.moves ≡ actions_of move log.actions + tests_of mobility_test log.tests_run
    pub lora_logged : u.lora ≡ actions_of fallback_to_lora log.actions
    pub costly_logged : u.costly ≡ u.hops + 2 * u.moves + u.lora

module _ {F : Type 0} ⦃num : Number F⦄ (t : F) (left : ℤ) (u : Used) (log : EpisodeLog F) where
  -- the counts after one more row
  abbrev MoreTests : Call → Call → Type 0
  MoreTests c d =
      tests_of c (log.tests_run ++ (record { t = t; test = d } ∷ []))
      ≡ tests_of c log.tests_run + tests_of {F = F} c (record { t = t; test = d } ∷ [])

  abbrev MoreActions : Call → Call → Type 0
  MoreActions c d =
      actions_of c (log.actions ++ (record { t = t; fn = d; budget_after = left } ∷ []))
      ≡ actions_of c log.actions
        + actions_of {F = F} c (record { t = t; fn = d; budget_after = left } ∷ [])

  add_test : (c d : Call) → MoreTests c d
  add_test c d = count-append _ log.tests_run _

  add_action : (c d : Call) → MoreActions c d
  add_action c d = count-append _ log.actions _

  log_call-Accounts : (c : Call) → Accounts u log → Accounts (charge c u) (log_call t c left log)
  unfolding log_call
  log_call-Accounts spectrum_scan a = grind (arith, add_test, add_action)
  log_call-Accounts (other x) a = grind (arith, add_test, add_action)
  log_call-Accounts c a = grind (arith, add_test, add_action)

module _ {F S A X : Type 0} ⦃num : Number F⦄ (w : World F S A X) where
  abbrev pub IsAccounted : State F S A X → Type 0
  IsAccounted s = Accounts s.used s.log

  choose-IsAccounted :
      (r : Option Reason) (feats : List F) (ctx : Context F) (s : State F S A X)
      → IsAccounted s
      → IsAccounted (choose w r feats ctx s).1
  unfolding choose
  choose-IsAccounted none feats ctx s a = ground arith
  choose-IsAccounted (some r) feats ctx s a = ground arith

  perform-log :
      (c : Call) (d : Decision F) (t : F) (s : State F S A X) → (perform w c d t s).log ≡ s.log
  unfolding perform
  perform-log spectrum_scan d t s = refl
  perform-log (other x) d t s = refl
  perform-log c d t s = refl

  apply-IsAccounted :
      (t : F) (d : Decision F) (s : State F S A X)
      → IsAccounted s
      → IsAccounted (apply w d t (log_decision w t d s))
  unfolding apply log_decision
  apply-IsAccounted t d s a = rw perform-log (
      log_call-Accounts (num.round t 2) (sub_ℕ w.contract.max_costly_actions s.used.costly) s.used _
        d.call (ground arith))

  note_declared-IsAccounted :
      (t : F) (d : Decision F) (s : State F S A X)
      → IsAccounted s
      → IsAccounted (note_declared w t d s)
  unfolding note_declared
  note_declared-IsAccounted t d s a = ground arith

  verify_recovery-IsAccounted :
      (t pdr : F) (s : State F S A X) → IsAccounted s → IsAccounted (verify_recovery w t pdr s)
  unfolding verify_recovery
  verify_recovery-IsAccounted t pdr s a = ground arith

  pub decide-IsAccounted :
      (o : Seen w) (s : State F S A X) → IsAccounted s → IsAccounted (decide w o s)
  unfolding decide
  decide-IsAccounted o s a = verify_recovery-IsAccounted o.t o.pdr _ (
      note_declared-IsAccounted o.t _ _ (
        apply-IsAccounted o.t _ _
          (choose-IsAccounted (failsafe_triggered w s o.t) o.features (context w o s) s a)))

  observe-IsAccounted : (s : State F S A X) → IsAccounted s → IsAccounted (observe w s).1
  unfolding observe
  observe-IsAccounted s a = ground arith

  tick-IsAccounted : (i : ℕ) (s : State F S A X) → IsAccounted s → IsAccounted (tick w i s)
  unfolding tick
  tick-IsAccounted i s a =
      let (o, s') = observe w s in
      let a' = observe-IsAccounted s a in
      elim (Bool-cases (may_decide w i o.pdr s')) [
        | inl due ↦ rw due (decide-IsAccounted o s' a')
        | inr idle ↦ rw idle a'
      ]

  ticks-IsAccounted : (n i : ℕ) (s : State F S A X) → IsAccounted s → IsAccounted (ticks w n i s)
  unfolding ticks
  ticks-IsAccounted zero i s a = a
  ticks-IsAccounted (suc n) i s a =
      ticks-IsAccounted n (i + 1) (tick w i s) (tick-IsAccounted i s a)

  -- After any number of ticks from a reset, every counter of the budget equals the number of rows of
  -- the log for the calls that it counts, and the costly actions are the hops, twice the moves and
  -- the fallbacks together.
  pub reset-ticks-IsAccounted :
      (n : ℕ) (sim : S) (agent : A) (ex : X) → IsAccounted (ticks w n 0 (reset w sim agent ex))
  unfolding reset
  reset-ticks-IsAccounted n sim agent ex =
      ticks-IsAccounted n 0 (reset w sim agent ex) (ground arith)
