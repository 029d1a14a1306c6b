-- ===== src/Controller/Allowed.antt =====
-- Whatever the agent asks for, the call that is performed is one that the mask lets through, and
-- nothing but that call is charged.
use tactical_radio_jamming_s.Base.{◌≡◌, refl, true, List, Option, none, some, Number, arith}
use tactical_radio_jamming_s.Api.{
  Cause, Call, Decision, Context, contains, no_op, declare_link_lost,
}
use tactical_radio_jamming_s.Controller.State.{World, State, Reason}
use tactical_radio_jamming_s.Controller.Mask.{available}
use tactical_radio_jamming_s.Controller.Permits.{contains-available}
use tactical_radio_jamming_s.Controller.Failsafe.{failsafe_triggered}
use tactical_radio_jamming_s.Controller.Choose.{screen, choose}
use tactical_radio_jamming_s.Controller.Apply.{apply, charge}
use tactical_radio_jamming_s.Controller.Run.{
  Seen, context, log_decision, note_declared, verify_recovery, decide,
}

module _ {F : Type 0} ⦃num : Number F⦄ where
  pub screen-contains :
      (d : Decision F) (t : F) (av : List Call) (tried : List (Cause × Call × F))
      → contains no_op av ≡ true
      → contains (screen d t av tried).call av ≡ true
  unfolding screen
  screen-contains d t av tried h = ground arith

module _ {F S A X : Type 0} ⦃num : Number F⦄ (w : World F S A X) where
  -- What the agent asks for.
  abbrev pub asked : Seen w → State F S A X → Decision F
  asked o s = (w.agent.decide o.features (context w o s) s.agent).0

  -- The decision that a tick comes to.
  abbrev pub chosen : Seen w → State F S A X → Decision F
  chosen o s = (choose w (failsafe_triggered w s o.t) o.features (context w o s) s).0

  choose-contains :
      (r : Option Reason) (o : Seen w) (s : State F S A X)
      → contains (choose w r o.features (context w o s) s).0.call (available w s o.t) ≡ true
  unfolding choose context
  choose-contains none o s =
      screen-contains (asked o s) o.t (available w s o.t) s.tried (contains-available w s o.t no_op)
  choose-contains (some r) o s = contains-available w s o.t declare_link_lost

  -- The call that a tick performs is in the mask that was computed for that tick.
  pub chosen-contains :
      (o : Seen w) (s : State F S A X) → contains (chosen o s).call (available w s o.t) ≡ true
  chosen-contains o s = choose-contains (failsafe_triggered w s o.t) o s

  choose-used :
      (r : Option Reason) (feats : List F) (ctx : Context F) (s : State F S A X)
      → (choose w r feats ctx s).1.used ≡ s.used
  unfolding choose
  choose-used none feats ctx s = refl
  choose-used (some r) feats ctx s = refl

  log_decision-used :
      (t : F) (d : Decision F) (s : State F S A X) → (log_decision w t d s).used ≡ s.used
  unfolding log_decision
  log_decision-used t d s = refl

  apply-used :
      (d : Decision F) (t : F) (s : State F S A X) → (apply w d t s).used ≡ charge d.call s.used
  unfolding apply
  apply-used d t s = refl

  note_declared-used :
      (t : F) (d : Decision F) (s : State F S A X) → (note_declared w t d s).used ≡ s.used
  unfolding note_declared
  note_declared-used t d s = ground arith

  verify_recovery-used : (t pdr : F) (s : State F S A X) → (verify_recovery w t pdr s).used ≡ s.used
  unfolding verify_recovery
  verify_recovery-used t pdr s = ground arith

  -- A decision charges its own call, and nothing else.
  pub decide-used :
      (o : Seen w) (s : State F S A X) → (decide w o s).used ≡ charge (chosen o s).call s.used
  unfolding decide
  decide-used o s =
      rw (verify_recovery-used, note_declared-used, apply-used, log_decision-used, choose-used)
