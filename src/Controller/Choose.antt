-- ===== src/Controller/Choose.antt =====
-- The decision of one tick in `Controller.run`: the failsafe, or the agent's decision behind the
-- repeat suppressor and the hard mask.
use tactical_radio_jamming_s.Base.{
  Bool, false, not, ◌&&◌, ◌||◌, Option, none, some, List, [], ◌∷◌, Number, lit, of_ℕ, last?,
  if◌then◌else◌,
}
use tactical_radio_jamming_s.Api.{
  Cause, Call, Decision, Context, cause_eq, call_eq, contains, diagnose, no_op, declare_link_lost,
}
use tactical_radio_jamming_s.Api.Beliefs.{top, uniform_belief}
use tactical_radio_jamming_s.Controller.State.{World, State, Reason, EndReason, TraceRow}

-- Equality of the keys of `self.tried`.
unfoldable pub same_key : Cause → Call → Cause → Call → Bool
same_key h c h' c' = cause_eq h h' && call_eq c c'

-- The calls that are neither inert nor tests: trying one again is what is suppressed.
unfoldable pub is_recovery : Call → Bool
is_recovery c = not (call_eq c no_op || call_eq c declare_link_lost) && not (contains c diagnose)

module _ {F : Type 0} ⦃num : Number F⦄ where
  open num use {lt, sub}

  -- `self.tried.get((hypothesis, call))`
  unfoldable pub tried_at : Cause → Call → List (Cause × Call × F) → Option F
  tried_at h c [] = none
  tried_at h c ((h', c', t) ∷ m) = if same_key h c h' c' then some t else tried_at h c m

  -- `self.tried[(hypothesis, call)] = t`
  unfoldable pub mark_tried : Cause → Call → F → List (Cause × Call × F) → List (Cause × Call × F)
  mark_tried h c t [] = (h, c, t) ∷ []
  mark_tried h c t ((h', c', t') ∷ m) =
      if same_key h c h' c' then (h', c', t) ∷ m else (h', c', t') ∷ mark_tried h c t m

  -- Tried for the same hypothesis less than 900 s ago.
  abbrev pub is_recent : F → Option F → Bool
  is_recent t none = false
  is_recent t (some t₀) = lt (sub t t₀) (lit 900 0)

  unfoldable pub is_repeat : Decision F → F → List (Cause × Call × F) → Bool
  unfolding tried_at is_recovery
  is_repeat d t tried = is_recovery d.call && is_recent t (tried_at (top d.belief) d.call tried)

  -- The decision rewritten to `no_op`; the other fields take their defaults.
  abbrev pub idle : Decision F → Decision F
  idle d = record d { call = no_op; args = []; declared = none; abstained = false }

  unfoldable pub remember_try : Decision F → F → List (Cause × Call × F) → List (Cause × Call × F)
  unfolding mark_tried
  remember_try d t tried =
      if is_repeat d t tried || call_eq d.call no_op
      then tried
      else mark_tried (top d.belief) d.call t tried

  -- the repeat suppressor, and then the hard mask
  unfoldable pub screen : Decision F → F → List Call → List (Cause × Call × F) → Decision F
  screen d t av tried =
      let d' = if is_repeat d t tried then idle d else d in
      if contains d'.call av then d' else idle d'

  -- The forced decision keeps whatever the agent last believed.
  abbrev pub last_belief : List (TraceRow F) → List (Cause × F)
  last_belief trace = elim (last? trace) [ none ↦ uniform_belief | some row ↦ row.belief ]

  abbrev pub forced : List (TraceRow F) → Decision F
  forced trace = record {
    belief = last_belief trace;
    call = declare_link_lost;
    args = [];
    confidence = of_ℕ 0;
    unrecoverable = of_ℕ 1;
    declared = none;
    abstained = false;
  }

  module _ {S A X : Type 0} (w : World F S A X) where
    -- The decision, and the state with the agent, the tries and the end reason after it.
    unfoldable pub choose :
        Option Reason → List F → Context F → State F S A X → Decision F × State F S A X
    unfolding screen remember_try
    choose (some why) feats ctx s = (
      forced s.log.classification_trace,
      record s { log = record (s.log) { end_reason = EndReason.failsafe why } },
    )
    choose none feats ctx s =
        let (d, agent') = w.agent.decide feats ctx s.agent in
        (
          screen d ctx.t ctx.available s.tried,
          record s { agent = agent'; tried = remember_try d ctx.t s.tried },
        )
