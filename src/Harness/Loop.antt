-- ===== src/Harness/Loop.antt =====
-- `HarnessAgent` of capstone/harness/loop.py, and `ToolRegistry.validate` of registry.py. The language
-- model with the parser of its replies is a parameter: an operation on a state of its own.
mod Tests
pub mod Gate
pub mod Episode
use Prim.Native.Nat.{max}
use tactical_radio_jamming_s.Base.{
  ℕ, ◌+◌, ◌==◌, ltb, leb, Bool, true, false, not, ◌&&◌, ◌||◌, String, Option, none, some, List, [],
  ◌∷◌, ◌++◌, map, all, any, keep, count, is_some, length, get_elem?, or_else, if◌then◌else◌, Number,
  lit, max_of,
}
use tactical_radio_jamming_s.Api.{
  Cause, causes, Call, no_op, call_eq, contains, Args, Decision, decision, Context,
}
use tactical_radio_jamming_s.Api.Beliefs.{uniform_belief, normalise, weight}
use text.Mathlib.Text.{◌==◌ as str_eq}

-- A tool of the catalogue, with the arguments that it takes.
pub record ToolSpec : Type 0 where
  pub name : Call
  pub cost : ℕ
  pub args : List String

-- What the model's reply came to: no reply, one that cannot be parsed, or a decision.
pub data Reply (F : Type 0) : Type 0 where
  failed : Reply F
  unparsed : Reply F
  -- The flag says that the parser had to repair it. The belief, and the arguments, are `none` if the
  -- reply has something else than an object there, and it is not empty.
  parsed : Bool → Option (List (Cause × F)) → Call → Option (Args F) → F → F → Reply F

-- What the agent is built with. `panel` are the indices of `PANEL`, a constant that is not empty.
pub record Settings (F P : Type 0) : Type 0 where
  pub complete : List F → Context F → P → Reply F × P
  pub tools : List ToolSpec
  pub panel : List ℕ
  pub novelty_gate : F
  pub quiet_pdr : F
  pub heartbeat_ticks : ℕ
  pub max_calls_per_episode : ℕ

pub record Harness (F P : Type 0) : Type 0 where
  pub provider : P
  pub step : ℕ
  pub asked : ℕ
  pub quiet_run : ℕ
  pub stable_run : ℕ
  pub last_panel : Option (List F)
  pub last_decision : Option (Decision F)
  pub last_available : List Call
  pub skipped_quiet : ℕ
  pub skipped_stable : ℕ
  pub parse_failures : ℕ
  pub repairs : ℕ
  pub provider_errors : ℕ

-- What the gate says: ask, or not for a reason.
pub data Verdict : Type 0 where
  ask quiet stable : Verdict

-- `tuple(sorted(a)) == tuple(sorted(b))`: every call as often in the one as in the other
unfoldable pub same_calls : List Call → List Call → Bool
same_calls a b = all (λ c. count (call_eq c) a == count (call_eq c) b) (a ++ b)

-- `self.tools.get(call)`
abbrev find_tool : Call → List ToolSpec → Option ToolSpec
find_tool c [] = none
find_tool c (t ∷ ts) = if call_eq c t.name then some t else find_tool c ts

-- `cost_of`
unfoldable pub cost_of : List ToolSpec → Call → ℕ
cost_of tools c = elim (find_tool c tools) [ none ↦ 0 | some t ↦ t.cost ]

module _ {F : Type 0} where
  -- the arguments that the tool takes
  abbrev clean : List String → Args F → Args F
  clean names = keep (λ e. any (str_eq e.0) names)

  -- the arguments that are left; those that are no object raise an AttributeError
  abbrev pub cleaned : ToolSpec → Call → Option (Args F) → Option (Call × Args F)
  cleaned t c none = none
  cleaned t c (some args) = some (c, clean t.args args)

  -- `validate`: an invalid call degrades to `no_op`
  unfoldable pub validate :
      List ToolSpec → Call → Option (Args F) → List Call → Option (Call × Args F)
  validate tools c args available = elim (find_tool c tools) [
    | none ↦ some (no_op, [])
    | some t ↦ if contains c available then cleaned t c args else some (no_op, [])
  ]

  module _ {P : Type 0} where
    -- `reset`: the counters of failures are kept
    unfoldable pub reset : Harness F P → Harness F P
    reset h = record h {
      step = 0;
      asked = 0;
      quiet_run = 0;
      stable_run = 0;
      last_panel = none;
      last_decision = none;
      last_available = [];
    }

module _ {F P : Type 0} ⦃num : Number F⦄ (cfg : Settings F P) where
  open num use {lt, le, sub, neg}
  open cfg use {novelty_gate, quiet_pdr, heartbeat_ticks, max_calls_per_episode}

  -- `f[i]` of the features, or 0.0
  abbrev at : List F → ℕ → F
  at f i = or_else (get_elem? f i) (lit 0 0)

  -- `_panel_of`
  unfoldable pub panel_of : List F → List F
  panel_of f = map (at f) cfg.panel

  abbrev distance : F → F → F
  distance a b = let d = sub a b in if lt d (lit 0 0) then neg d else d

  -- the largest distance over the places of both panels
  abbrev drift_from : F → List F → List F → F
  drift_from best (a ∷ more) (b ∷ others) = drift_from (max_of best (distance a b)) more others
  drift_from best _ _ = best

  unfoldable pub drift : List F → List F → F
  drift = drift_from (lit 0 0)

  -- delivery is healthy, the anomaly gate has not fired, and the transmit side is not bad either;
  -- `can_read` says that these features are there
  unfoldable pub looks_healthy : List F → Bool
  looks_healthy f =
      le quiet_pdr (at f 0)
      && not (lt (lit 0 0) (at f 7))
      && not (le (lit 3 1) (at f 54) || le (lit 3 1) (at f 51) || le (at f 49) (lit 5 1))

  -- Below the cap the gate reads features up to `F_SHADOW`: a shorter vector raises an IndexError.
  abbrev pub f_shadow : ℕ
  f_shadow = 54

  abbrev pub can_read : List F → Harness F P → Bool
  can_read f h = leb max_calls_per_episode h.asked || ltb f_shadow (length f)

  -- the same panel, up to the gate, and the same legal calls
  unfoldable pub is_unchanged : List F → Context F → Harness F P → Bool
  unfolding panel_of drift
  is_unchanged f ctx h = elim h.last_panel [
    | none ↦ false
    | some last ↦
        same_calls ctx.available h.last_available && lt (drift (panel_of f) last) novelty_gate
  ]

  -- `_should_ask`
  unfoldable pub should_ask : List F → Context F → Harness F P → Verdict × Harness F P
  should_ask f ctx h =
      if leb max_calls_per_episode h.asked
      then (stable, h)
      else if looks_healthy f && not (is_some h.last_decision)
      then (if ltb (h.quiet_run + 1) heartbeat_ticks
          then (quiet, record h { quiet_run = h.quiet_run + 1 })
          else (ask, record h { quiet_run = 0 }))
      else if is_unchanged f ctx h
      then (if ltb (h.stable_run + 1) heartbeat_ticks
          then (stable, record h { quiet_run = 0; stable_run = h.stable_run + 1 })
          else (ask, record h { quiet_run = 0; stable_run = 0 }))
      else (ask, record h { quiet_run = 0; stable_run = 0 })

  abbrev abstain : Decision F
  abstain = decision uniform_belief no_op [] (lit 0 0)

  -- `_remember`
  abbrev remember : Decision F → Harness F P → Decision F × Harness F P
  remember d h = (d, record h { last_decision = some d })

  abbrev note_panel : List F → Context F → Harness F P → Harness F P
  note_panel f ctx h = record h { last_panel = some (panel_of f); last_available = ctx.available }

  abbrev decided : List (Cause × F) → Option (Call × Args F) → F → F → Option (Decision F)
  decided b none confidence unrecoverable = none
  decided b (some (c, args)) confidence unrecoverable =
      some (record (decision (normalise (map (λ e. (e, weight e b)) causes)) c args confidence) {
        unrecoverable = unrecoverable;
      })

  -- The belief, with every cause, and the call that the registry lets through; `none` is an
  -- AttributeError.
  unfoldable pub from_reply :
      Option (List (Cause × F)) → Call → Option (Args F) → F → F → Context F → Option (Decision F)
  unfolding validate
  from_reply none c args confidence unrecoverable ctx = none
  from_reply (some b) c args confidence unrecoverable ctx =
      decided b (validate cfg.tools c args ctx.available) confidence unrecoverable

  abbrev remembered : Option (Decision F) → Harness F P → Option (Decision F × Harness F P)
  remembered none h = none
  remembered (some d) h = some (remember d h)

  -- what follows the model's reply
  unfoldable pub take_reply : Reply F → Context F → Harness F P → Option (Decision F × Harness F P)
  unfolding from_reply
  take_reply failed ctx h =
      some (remember abstain (record h { provider_errors = h.provider_errors + 1 }))
  take_reply unparsed ctx h =
      some (remember abstain (record h { parse_failures = h.parse_failures + 1 }))
  take_reply (parsed repaired b c args p u) ctx h =
      remembered (from_reply b c args p u ctx)
        (record h { repairs = if repaired then h.repairs + 1 else h.repairs })

  -- The belief is repeated, never the call. There is no decision to repeat only where Python raises
  -- an `AttributeError`: that is `none`.
  unfoldable pub hold : List F → Context F → Harness F P → Option (Decision F × Harness F P)
  unfolding panel_of
  hold f ctx h = elim h.last_decision [
    | none ↦ none
    | some d ↦ some (
      record d { call = no_op; args = []; declared = none; abstained = false },
      note_panel f ctx (record h { skipped_stable = h.skipped_stable + 1 }),
    )
  ]

  unfoldable pub put_question : List F → Context F → Harness F P → Option (Decision F × Harness F P)
  unfolding panel_of take_reply
  put_question f ctx h =
      let (reply, provider') = cfg.complete f ctx h.provider in
      take_reply reply ctx
        (record (note_panel f ctx h) { provider = provider'; asked = h.asked + 1 })

  abbrev pub answer : Verdict → List F → Context F → Harness F P → Option (Decision F × Harness F P)
  answer ask f ctx h = put_question f ctx h
  answer quiet f ctx h = some (abstain, record h { skipped_quiet = h.skipped_quiet + 1 })
  answer stable f ctx h = hold f ctx h

  -- `decide`; `none` is an exception
  unfoldable pub decide : List F → Context F → Harness F P → Option (Decision F × Harness F P)
  decide f ctx h =
      let (verdict, h') = should_ask f ctx (record h { step = h.step + 1 }) in
      if can_read f h then answer verdict f ctx h' else none
