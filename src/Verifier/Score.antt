-- ===== src/Verifier/Score.antt =====
-- `score_episode` and `_cost` of verify/verifier.py, over the log that the controller writes.
use tactical_radio_jamming_s.Base.{
  ℕ, suc, leb, Bool, true, false, not, ◌&&◌, ◌||◌, Option, none, some, List, [], ◌∷◌, String, any,
  keep, count, last?, get_elem?, is_some, or_else, if◌then◌else◌, Number, lit, max_of,
}
use mathlib.Core.List.{reverse}
use tactical_radio_jamming_s.Api.{
  Cause, fading, unknown, barrage, spot, reactive, sweep, cause_eq, call_eq, hop_channel,
  channel_hop_probe,
}
use tactical_radio_jamming_s.Controller.State.{
  Contract, EpisodeLog, TraceRow, ActionRow, TestRow, EndReason,
}

-- The ground truth of an episode (`Truth` of scenario/schema.py).
pub record Truth (F : Type 0) : Type 0 where
  pub cause : Cause
  pub onset_t : F
  pub recoverable : Bool

-- contract/cost_matrix.yaml
pub record CostConfig (F : Type 0) : Type 0 where
  pub order : List Cause
  pub matrix : List (Cause × List F)
  pub abstain_cost : F

pub record EpisodeScore (F : Type 0) : Type 0 where
  pub family : String
  pub true_cause : Cause
  pub declared_cause : Option Cause
  pub classification_ok : Bool
  pub detection_latency_s : Option F
  pub censored : Bool
  pub false_positive : Bool
  pub false_positive_acted : Bool
  pub recovery_time_s : Option F
  pub packets_lost : F
  pub actions_consumed : ℕ
  pub hops_consumed : ℕ
  pub tests_before_correct : Option ℕ
  pub survived : Bool
  pub refusal_required : Bool
  pub refusal_ok : Option Bool
  pub expected_cost : F
  pub notes : EndReason

-- `JAMMING`
abbrev pub is_jamming : Cause → Bool
is_jamming barrage = true
is_jamming spot = true
is_jamming reactive = true
is_jamming sweep = true
is_jamming _ = false

abbrev pub same_claim : Option Cause → Option Cause → Bool
same_claim none none = true
same_claim (some a) (some b) = cause_eq a b
same_claim _ _ = false

-- `order.index(c)`
abbrev pub index_of : Cause → List Cause → Option ℕ
index_of c [] = none
index_of c (d ∷ ds) =
    let later = index_of c ds in
    if cause_eq c d then some 0 else elim later [ none ↦ none | some i ↦ some (suc i) ]

abbrev pub row_of {ℓ} : {V : Type ℓ} → Cause → List (Cause × V) → Option V
row_of c [] = none
row_of c ((d, v) ∷ m) = let later = row_of c m in if cause_eq c d then some v else later

module _ {F : Type 0} where
  -- What the agent claimed on a row; an abstention claims nothing.
  unfoldable pub claim : TraceRow F → Option Cause
  claim row = if row.abstained then none else some (or_else row.declared row.top)

  -- each row with the one that follows it
  unfoldable pub with_next : List (TraceRow F) → List (TraceRow F × Option (TraceRow F))
  with_next [] = []
  with_next (r ∷ []) = (r, none) ∷ []
  with_next (r ∷ r' ∷ rs) = (r, some r') ∷ with_next (r' ∷ rs)

  unfoldable pub hopped : List (ActionRow F) → Bool
  hopped = any λ a. call_eq a.fn hop_channel || call_eq a.fn channel_hop_probe

module _ {F : Type 0} ⦃num : Number F⦄ where
  open num use {lt, le, add, sub}

  -- A row or a column that the matrix lacks costs as much as an abstention.
  unfoldable pub cost : CostConfig F → Cause → Option Cause → F
  cost cfg true_c none = cfg.abstain_cost
  cost cfg true_c (some decl) =
      if cause_eq decl unknown then cfg.abstain_cost else elim (row_of true_c cfg.matrix) [
        | none ↦ cfg.abstain_cost
        | some row ↦ elim (index_of decl cfg.order) [
          | none ↦ cfg.abstain_cost
          | some i ↦ or_else (get_elem? row i) cfg.abstain_cost
        ]
      ]

  -- an action at most two seconds after the row
  unfoldable pub acted_upon : List (ActionRow F) → TraceRow F → Bool
  acted_upon acts row = any (λ a. le row.t a.t && le a.t (add row.t (lit 2 0))) acts

  -- did the agent still claim the same at the next tick, if there was one
  abbrev pub holds_on : TraceRow F → Option (TraceRow F) → Bool
  holds_on row none = true
  holds_on row (some next) = same_claim (claim next) (claim row)

  -- the last action, if it did not come after the recovery
  unfoldable pub is_causal : Option F → List (ActionRow F) → Bool
  is_causal none acts = false
  is_causal (some rec_t) acts = elim (last? acts) [ none ↦ false | some a ↦ le a.t rec_t ]

  abbrev pub last_claim : List (TraceRow F × Option (TraceRow F)) → Option Cause
  last_claim conf = elim (last? conf) [ none ↦ none | some (row, _) ↦ claim row ]

  -- the seconds from `onset` on, at least 0.0
  abbrev pub since : F → Option F → Option F
  since onset none = none
  since onset (some t) = some (max_of (lit 0 0) (sub t onset))

  unfoldable pub tests_until : List (TestRow F) → Option F → Option ℕ
  tests_until tests none = none
  tests_until tests (some t) = some (count (λ x. le x.t t) tests)

  module _ (k : Contract F) where
    -- a confident claim of the cause
    unfoldable pub is_claim_of : Cause → TraceRow F → Bool
    unfolding claim
    is_claim_of c row = same_claim (claim row) (some c) && le k.act_confidence row.p

    abbrev pub sustained_by : Cause → List (TraceRow F) → Bool
    sustained_by c [] = false
    sustained_by c (r ∷ rs) = is_claim_of c r

    -- The row counts as a detection; `rest` are the rows after it.
    unfoldable pub detects : Cause → List (ActionRow F) → TraceRow F → List (TraceRow F) → Bool
    detects c acts row rest = is_claim_of c row && (sustained_by c rest || acted_upon acts row)

    -- the loop for `first_t`
    unfoldable pub first_correct : Cause → List (ActionRow F) → List (TraceRow F) → Option F
    first_correct c acts [] = none
    first_correct c acts (row ∷ rest) =
        let later = first_correct c acts rest in
        if detects c acts row rest then some row.t else later

    -- eligible to be the claim that an action embodies
    unfoldable pub is_confident : TraceRow F → Bool
    is_confident row = le k.act_confidence row.p && not row.abstained

    unfoldable pub confident : List (TraceRow F) → List (TraceRow F × Option (TraceRow F))
    unfolding is_confident with_next
    confident trace = keep (λ e. is_confident e.0) (with_next trace)

    -- The loop over the actions, the last first. The flag says whether the head is the action that
    -- recovery is credited to.
    unfoldable pub anchored :
        List (TraceRow F × Option (TraceRow F)) → Bool → List (ActionRow F) → Option Cause
    anchored conf causal [] = none
    anchored conf causal (a ∷ acts) =
        let later = anchored conf false acts in
        elim (last? (keep (λ e. le (e.0).t a.t) conf)) [
          | none ↦ later
          | some (row, next) ↦ if holds_on row next || causal then claim row else later
        ]

    -- `final`, the declared cause
    unfoldable pub declared_cause : EpisodeLog F → Option Cause
    unfolding confident anchored is_causal claim
    declared_cause log =
        let conf = confident log.classification_trace in
        elim (anchored conf (is_causal log.recovery_t log.actions) (reverse log.actions)) [
          | none ↦ last_claim conf
          | some c ↦ some c
        ]

    unfoldable pub believed_jamming : List (TraceRow F) → Bool
    unfolding claim
    believed_jamming =
        any λ r. elim (claim r) [ none ↦ false | some c ↦ is_jamming c ] && le k.act_confidence r.p

    unfoldable pub refusal : Truth F → EpisodeLog F → Option Bool
    refusal truth log = if truth.recoverable then none else elim log.declared_lost_t [
      | none ↦ some false
      | some lost ↦ some (
          le (sub lost truth.onset_t) k.declare_lost_deadline_s
          && leb log.hops_consumed k.max_channel_hops)
    ]

    unfoldable pub score_episode : EpisodeLog F → Truth F → CostConfig F → String → EpisodeScore F
    unfolding first_correct declared_cause believed_jamming hopped tests_until refusal cost
    score_episode log truth cfg family =
        let first_t = first_correct truth.cause log.actions log.classification_trace in
        let final = declared_cause log in
        record {
          family = family;
          true_cause = truth.cause;
          declared_cause = final;
          classification_ok = same_claim final (some truth.cause);
          detection_latency_s = since truth.onset_t first_t;
          censored = not (is_some first_t);
          false_positive = cause_eq truth.cause fading && believed_jamming log.classification_trace;
          false_positive_acted = cause_eq truth.cause fading && hopped log.actions;
          recovery_time_s = since truth.onset_t log.recovery_t;
          packets_lost = log.packets_lost;
          actions_consumed = log.actions_consumed;
          hops_consumed = log.hops_consumed;
          tests_before_correct = tests_until log.tests_run first_t;
          survived =
              is_some log.recovery_t || (is_some log.declared_lost_t && not truth.recoverable);
          refusal_required = not truth.recoverable;
          refusal_ok = refusal truth log;
          expected_cost = cost cfg truth.cause final;
          notes = log.end_reason;
        }
