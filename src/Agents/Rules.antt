-- ===== src/Agents/Rules.antt =====
-- capstone/harness/policy.py, the rule language, and capstone/agent/rule_agent.py, which runs a rule
-- set. A rule's JSON is read as far as its clauses; `id` and `note` are left out.
pub mod Audit
mod Tests
use tactical_radio_jamming_s.Base.{
  ℕ, suc, ◌+◌, Bool, true, false, not, ◌&&◌, ◌||◌, String, Option, none, some, List, [], ◌∷◌, ◌++◌,
  map, all, any, find, keep, get_elem?, or_else, is_some, if◌then◌else◌, Number, lit, of_ℕ,
}
use tactical_radio_jamming_s.Api.{
  Cause, causes, cause_eq, Call, spectrum_scan, silent_listen, neighbor_probe, load_test, no_op,
  call_eq, contains, playbook, Decision, decision, Context,
}
use tactical_radio_jamming_s.Api.Beliefs.{uniform_belief, assign}
use text.Mathlib.Text.{◌==◌ as str_eq}

-- `OPS`
pub data Op : Type 0 where
  gt ge lt le eq ne : Op

-- `[feature, op, value]` as it comes: the operator and the number may be unreadable, and a clause may
-- have another length.
pub data Clause (F : Type 0) : Type 0 where
  triple : String → Option Op → Option F → Clause F
  malformed : Clause F

-- `then`
pub record Outcome : Type 0 where
  pub hypothesis : Option Cause
  pub call : Option Call

pub record Rule (F : Type 0) : Type 0 where
  pub clauses : List (Clause F)
  pub outcome : Outcome

-- A dictionary that may be a rule.
pub record RuleText (F : Type 0) : Type 0 where
  pub body : Option (List (Clause F))
  pub then_part : Option Outcome

-- `IDX.get(name)`
unfoldable pub index_of : String → List String → Option ℕ
index_of n [] = none
index_of n (m ∷ ms) =
    let later = index_of n ms in
    if str_eq n m then some 0 else elim later [ none ↦ none | some i ↦ some (suc i) ]

-- `validate_rule`, for one clause and for the `then` part
abbrev pub is_readable : {F : Type 0} → List String → Clause F → Bool
is_readable names malformed = false
is_readable names (triple n op v) = is_some (index_of n names) && is_some op && is_some v

abbrev pub says_something : Option Outcome → Bool
says_something none = false
says_something (some o) = is_some o.hypothesis || is_some o.call

module _ {F : Type 0} where
  abbrev pub has_clauses : List String → Option (List (Clause F)) → Bool
  has_clauses names none = false
  has_clauses names (some []) = false
  has_clauses names (some (c ∷ cs)) = all (is_readable names) (c ∷ cs)

  -- `validate_rule`
  unfoldable pub validate_rule : List String → RuleText F → Bool
  validate_rule names d = has_clauses names d.body && says_something d.then_part

  abbrev pub to_rule : RuleText F → Rule F
  to_rule d = record {
    clauses = or_else d.body [];
    outcome = or_else d.then_part (record { hypothesis = none; call = none });
  }

  -- `from_dicts`: the rules, and the indices of what was rejected
  unfoldable pub from_dicts : List String → ℕ → List (RuleText F) → List (Rule F) × List ℕ
  from_dicts names i [] = ([], [])
  from_dicts names i (d ∷ ds) =
      let rest = from_dicts names (i + 1) ds in
      if validate_rule names d then (to_rule d ∷ rest.0, rest.1) else (rest.0, i ∷ rest.1)

-- `LADDER`
abbrev pub ladder : List Call
ladder = spectrum_scan ∷ silent_listen ∷ neighbor_probe ∷ load_test ∷ []

-- `hit.get("call") or RECOVERY.get(hyp, "no_op")`; `RECOVERY` is the playbook
abbrev pub wanted : Cause → Option Call → Call
wanted hyp none = or_else (playbook hyp) no_op
wanted hyp (some c) = c

module _ {F : Type 0} ⦃num : Number F⦄ where
  open num use {lt as below, le as at_most, sub, div, neg}

  abbrev gap : F → F → F
  gap a b = let d = sub a b in if below d (lit 0 0) then neg d else d

  abbrev compare_by : Op → F → F → Bool
  compare_by gt a b = below b a
  compare_by ge a b = at_most b a
  compare_by lt a b = below a b
  compare_by le a b = at_most a b
  compare_by eq a b = below (gap a b) (lit 1 6)
  compare_by ne a b = at_most (lit 1 6) (gap a b)

  abbrev holds_at : Option F → Option Op → Option F → Bool
  holds_at (some x) (some op) (some v) = compare_by op x v
  holds_at _ _ _ = false

  -- `f[IDX[name]]`, if there is such a feature
  abbrev feature : List String → List F → String → Option F
  feature names f n = elim (index_of n names) [ none ↦ none | some i ↦ get_elem? f i ]

  unfoldable pub holds : List String → List F → Clause F → Bool
  holds names f malformed = false
  holds names f (triple n op v) = holds_at (feature names f n) op v

  -- `matches`
  unfoldable pub matches : List String → List F → Rule F → Bool
  matches names f r = all (holds names f) r.clauses

  -- `apply`
  unfoldable pub apply : List String → List (Rule F) → List F → List (Rule F)
  apply names rules f = keep (matches names f) rules

  -- `suggest`: the first rule that matches
  unfoldable pub suggest : List String → List (Rule F) → List F → Option (Rule F)
  suggest names rules f = find (matches names f) rules

  -- The claim of a rule.
  unfoldable pub claim : F → Cause → Option Call → Context F → Decision F
  claim confidence hyp c ctx =
      let rest = div (sub (of_ℕ 1) confidence) (of_ℕ 7) in
      decision (assign hyp confidence (map (λ e. (e, rest)) causes))
        (if contains (wanted hyp c) ctx.available then wanted hyp c else no_op) [] confidence

  -- No rule made a claim: the next test of the ladder, each once.
  unfoldable pub buy_evidence : List Call → Context F → Decision F × List Call
  buy_evidence done ctx =
      elim (find (λ c. contains c ctx.available && not (contains c done)) ladder) [
        | some c ↦ (decision uniform_belief c [] (lit 0 0), c ∷ done)
        | none ↦ (decision uniform_belief no_op [] (lit 0 0), done)
      ]

  abbrev pub hypothesis_of : Option (Rule F) → Option Cause
  hypothesis_of none = none
  hypothesis_of (some r) = elim r.outcome.hypothesis [
    | none ↦ none
    | some c ↦ if any (cause_eq c) causes then some c else none
  ]

  abbrev call_of : Option (Rule F) → Option Call
  call_of none = none
  call_of (some r) = r.outcome.call

  -- `RuleAgent.decide`; the state is the set of tests done
  unfoldable pub decide :
      List String → List (Rule F) → F → List F → Context F → List Call → Decision F × List Call
  decide names rules confidence f ctx done =
      let hit = suggest names rules f in
      elim (hypothesis_of hit) [
        | some hyp ↦ (claim confidence hyp (call_of hit) ctx, done)
        | none ↦ buy_evidence done ctx
      ]
