-- ===== src/Agents/Rules/Audit.antt =====
-- What is accepted as a rule, which rule decides, and what the agent that runs the rules can do.
use tactical_radio_jamming_s.Base.{
  ℕ, ◌+◌, ◌≡◌, refl, String, Bool, true, false, ◌||◌, ◌&&◌, List, [], ◌∷◌, all, length, Option,
  none, some, Number, arith, Option-cases, Bool-cases, inl, inr, is_some,
}
use tactical_radio_jamming_s.Api.{
  Cause, Call, no_op, contains, call_eq, Context, Decision, diagnose,
}
use tactical_radio_jamming_s.Agents.Rules.{
  RuleText, Rule, has_clauses, says_something, to_rule, validate_rule, from_dicts, suggest, apply,
  decide, claim, buy_evidence, hypothesis_of,
}

module _ {F : Type 0} where
  -- A rule that can be evaluated: it has clauses, all of them readable, and it says something.
  abbrev pub is_sound : List String → Rule F → Bool
  is_sound names r = has_clauses names (some r.clauses) && says_something (some r.outcome)

  to_rule_sound :
      (names : List String) (d : RuleText F)
      → validate_rule names d ≡ true
      → is_sound names (to_rule d) ≡ true
  unfolding validate_rule
  to_rule_sound names d h = ground arith

  -- What reading a list of dictionaries comes to.
  pub record IsRead (names : List String) (ds : List (RuleText F)) (r : List (Rule F) × List ℕ)
      : Type 0 where
    pub all_sound : all (is_sound names) r.0 ≡ true
    pub none_lost : length r.0 + length r.1 ≡ length ds

  -- Every dictionary becomes a rule or is listed as rejected, and every rule that is accepted has
  -- clauses, all of them readable, and names a hypothesis or a call.
  pub from_dicts-IsRead :
      (names : List String) (i : ℕ) (ds : List (RuleText F))
      → IsRead names ds (from_dicts names i ds)
  unfolding from_dicts
  from_dicts-IsRead names i [] = ground arith
  from_dicts-IsRead names i (d ∷ ds) =
      let rest = from_dicts-IsRead names (i + 1) ds in
      elim (Bool-cases (validate_rule names d)) [
        | inl good ↦ rw good (record {
          all_sound = rw (to_rule_sound names d good) (rest.all_sound);
          none_lost = omega (arith, rest.none_lost);
        })
        | inr bad ↦
            rw bad
              (record { all_sound = rest.all_sound; none_lost = omega (arith, rest.none_lost) })
      ]

module _ {F : Type 0} ⦃num : Number F⦄ where
  abbrev pub first : List (Rule F) → Option (Rule F)
  first [] = none
  first (r ∷ rs) = some r

  -- The rule that is suggested is the first of those that apply.
  pub suggest-apply :
      (names : List String) (rules : List (Rule F)) (f : List F)
      → suggest names rules f ≡ first (apply names rules f)
  unfolding suggest apply
  suggest-apply names [] f = refl
  suggest-apply names (r ∷ rules) f = ground (arith, suggest-apply names rules f)

  -- What the agent that runs the rules may decide, after the tests in `done`.
  pub record IsRuled (names : List String) (rules : List (Rule F)) (f : List F) (ctx : Context F)
      (done : List Call) (d : Decision F) : Type 0 where
    pub allowed : (call_eq d.call no_op || contains d.call ctx.available) ≡ true
    -- a call that is not a test needs a rule that matched and made a claim
    pub claimed :
        contains d.call diagnose ≡ false
        → call_eq d.call no_op ≡ false
        → is_some (hypothesis_of (suggest names rules f)) ≡ true

  claim-allowed :
      (p : F) (hyp : Cause) (c : Option Call) (ctx : Context F)
      → let d = claim p hyp c ctx in (call_eq d.call no_op || contains d.call ctx.available) ≡ true
  unfolding claim
  claim-allowed p hyp c ctx = ground arith

  buy_evidence-allowed :
      (done : List Call) (ctx : Context F)
      → let d = (buy_evidence done ctx).0 in
        ((call_eq d.call no_op || contains d.call ctx.available) ≡ true)
        × ((contains d.call diagnose || call_eq d.call no_op) ≡ true)
  unfolding buy_evidence
  buy_evidence-allowed done ctx = ground arith

  -- The call of the agent that runs the rules is `no_op` or one that the mask allows, and it is a test
  -- or `no_op` unless a rule matched whose hypothesis is one of the causes.
  pub decide-IsRuled :
      (names : List String) (rules : List (Rule F)) (p : F) (f : List F) (ctx : Context F)
      (done : List Call)
      → IsRuled names rules f ctx done (decide names rules p f ctx done).0
  unfolding decide
  decide-IsRuled names rules p f ctx done =
      elim (Option-cases (hypothesis_of (suggest names rules f))) [
        | inl silent ↦
            let b = buy_evidence-allowed done ctx in
            rw (silent, decide)
              (record { allowed = b.0; claimed = λ no_test no_idle. absurd (ground (arith, b.1)) })
        | inr (hyp, e) ↦
            rw (e, decide)
              (record {
                allowed = claim-allowed p hyp _ ctx;
                claimed = λ no_test no_idle. (rw e refl);
              })
      ]
