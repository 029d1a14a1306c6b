-- ===== src/Agents/Hybrid.antt =====
-- `HybridAgent` of capstone/agent/hybrid.py: induced rules and the distilled network. The network is
-- any agent; the arguments of a call and the precision of a rule are parameters too.
mod Tests
use tactical_radio_jamming_s.Base.{
  ℕ, ◌+◌, ◌≡◌, refl, ◌||◌, Bool, true, false, not, Option, none, some, List, map, or_else, Number,
  lit, max_of, if◌then◌else◌, arith, Bool-cases, Option-cases, inl, inr, String,
}
use tactical_radio_jamming_s.Api.{
  Cause, Call, no_op, call_eq, call_eq_refl, cause_eq, contains, playbook, Args, Decision, decision,
  Context,
}
use tactical_radio_jamming_s.Api.Beliefs.{normalise, assign, weight}
use tactical_radio_jamming_s.Controller.State.{Agent}
use tactical_radio_jamming_s.Agents.Rules.{Rule, suggest, hypothesis_of}

pub record Parts (F N : Type 0) : Type 0 where
  pub net : Agent F N
  pub args : Call → Context F → Args F
  pub names : List String
  pub rules : List (Rule F)
  pub precision : Option (Rule F) → F
  pub lead_precision : F

pub record Hybrid (N : Type 0) : Type 0 where
  pub state : N
  pub rule_led : ℕ
  pub net_led : ℕ
  pub disagreements : ℕ

module _ {F N : Type 0} ⦃num : Number F⦄ (k : Parts F N) where
  open num use {le, add, mul}

  -- a quarter of the network's belief, and the rest on the rule's hypothesis
  abbrev moved : Cause → List (Cause × F) → List (Cause × F)
  moved hyp b =
      let quarter = map (λ e. (e.0, mul e.1 (lit 25 2))) b in
      normalise (assign hyp (add (weight hyp quarter) (lit 75 2)) quarter)

  abbrev playable : Cause → Context F → Call
  playable hyp ctx =
      let c = or_else (playbook hyp) no_op in if contains c ctx.available then c else no_op

  -- The rule leads.
  unfoldable pub rule_leads : Cause → Decision F → Context F → Decision F
  rule_leads hyp d ctx =
      let c = playable hyp ctx in
      record (decision (moved hyp d.belief) c (k.args c ctx) (max_of d.confidence (lit 9 1))) {
        declared = some hyp;
      }

  -- The network leads; a rule speaks for it only where it declares nothing.
  unfoldable pub net_leads : Cause → Decision F → Decision F
  net_leads hyp d = elim d.declared [
    | some c ↦ d
    | none ↦ record (decision d.belief d.call d.args d.confidence) { declared = some hyp }
  ]

  abbrev disagrees : Cause → Option Cause → ℕ
  disagrees hyp none = 1
  disagrees hyp (some c) = if cause_eq c hyp then 0 else 1

  -- `decide` behind the network's decision and the rules' hypothesis
  unfoldable pub arbitrate :
      Option Cause → F → Decision F → Context F → Hybrid N → Decision F × Hybrid N
  arbitrate none p d ctx h = (d, record h { net_led = h.net_led + 1 })
  arbitrate (some hyp) p d ctx h =
      let h' : Hybrid N = record h { disagreements = h.disagreements + disagrees hyp d.declared } in
      if le k.lead_precision p
      then (rule_leads hyp d ctx, record h' { rule_led = h.rule_led + 1 })
      else (net_leads hyp d, record h' { net_led = h.net_led + 1 })

  -- `decide`
  unfoldable pub decide : List F → Context F → Hybrid N → Decision F × Hybrid N
  decide f ctx h =
      let (d, n) = k.net.decide f ctx h.state in
      let hit = suggest k.names k.rules f in
      arbitrate (hypothesis_of hit) (k.precision hit) d ctx (record h { state = n })

  -- What a tick of the hybrid comes to, given the network's decision `d`.
  pub record IsArbitrated (d : Decision F) (ctx : Context F) (h : Hybrid N)
      (r : Decision F × Hybrid N) : Type 0 where
    pub allowed :
        (call_eq r.0.call no_op || contains r.0.call ctx.available || call_eq r.0.call d.call)
        ≡ true
    pub led_once : r.1.rule_led + r.1.net_led ≡ h.rule_led + h.net_led + 1

  rule_leads-allowed :
      (hyp : Cause) (d : Decision F) (ctx : Context F)
      → (call_eq (rule_leads hyp d ctx).call no_op
          || contains (rule_leads hyp d ctx).call ctx.available)
        ≡ true
  unfolding rule_leads
  rule_leads-allowed hyp d ctx = ground arith

  net_leads-call : (hyp : Cause) (d : Decision F) → (net_leads hyp d).call ≡ d.call
  unfolding net_leads
  net_leads-call hyp d = ground arith

  arbitrate-IsArbitrated :
      (o : Option Cause) (p : F) (d : Decision F) (ctx : Context F) (h : Hybrid N)
      → IsArbitrated d ctx h (arbitrate o p d ctx h)
  unfolding arbitrate
  arbitrate-IsArbitrated none p d ctx h = record {
    allowed = ground (arith, call_eq_refl d.call);
    led_once = omega arith;
  }
  arbitrate-IsArbitrated (some hyp) p d ctx h = elim (Bool-cases (le k.lead_precision p)) [
    | inl leads ↦
        rw leads (record {
          allowed = ground (arith, rule_leads-allowed hyp d ctx);
          led_once = omega arith;
        })
    | inr follows ↦ rw follows (record {
      allowed = rw net_leads-call (ground (arith, call_eq_refl d.call));
      led_once = omega arith;
    })
  ]

  -- The hybrid's call is `no_op`, one that the mask allows, or the network's own; and every tick is
  -- counted once, as led by a rule or by the network.
  pub decide-IsArbitrated :
      (f : List F) (ctx : Context F) (h : Hybrid N)
      → IsArbitrated (k.net.decide f ctx h.state).0 ctx h (decide f ctx h)
  unfolding decide
  decide-IsArbitrated f ctx h =
      let d = (k.net.decide f ctx h.state).0 in
      let a =
        arbitrate-IsArbitrated (hypothesis_of (suggest k.names k.rules f)) _ d ctx
          (record h { state = (k.net.decide f ctx h.state).1 }) in
      record { allowed = a.allowed; led_once = a.led_once }
