-- ===== src/Agents/Oracle/Guards.antt =====
-- What the oracle's labels can and cannot be.
use tactical_radio_jamming_s.Base.{
  ◌≤◌, ◌<◌, ◌≡◌, ◌≢◌, refl, true, false, Option, none, some, List, Number, arith, Option-cases,
  Bool-cases, inl, inr,
}
use tactical_radio_jamming_s.Api.{
  Cause, unknown, Call, no_op, declare_link_lost, contains, call_eq, Decision, Context, playbook,
}
use tactical_radio_jamming_s.Agents.Oracle.{
  Oracle, allowed_call, confirming_test, refuse, next_test, recover, decide,
}

allowed_call-contains :
    (c : Call) (available : List Call)
    → contains no_op available ≡ true
    → contains (allowed_call c available) available ≡ true
unfolding allowed_call
allowed_call-contains c available h = ground arith

playbook-loss : (c : Cause) {d : Call} → playbook c ≡ some d → call_eq d declare_link_lost ≡ false
unfolding playbook
playbook-loss c e = ground arith

confirming-loss :
    (c : Cause) {d : Call} → confirming_test c ≡ some d → call_eq d declare_link_lost ≡ false
confirming-loss c e = ground arith

allowed_call-loss :
    (d : Call) (available : List Call)
    → call_eq d declare_link_lost ≡ false
    → call_eq (allowed_call d available) declare_link_lost ≡ false
unfolding allowed_call
allowed_call-loss d available e = elim (Bool-cases (contains d available)) [
  | inl open_call ↦ rw open_call e
  | inr masked ↦ rw masked (ground arith)
]

playbook-none : (c : Cause) → playbook c ≡ none → c ≡ unknown
unfolding playbook
playbook-none c e = ground arith

playbook-known : (c : Cause) → c ≢ unknown → (d : Call) × (playbook c ≡ some d)
playbook-known c h = elim (Option-cases (playbook c)) [
  | inl e ↦ absurd (h (playbook-none c e))
  | inr (d, e) ↦ (d, e)
]

module _ {F : Type 0} ⦃num : Number F⦄ where
  -- What a decision of the oracle comes to.
  pub record IsLabel (o : Oracle) (ctx : Context F) (r : Option (Decision F × Oracle))
      : Type 0 where
    pub made : Decision F × Oracle
    pub returns : r ≡ some made
    pub allowed : contains made.0.call ctx.available ≡ true
    pub tests_le : made.1.tests ≤ 3
    pub loss_earned : call_eq made.0.call declare_link_lost ≡ true → o.recoverable ≡ false

  refuse-IsLabel :
      (o : Oracle) (f : List F) (ctx : Context F) {d : Decision F}
      → refuse o f ctx ≡ some d
      → (contains d.call ctx.available ≡ true)
        × (call_eq d.call declare_link_lost ≡ true → o.recoverable ≡ false)
  unfolding refuse
  refuse-IsLabel o f ctx e = ground arith

  next_test-IsLabel :
      (o : Oracle) (f : List F) (ctx : Context F) {c : Call}
      → next_test o f ctx ≡ some c
      → (contains c ctx.available ≡ true) × (call_eq c declare_link_lost ≡ false) × (o.tests < 3)
  unfolding next_test
  next_test-IsLabel o f ctx e = elim (Option-cases (confirming_test o.true_cause)) [
    | inl missing ↦ absurd (ground arith)
    | inr (d, found) ↦ ground (arith, confirming-loss o.true_cause found)
  ]

  made-IsLabel :
      (o : Oracle) (ctx : Context F) (d : Decision F) (o' : Oracle)
      → contains d.call ctx.available ≡ true
      → o'.tests ≤ 3
      → (call_eq d.call declare_link_lost ≡ true → o.recoverable ≡ false)
      → IsLabel o ctx (some (d, o'))
  made-IsLabel o ctx d o' a t l = record {
    made = (d, o');
    returns = refl;
    allowed = a;
    tests_le = t;
    loss_earned = l;
  }

  recover-IsLabel :
      (o : Oracle) (ctx : Context F)
      → o.true_cause ≢ unknown
      → o.tests ≤ 3
      → contains no_op ctx.available ≡ true
      → IsLabel o ctx (recover o ctx)
  unfolding recover
  recover-IsLabel o ctx known t idle =
      let (c, e) = playbook-known o.true_cause known in
      rw (e, recover)
        (made-IsLabel o ctx _ o (allowed_call-contains c ctx.available idle) t (λ lost.
          absurd
            (ground (arith, allowed_call-loss c ctx.available (playbook-loss o.true_cause e)))))

  -- If the cause is known and the mask allows `no_op`, the oracle always labels a tick, with a call
  -- that the mask allows. It buys at most three confirming tests, and it declares the link lost only
  -- in an episode that cannot be recovered.
  pub decide-IsLabel :
      (o : Oracle) (f : List F) (ctx : Context F)
      → o.true_cause ≢ unknown
      → o.tests ≤ 3
      → contains no_op ctx.available ≡ true
      → IsLabel o ctx (decide o f ctx)
  unfolding decide
  decide-IsLabel o f ctx known t idle = elim (Option-cases (refuse o f ctx)) [
    | inr (d, e) ↦
        let r = refuse-IsLabel o f ctx e in rw (e, decide) (made-IsLabel o ctx d o r.0 t r.1)
    | inl e ↦ elim (Option-cases (next_test o f ctx)) [
      | inr (c, n) ↦
          let r = next_test-IsLabel o f ctx n in
          rw (e, n, decide)
            (made-IsLabel o ctx _ _ r.0 (omega (arith, r.2)) (λ lost. absurd (ground (arith, r.1))))
      | inl n ↦ rw (e, n, decide) (recover-IsLabel o ctx known t idle)
    ]
  ]
