-- ===== src/Agents/Baseline/Guards.antt =====
-- What the baseline can never do.
use tactical_radio_jamming_s.Base.{
  ◌≡◌, Bool, true, false, ◌||◌, Bool-cases, inl, inr, List, Number, arith, Option-cases, some,
}
use tactical_radio_jamming_s.Api.{
  Cause, barrage, spot, sweep, Call, hop_channel, no_op, contains, call_eq, Decision, Context,
  declare_link_lost,
}
use tactical_radio_jamming_s.Api.Beliefs.{top, top_p}
use tactical_radio_jamming_s.Agents.Baseline.{
  belief, cheapest_test, act_on, act, decide_on, decide, wait,
}

-- the causes that a hop can be an answer to
abbrev pub is_hoppable : Cause → Bool
is_hoppable spot = true
is_hoppable sweep = true
is_hoppable barrage = true
is_hoppable _ = false

module _ {F : Type 0} ⦃num : Number F⦄ where
  open num use {lt}

  -- Why a call may be made by a decision on the belief `b`.
  pub record IsGuarded (threshold : F) (b : List (Cause × F)) (ctx : Context F) (d : Decision F)
      : Type 0 where
    pub allowed : (call_eq d.call no_op || contains d.call ctx.available) ≡ true
    pub hop_earned :
        call_eq d.call hop_channel ≡ true
        → (is_hoppable (top b) ≡ true) × (lt (top_p b) threshold ≡ false)
    pub loss_earned :
        call_eq d.call declare_link_lost ≡ true
        → (top b ≡ barrage) × (contains hop_channel ctx.available ≡ false)

  -- A test is allowed, and it is neither a hop nor the declaration of a lost link.
  pub record IsTest (ctx : Context F) (c : Call) : Type 0 where
    pub offered : contains c ctx.available ≡ true
    pub not_hop : call_eq c hop_channel ≡ false
    pub not_loss : call_eq c declare_link_lost ≡ false

  cheapest_test-IsTest :
      (threshold : F) (b : List (Cause × F)) (f : List F) (ctx : Context F) {d : Decision F}
      → cheapest_test threshold b f ctx ≡ some d
      → IsTest ctx d.call
  unfolding cheapest_test
  cheapest_test-IsTest threshold b f ctx h = ground arith

  act_on-hop :
      (c : Cause) (b : List (Cause × F)) (f : List F) (ctx : Context F)
      → call_eq (act_on c b f ctx).call hop_channel ≡ true
      → is_hoppable c ≡ true
  unfolding act_on
  act_on-hop c b f ctx h = ground arith

  act_on-loss :
      (c : Cause) (b : List (Cause × F)) (f : List F) (ctx : Context F)
      → call_eq (act_on c b f ctx).call declare_link_lost ≡ true
      → (c ≡ barrage) × (contains hop_channel ctx.available ≡ false)
  unfolding act_on
  act_on-loss c b f ctx h = ground arith

  act-IsGuarded :
      (threshold : F) (b : List (Cause × F)) (f : List F) (ctx : Context F)
      → lt (top_p b) threshold ≡ false
      → contains (act b f ctx).call ctx.available ≡ true
      → IsGuarded threshold b ctx (act b f ctx)
  unfolding act
  act-IsGuarded threshold b f ctx sure h = record {
    allowed = ground arith;
    hop_earned = λ e. (act_on-hop (top b) b f ctx e, sure);
    loss_earned = λ e. act_on-loss (top b) b f ctx e;
  }

  test-IsGuarded :
      (threshold : F) (b : List (Cause × F)) (ctx : Context F) (d : Decision F)
      → IsTest ctx d.call
      → IsGuarded threshold b ctx d
  test-IsGuarded threshold b ctx d t = ground arith

  wait-IsGuarded :
      (threshold : F) (b b' : List (Cause × F)) (ctx : Context F)
      → IsGuarded threshold b ctx (wait b')
  wait-IsGuarded threshold b b' ctx = ground arith

  decide_on-IsGuarded :
      (threshold : F) (b : List (Cause × F)) (f : List F) (ctx : Context F)
      → IsGuarded threshold b ctx (decide_on threshold b f ctx)
  unfolding decide_on
  decide_on-IsGuarded threshold b f ctx = elim (Bool-cases (lt (top_p b) threshold)) [
    | inl unsure ↦ elim (Option-cases (cheapest_test threshold b f ctx)) [
      | inl e ↦ rw (unsure, e) (wait-IsGuarded threshold b b ctx)
      | inr (d, e) ↦
          rw (unsure, e)
            (test-IsGuarded threshold b ctx d (cheapest_test-IsTest threshold b f ctx e))
    ]
    | inr sure ↦ elim (Bool-cases (contains (act b f ctx).call ctx.available)) [
      | inl allowed ↦ rw (sure, allowed) (act-IsGuarded threshold b f ctx sure allowed)
      | inr masked ↦ rw (sure, masked) (wait-IsGuarded threshold b b ctx)
    ]
  ]

  -- The baseline's call is `no_op` or one that the mask allows. It hops only on a belief led by a
  -- spot, sweep or barrage jammer that reaches the threshold, so never on fading; and it declares the
  -- link lost only if a barrage leads and no hop is left.
  pub decide-IsGuarded :
      (threshold : F) (f : List F) (ctx : Context F)
      → IsGuarded threshold (belief f) ctx (decide threshold f ctx)
  unfolding decide
  decide-IsGuarded threshold f ctx = decide_on-IsGuarded threshold (belief f) f ctx
