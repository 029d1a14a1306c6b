-- ===== src/Harness/Loop/Gate.antt =====
-- The event gate bounds the questions to the model, and every episode asks one.
use tactical_radio_jamming_s.Base.{
  ◌+◌, ◌≤◌, ◌<◌, ◌≡◌, refl, Bool, true, ◌&&◌, ◌||◌, length, Option, none, some, List, is_some,
  Number, arith, Option-cases, Bool-cases, inl, inr, ◌∙◌, sym,
}
use tactical_radio_jamming_s.Api.{Cause, Call, no_op, call_eq, contains, Args, Context, Decision}
use tactical_radio_jamming_s.Harness.Loop.{
  Settings, Harness, Verdict, ask, quiet, stable, Reply, failed, unparsed, parsed, is_unchanged,
  should_ask, can_read, f_shadow, take_reply, from_reply, validate, put_question, hold, answer,
  decide,
}

module _ {F P : Type 0} ⦃num : Number F⦄ (cfg : Settings F P) where
  -- What holds of the agent between two ticks.
  pub record IsLive (h : Harness F P) : Type 0 where
    pub asked_le : h.asked ≤ cfg.max_calls_per_episode
    pub decided : 0 < h.asked → is_some h.last_decision ≡ true
    pub panel_decided : is_some h.last_panel ≡ true → is_some h.last_decision ≡ true

  pub unchanged_panel :
      (f : List F) (ctx : Context F) (h : Harness F P)
      → is_unchanged cfg f ctx h ≡ true
      → is_some h.last_panel ≡ true
  unfolding is_unchanged
  unchanged_panel f ctx h e = ground arith

  -- What the gate grants with its verdict.
  pub record IsGranted (v : Verdict) (h : Harness F P) : Type 0 where
    pub live : IsLive h
    pub may_ask : v ≡ ask → h.asked < cfg.max_calls_per_episode
    pub may_hold : v ≡ stable → is_some h.last_decision ≡ true

  should_ask-IsGranted :
      (f : List F) (ctx : Context F) (h : Harness F P)
      → 0 < cfg.max_calls_per_episode
      → IsLive h
      → let (v, h') = should_ask cfg f ctx h in IsGranted v h'
  unfolding should_ask
  should_ask-IsGranted f ctx h some_calls l =
      ground (arith, unchanged_panel f ctx h, l.decided, l.panel_decided)

  validate-allowed :
      (c : Call) (args : Option (Args F)) (available : List Call) {r : Call × Args F}
      → validate cfg.tools c args available ≡ some r
      → (call_eq r.0 no_op || contains r.0 available) ≡ true
  unfolding validate
  validate-allowed c args available h = ground arith

  -- what a reply comes to, if nothing is raised
  record IsTaken (ctx : Context F) (h : Harness F P) (made : Decision F × Harness F P)
      : Type 0 where
    asked_eq : made.1.asked ≡ h.asked
    live : h.asked ≤ cfg.max_calls_per_episode → IsLive made.1
    allowed : (call_eq made.0.call no_op || contains made.0.call ctx.available) ≡ true

  from_reply-allowed :
      (b : Option (List (Cause × F))) (c : Call) (args : Option (Args F)) (p u : F)
      (ctx : Context F) {d : Decision F}
      → from_reply cfg b c args p u ctx ≡ some d
      → (call_eq d.call no_op || contains d.call ctx.available) ≡ true
  unfolding from_reply
  from_reply-allowed none c args p u ctx h = absurd (cc)
  from_reply-allowed (some b) c args p u ctx h =
      elim (Option-cases (validate cfg.tools c args ctx.available)) [
        | inl e ↦ absurd (ground (arith, e, h))
        | inr (r, e) ↦ ground (arith, e, h, validate-allowed c args ctx.available e)
      ]

  take_reply-IsTaken :
      (r : Reply F) (ctx : Context F) (h : Harness F P) {made : Decision F × Harness F P}
      → take_reply cfg r ctx h ≡ some made
      → IsTaken ctx h made
  unfolding take_reply
  take_reply-IsTaken failed ctx h e = ground (arith, e)
  take_reply-IsTaken unparsed ctx h e = ground (arith, e)
  take_reply-IsTaken (parsed a b c d p u) ctx h e =
      elim (Option-cases (from_reply cfg b c d p u ctx)) [
        | inl n ↦ absurd (ground (arith, n, e))
        | inr (x, n) ↦ ground (arith, n, e, from_reply-allowed b c d p u ctx n)
      ]

  -- What a tick that returns comes to, and how many questions it may have cost.
  pub record IsStep (before : Harness F P) (ctx : Context F) (made : Decision F × Harness F P)
      : Type 0 where
    pub live : IsLive made.1
    pub asked_less : before.asked ≤ made.1.asked
    pub asked_once : made.1.asked ≤ before.asked + 1
    pub idle_unasked : made.1.asked ≡ before.asked → call_eq made.0.call no_op ≡ true
    pub allowed : (call_eq made.0.call no_op || contains made.0.call ctx.available) ≡ true

  taken-IsStep :
      (before : Harness F P) (ctx : Context F) (h : Harness F P) {made : Decision F × Harness F P}
      → h.asked ≡ before.asked + 1
      → h.asked ≤ cfg.max_calls_per_episode
      → IsTaken ctx h made
      → IsStep before ctx made
  taken-IsStep before ctx h e p t = record {
    live = t.live p;
    asked_less = omega (arith, t.asked_eq, e);
    asked_once = omega (arith, t.asked_eq, e);
    idle_unasked = λ same. absurd (omega (arith, t.asked_eq, e, same));
    allowed = t.allowed;
  }

  pub put_question-asked :
      (f : List F) (ctx : Context F) (h : Harness F P) {made : Decision F × Harness F P}
      → put_question cfg f ctx h ≡ some made
      → made.1.asked ≡ h.asked + 1
  unfolding put_question
  put_question-asked f ctx h e = (take_reply-IsTaken _ ctx _ e).asked_eq

  put_question-IsStep :
      (f : List F) (ctx : Context F) (h : Harness F P) {made : Decision F × Harness F P}
      → h.asked < cfg.max_calls_per_episode
      → put_question cfg f ctx h ≡ some made
      → IsStep h ctx made
  unfolding put_question
  put_question-IsStep f ctx h p e =
      taken-IsStep h ctx _ refl (omega (arith, p)) (take_reply-IsTaken _ ctx _ e)

  hold-IsStep :
      (f : List F) (ctx : Context F) (h : Harness F P) {made : Decision F × Harness F P}
      → IsLive h
      → hold cfg f ctx h ≡ some made
      → IsStep h ctx made
  unfolding hold
  hold-IsStep f ctx h l e = elim (Option-cases h.last_decision) [
    | inl n ↦ absurd (ground (arith, n, e))
    | inr (d, n) ↦ ground (arith, n, e, l.asked_le)
  ]

  answer-IsStep :
      (v : Verdict) (f : List F) (ctx : Context F) (h : Harness F P)
      {made : Decision F × Harness F P}
      → IsGranted v h
      → answer cfg v f ctx h ≡ some made
      → IsStep h ctx made
  answer-IsStep ask f ctx h g e = put_question-IsStep f ctx h (g.may_ask refl) e
  answer-IsStep quiet f ctx h g e =
      ground (arith, e, g.live.asked_le, g.live.decided, g.live.panel_decided)
  answer-IsStep stable f ctx h g e = hold-IsStep f ctx h g.live e

  should_ask-asked :
      (f : List F) (ctx : Context F) (h : Harness F P) → (should_ask cfg f ctx h).1.asked ≡ h.asked
  unfolding should_ask
  should_ask-asked f ctx h = ground arith

  later-IsStep :
      (a b : Harness F P) (ctx : Context F) {made : Decision F × Harness F P}
      → b.asked ≡ a.asked
      → IsStep b ctx made
      → IsStep a ctx made
  later-IsStep a b ctx e st = record {
    live = st.live;
    asked_less = omega (arith, st.asked_less);
    asked_once = omega (arith, st.asked_once);
    idle_unasked = λ same. st.idle_unasked (same ∙ sym e);
    allowed = st.allowed;
  }

  -- the state when the gate is asked
  pub stepped-IsLive : (h : Harness F P) → IsLive h → IsLive (record h { step = h.step + 1 })
  stepped-IsLive h l = record {
    asked_le = l.asked_le;
    decided = l.decided;
    panel_decided = l.panel_decided;
  }

  pub decide-answer :
      (f : List F) (ctx : Context F) (h : Harness F P) {made : Decision F × Harness F P}
      → decide cfg f ctx h ≡ some made
      → let r = should_ask cfg f ctx (record h { step = h.step + 1 }) in
        answer cfg r.0 f ctx r.1 ≡ some made
  unfolding decide
  decide-answer f ctx h e = elim (Bool-cases (can_read cfg f h)) [
    | inl t ↦ rw t at e
    | inr t ↦ absurd (let no = rw t at e in cc)
  ]

  -- If the cap on questions is not zero, a tick that returns in a state with the invariant keeps the
  -- invariant: the cap is kept, a tick asks at most once, a tick that asks nothing does nothing, and the
  -- call is `no_op` or one that the mask allows.
  pub decide-IsStep :
      (f : List F) (ctx : Context F) (h : Harness F P) {made : Decision F × Harness F P}
      → 0 < cfg.max_calls_per_episode
      → IsLive h
      → decide cfg f ctx h ≡ some made
      → IsStep h ctx made
  decide-IsStep f ctx h some_calls l e =
      let h₁ : Harness F P = record h { step = h.step + 1 } in
      later-IsStep h (should_ask cfg f ctx h₁).1 ctx (should_ask-asked f ctx h₁) (
        answer-IsStep _ f ctx _ (should_ask-IsGranted f ctx h₁ some_calls (stepped-IsLive h l))
          (decide-answer f ctx h e))

  -- The reply has an object where one belongs, or nothing.
  abbrev pub is_typed : Reply F → Bool
  is_typed failed = true
  is_typed unparsed = true
  is_typed (parsed a b c d p u) = is_some b && is_some d

  take_reply-returns :
      (r : Reply F) (ctx : Context F) (h : Harness F P)
      → is_typed r ≡ true
      → is_some (take_reply cfg r ctx h) ≡ true
  unfolding take_reply from_reply validate
  take_reply-returns failed ctx h t = refl
  take_reply-returns unparsed ctx h t = refl
  take_reply-returns (parsed a none c d p u) ctx h t = absurd (ground (arith, t))
  take_reply-returns (parsed a (some b) c none p u) ctx h t = absurd (ground (arith, t))
  take_reply-returns (parsed a (some b) c (some d) p u) ctx h t = ground arith

  put_question-returns :
      (f : List F) (ctx : Context F) (h : Harness F P)
      → is_typed (cfg.complete f ctx h.provider).0 ≡ true
      → is_some (put_question cfg f ctx h) ≡ true
  unfolding put_question
  put_question-returns f ctx h t = take_reply-returns (cfg.complete f ctx h.provider).0 ctx _ t

  answer-returns :
      (v : Verdict) (f : List F) (ctx : Context F) (h : Harness F P)
      → ((p : P) → is_typed (cfg.complete f ctx p).0 ≡ true)
      → IsGranted v h
      → is_some (answer cfg v f ctx h) ≡ true
  unfolding hold
  answer-returns ask f ctx h t g = put_question-returns f ctx h (t h.provider)
  answer-returns quiet f ctx h t g = refl
  answer-returns stable f ctx h t g = elim (Option-cases h.last_decision) [
    | inl e ↦ absurd (ground (arith, e, g.may_hold refl))
    | inr (d, e) ↦ rw e refl
  ]

  -- A tick raises nothing if the model's replies have objects where they belong and the features that the
  -- gate reads are there.
  pub decide-returns :
      (f : List F) (ctx : Context F) (h : Harness F P)
      → 0 < cfg.max_calls_per_episode
      → f_shadow cfg < length f
      → ((p : P) → is_typed (cfg.complete f ctx p).0 ≡ true)
      → IsLive h
      → is_some (decide cfg f ctx h) ≡ true
  unfolding decide
  decide-returns f ctx h some_calls long t l =
      let h₁ : Harness F P = record h { step = h.step + 1 } in
      let readable : can_read cfg f h ≡ true = ground (arith, long) in
      rw readable
        (answer-returns _ f ctx _ t (should_ask-IsGranted f ctx h₁ some_calls (stepped-IsLive h l)))
