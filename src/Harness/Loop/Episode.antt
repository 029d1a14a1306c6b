-- ===== src/Harness/Loop/Episode.antt =====
-- The episodes of the harness's agent: when they return, and that a long enough one asks the model.
use tactical_radio_jamming_s.Base.{
  ℕ, ◌+◌, ◌≤◌, ◌<◌, ◌≡◌, refl, Bool, true, ltb, all, Option-cases, Option, none, some, List, [],
  ◌∷◌, length, Number, arith, inl, inr, ◌⊎◌,
}
use tactical_radio_jamming_s.Api.{Context, Decision}
use tactical_radio_jamming_s.Harness.Loop.{
  Settings, Harness, Verdict, ask, quiet, stable, should_ask, answer, decide, reset, f_shadow,
}
use tactical_radio_jamming_s.Harness.Loop.Gate.{
  IsLive, stepped-IsLive, decide-IsStep, decide-answer, decide-returns, put_question-asked,
  is_typed, unchanged_panel,
}

module _ {F P : Type 0} ⦃num : Number F⦄ (cfg : Settings F P) where
  -- The ticks of an episode, up to the first that raises.
  pub ticks : List (List F × Context F) → Harness F P → Option (Harness F P)
  ticks [] h = some h
  ticks ((f, ctx) ∷ more) h = elim (decide cfg f ctx h) [
    | none ↦ none
    | some (d, h') ↦ ticks more h'
  ]

  -- What an episode comes to: it returns, and the invariant holds.
  pub record IsEpisode (r : Option (Harness F P)) : Type 0 where
    pub last : Harness F P
    pub ends : r ≡ some last
    pub stays_live : IsLive cfg last

  -- Every vector has the features that the gate reads.
  abbrev pub are_long : List (List F × Context F) → Bool
  are_long inputs = all (λ e. ltb (f_shadow cfg) (length e.0)) inputs

  -- The model's replies have objects where they belong.
  abbrev pub IsTyped : Type 0
  IsTyped = (f : List F) (ctx : Context F) (p : P) → is_typed cfg (cfg.complete f ctx p).0 ≡ true

  ticks-IsEpisode :
      (inputs : List (List F × Context F)) (h : Harness F P)
      → 0 < cfg.max_calls_per_episode
      → are_long inputs ≡ true
      → IsTyped
      → IsLive cfg h
      → IsEpisode (ticks inputs h)
  unfolding ticks
  ticks-IsEpisode [] h p long t l = record { last = h; ends = refl; stays_live = l }
  ticks-IsEpisode ((f, ctx) ∷ more) h p long t l = elim (Option-cases (decide cfg f ctx h)) [
    | inl e ↦
        let returns = decide-returns cfg f ctx h p (ground (arith, long)) (t f ctx) l in
        absurd (ground (arith, e, returns))
    | inr (made, e) ↦
        rw (e, ticks)
          (ticks-IsEpisode more made.1 p (ground (arith, long)) t
            (decide-IsStep cfg f ctx h p l e).live)
  ]

  pub reset-ticks-IsEpisode :
      (inputs : List (List F × Context F)) (h : Harness F P)
      → 0 < cfg.max_calls_per_episode
      → are_long inputs ≡ true
      → IsTyped
      → IsEpisode (ticks inputs (reset h))
  unfolding reset
  reset-ticks-IsEpisode inputs h p long t = ticks-IsEpisode inputs (reset h) p long t (ground arith)

  -- Before the first question: every tick so far was suppressed as quiet.
  pub record IsSilent (n : ℕ) (h : Harness F P) : Type 0 where
    pub none_asked : h.asked ≡ 0
    pub none_decided : h.last_decision ≡ none
    pub all_quiet : h.quiet_run ≡ n
    pub in_time : n < cfg.heartbeat_ticks

  should_ask-IsSilent :
      (n : ℕ) (f : List F) (ctx : Context F) (h : Harness F P)
      → 0 < cfg.max_calls_per_episode
      → IsLive cfg h
      → IsSilent n h
      → let (v, h') = should_ask cfg f ctx h in (v ≡ ask) ⊎ ((v ≡ quiet) × IsSilent (n + 1) h')
  unfolding should_ask
  should_ask-IsSilent n f ctx h p l s = ground (arith, l.panel_decided, unchanged_panel cfg f ctx h)

  answer-IsSilent :
      (n : ℕ) (v : Verdict) (f : List F) (ctx : Context F) (h : Harness F P)
      {made : Decision F × Harness F P}
      → (v ≡ ask) ⊎ ((v ≡ quiet) × IsSilent n h)
      → answer cfg v f ctx h ≡ some made
      → (0 < made.1.asked) ⊎ IsSilent n made.1
  answer-IsSilent n ask f ctx h o e = inl (ground (arith, put_question-asked cfg f ctx h e))
  answer-IsSilent n quiet f ctx h (inl a) e = absurd (ground arith)
  answer-IsSilent n quiet f ctx h (inr (q, s)) e = ground arith
  answer-IsSilent n stable f ctx h o e = absurd (ground arith)

  decide-IsSilent :
      (n : ℕ) (f : List F) (ctx : Context F) (h : Harness F P) {made : Decision F × Harness F P}
      → 0 < cfg.max_calls_per_episode
      → IsLive cfg h
      → IsSilent n h
      → decide cfg f ctx h ≡ some made
      → (0 < made.1.asked) ⊎ IsSilent (n + 1) made.1
  decide-IsSilent n f ctx h p l s e =
      let h₁ : Harness F P = record h { step = h.step + 1 } in
      let s₁ : IsSilent n h₁ = record {
        none_asked = s.none_asked;
        none_decided = s.none_decided;
        all_quiet = s.all_quiet;
        in_time = s.in_time;
      } in
      answer-IsSilent (n + 1) _ f ctx _
        (should_ask-IsSilent n f ctx h₁ p (stepped-IsLive cfg h l) s₁) (decide-answer cfg f ctx h e)

  -- the first tick of an episode that returns
  ticks-first :
      (f : List F) (ctx : Context F) (more : List (List F × Context F)) (h : Harness F P)
      {last : Harness F P}
      → ticks ((f, ctx) ∷ more) h ≡ some last
      → (made : Decision F × Harness F P) × (decide cfg f ctx h ≡ some made)
        × (ticks more made.1 ≡ some last)
  unfolding ticks
  ticks-first f ctx more h e = elim (Option-cases (decide cfg f ctx h)) [
    | inl n ↦ absurd (ground (arith, n, e))
    | inr (made, n) ↦ (made, n, rw (n, ticks) at e)
  ]

  ticks-asked :
      (inputs : List (List F × Context F)) (h : Harness F P) {last : Harness F P}
      → 0 < cfg.max_calls_per_episode
      → IsLive cfg h
      → ticks inputs h ≡ some last
      → h.asked ≤ last.asked
  unfolding ticks
  ticks-asked [] h p l e = ground arith
  ticks-asked ((f, ctx) ∷ more) h p l e =
      let (made, first, rest) = ticks-first f ctx more h e in
      let st = decide-IsStep cfg f ctx h p l first in
      omega (arith, st.asked_less, ticks-asked more made.1 p st.live rest)

  ticks-IsSilent :
      (n : ℕ) (inputs : List (List F × Context F)) (h : Harness F P) {last : Harness F P}
      → 0 < cfg.max_calls_per_episode
      → IsLive cfg h
      → IsSilent n h
      → cfg.heartbeat_ticks ≤ n + length inputs
      → ticks inputs h ≡ some last
      → 0 < last.asked
  unfolding ticks
  ticks-IsSilent n [] h p l s long e = absurd (omega (arith, s.in_time))
  ticks-IsSilent n ((f, ctx) ∷ more) h p l s long e =
      let (made, first, rest) = ticks-first f ctx more h e in
      let st = decide-IsStep cfg f ctx h p l first in
      elim (decide-IsSilent n f ctx h p l s first) [
        | inl asked ↦ omega (arith, asked, ticks-asked more made.1 p st.live rest)
        | inr silent ↦ ticks-IsSilent (n + 1) more made.1 p st.live silent (omega arith) rest
      ]

  -- An episode from a reset of at least as many ticks as the heartbeat says asks the model at least
  -- once, however healthy the link looks, if neither the heartbeat nor the cap on questions is zero.
  pub heartbeat_asks :
      (inputs : List (List F × Context F)) (h : Harness F P) {last : Harness F P}
      → 0 < cfg.max_calls_per_episode
      → 0 < cfg.heartbeat_ticks
      → cfg.heartbeat_ticks ≤ length inputs
      → ticks inputs (reset h) ≡ some last
      → 0 < last.asked
  unfolding reset
  heartbeat_asks inputs h p q long e =
      ticks-IsSilent 0 inputs (reset h) p (ground arith) (ground arith) (omega arith) e
