-- ===== src/Episode/Early.antt =====
-- The warm-up of the extractor's gate as the controller lives it: no agent is asked.
use tactical_radio_jamming_s.Base.{ℕ, zero, suc, ◌+◌, ◌≤◌, ◌≡◌, refl, false, none, Number, arith}
use mathlib.Core.Path.{subst}
use tactical_radio_jamming_s.Percept.Features.{FeatureMath, FeatureExtractor, extractor}
use tactical_radio_jamming_s.Percept.Features.Warmup.{
  IsShut, is_over, update-IsShut, extractor-IsShut,
}
use tactical_radio_jamming_s.Scenario.{Scenario}
use tactical_radio_jamming_s.Controller.State.{
  Sim, Agent, Contract, State, no_use, empty_log, reset,
}
use tactical_radio_jamming_s.Controller.Run.{
  observe, budget_view, may_decide, note_onset, tick, ticks,
}
use tactical_radio_jamming_s.Episode.{assembled}

module _ {F S A : Type 0} ⦃num : Number F⦄ (sim : Sim F S) (sc : Scenario F) (agent : Agent F A)
    (contract : Contract F) (math : FeatureMath F) where
  -- After `n` ticks the gate is shut, and the agent, the budget and the log are as at the start.
  pub record IsWaiting (a : A) (n : ℕ) (s : State F S A (FeatureExtractor F)) : Type 0 where
    pub shut : IsShut math n sim.dt s.extractor
    pub onset_eq : s.onset_t ≡ none
    pub agent_eq : s.agent ≡ a
    pub used_eq : s.used ≡ no_use
    pub log_eq : s.log ≡ empty_log

  observe-IsWaiting :
      (a : A) (n : ℕ) (s : State F S A (FeatureExtractor F))
      → is_over math (n + 1) sim.dt ≡ false
      → IsWaiting a n s
      → IsWaiting a (n + 1) (observe (assembled sim sc agent contract math) s).1
  unfolding observe note_onset
  observe-IsWaiting a n s early h =
      let next =
        update-IsShut math n sim.dt
          (sim.step (budget_view (assembled sim sc agent contract math) s) s.sim).0 s.extractor
          early h.shut in
      rw (h.onset_eq, next.shut)
        (record {
          shut = next;
          onset_eq = h.onset_eq;
          agent_eq = h.agent_eq;
          used_eq = h.used_eq;
          log_eq = h.log_eq;
        })

  -- no decision without an onset
  undecided :
      (i : ℕ) (pdr : F) (s : State F S A (FeatureExtractor F))
      → s.onset_t ≡ none
      → may_decide (assembled sim sc agent contract math) i pdr s ≡ false
  unfolding may_decide
  undecided i pdr s h = ground arith

  tick-IsWaiting :
      (a : A) (n i : ℕ) (s : State F S A (FeatureExtractor F))
      → is_over math (n + 1) sim.dt ≡ false
      → IsWaiting a n s
      → IsWaiting a (n + 1) (tick (assembled sim sc agent contract math) i s)
  unfolding tick
  tick-IsWaiting a n i s early h =
      let next = observe-IsWaiting a n s early h in
      rw
        (undecided i (observe (assembled sim sc agent contract math) s).0.pdr
          (observe (assembled sim sc agent contract math) s).1 next.onset_eq)
        next

  ticks-IsWaiting :
      (a : A) (n i k : ℕ) (s : State F S A (FeatureExtractor F))
      → ((j : ℕ) → j ≤ n + k → is_over math j sim.dt ≡ false)
      → IsWaiting a n s
      → IsWaiting a (n + k) (ticks (assembled sim sc agent contract math) k i s)
  unfolding ticks
  ticks-IsWaiting a n i zero s early h = subst (λ m. IsWaiting a m s) (omega arith) h
  ticks-IsWaiting a n i (suc k) s early h =
      let w = assembled sim sc agent contract math in
      subst (λ m. IsWaiting a m (ticks w k (i + 1) (tick w i s))) (omega arith)
        (ticks-IsWaiting a (n + 1) (i + 1) k (tick w i s) (λ j le. early j (omega (arith, le)))
          (tick-IsWaiting a n i s (early (n + 1) (omega arith)) h))

  -- In any simulator, as long as the ticks together last less than the extractor's warm-up of four
  -- seconds, the agent is not asked, no budget is spent, nothing is logged, and no onset is noted.
  pub early_idle :
      (n : ℕ) (s : S) (a : A)
      → ((k : ℕ) → k ≤ n → is_over math k sim.dt ≡ false)
      → IsWaiting (agent.reset a) n (
          ticks
            (assembled sim sc agent contract math)
            n
            0
            (reset (assembled sim sc agent contract math) s a (extractor sc.n_channels sim.dt)))
  unfolding reset
  early_idle n s a early =
      let start : IsWaiting (agent.reset a) 0
          (reset (assembled sim sc agent contract math) s a (extractor sc.n_channels sim.dt)) =
        record {
          shut = extractor-IsShut math sc.n_channels sim.dt;
          onset_eq = refl;
          agent_eq = refl;
          used_eq = refl;
          log_eq = refl;
        } in
      subst
        (λ m. IsWaiting (agent.reset a) m (
          ticks (assembled sim sc agent contract math) n 0
            (reset (assembled sim sc agent contract math) s a (extractor sc.n_channels sim.dt))))
        (omega arith)
        (ticks-IsWaiting (agent.reset a) 0 0 n _ (λ j le. early j (omega (arith, le))) start)
