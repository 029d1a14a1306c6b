-- ===== src/Corpus/Verdicts.antt =====
-- The check of a scenario for the corpus returns a verdict.
use tactical_radio_jamming_s.Base.{
  ℕ, zero, suc, ◌≡◌, refl, Bool, false, none, some, List, [], ◌∷◌, count, find, Number,
  Option-cases, inl, inr, lit, arith,
}
use tactical_radio_jamming_s.Scenario.{Scenario, Node, is_agent, auto}
use tactical_radio_jamming_s.Scenario.Checks.{Problem}
use tactical_radio_jamming_s.Scenario.Checks as Checks
use tactical_radio_jamming_s.Scenario.Runnable.{IsRunnable, validate-IsRunnable, validate_raises}
use tactical_radio_jamming_s.Sim.Radio.{Maths, Random}
use tactical_radio_jamming_s.Sim.State.{Setup, State, start}
use tactical_radio_jamming_s.Sim.Ticks.{step_total}
use tactical_radio_jamming_s.Sim.Safe.{IsSound, Holds-IsSound}
use tactical_radio_jamming_s.Sim.Ready.{start-IsSound}
use tactical_radio_jamming_s.Corpus.{judge, ticks_of, sample, validate}

some_agent : {F : Type 0} (ns : List (Node F)) → find is_agent ns ≡ none → ¬ (count is_agent ns ≡ 1)
some_agent [] e h = absurd (ground arith)
some_agent (n ∷ ns) e h = some_agent ns (ground arith) (ground arith)

module _ {F R : Type 0} ⦃num : Number F⦄ (maths : Maths F) (rand : Random F R) where
  -- From a sound state, every tick of the sample returns.
  sample_total :
      (setup : Setup F) (onset : F) (n : ℕ) (s : State F R) (pre post : List F)
      → IsSound maths rand setup s
      → (r : List F × List F) × (sample maths rand setup onset n s pre post ≡ some r)
  unfolding sample
  sample_total setup onset zero s pre post i = ((pre, post), refl)
  sample_total setup onset (suc n) s pre post i =
      let (r, e, h, quiet) = step_total maths rand setup none s i.ready in
      rw (e, sample) (sample_total setup onset n r.1 _ _ (Holds-IsSound maths rand setup h i))

  -- A scenario with range-based links and one agent gets a verdict: it is refused if a problem is found,
  -- and else judged by the samples of a whole run in the simulator, in which no tick raises.
  pub data HasVerdict (sc : Scenario F) : Bool → Type 0 where
    refused :
        {p : Problem F} {ps : List (Problem F)}
        → Checks.validate maths.dist sc ≡ some (p ∷ ps)
        → HasVerdict sc false
    sampled :
        {setup : Setup F} {s : State F R} {pre post : List F}
        → IsRunnable maths.dist sc
        → start maths rand sc (lit 1 1) ≡ some (setup, s)
        → sample maths rand setup sc.truth.onset_t (ticks_of sc setup.dt) s [] [] ≡ some (pre, post)
        → HasVerdict sc (judge sc.family (pre, post))

  -- As far as the functions of `math` and the powers return, which the model takes to be total, a scenario
  -- with range-based links and one agent gets a verdict without an exception: it is refused if a problem
  -- is found, and is else judged by the samples of a whole run in the simulator.
  pub validate-HasVerdict :
      (sc : Scenario F)
      → sc.links ≡ auto
      → count is_agent sc.nodes ≡ 1
      → (ok : Bool) × (validate maths rand sc ≡ some ok) × HasVerdict sc ok
  unfolding validate
  validate-HasVerdict sc auto_links one = elim (Option-cases (Checks.validate maths.dist sc)) [
    | inl e ↦ absurd (some_agent sc.nodes ((validate_raises maths.dist sc).0.0 e) one)
    | inr (problems, e) ↦ on_problems problems e
  ]
    where
      on_problems :
          (problems : List (Problem F))
          → Checks.validate maths.dist sc ≡ some problems
          → (ok : Bool) × (validate maths rand sc ≡ some ok) × HasVerdict sc ok
      on_problems (p ∷ ps) e = (false, rw (e, validate) refl, refused e)
      on_problems [] e =
          let runnable = (validate-IsRunnable maths.dist sc).0 e in
          let (setup, s, f, i) = start-IsSound maths rand sc (lit 1 1) runnable auto_links one in
          let (r, g) = sample_total setup sc.truth.onset_t (ticks_of sc setup.dt) s [] [] i in
          (judge sc.family r, rw (e, validate) (rw f (rw g refl)), sampled runnable f g)
