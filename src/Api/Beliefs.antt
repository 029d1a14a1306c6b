-- ===== src/Api/Beliefs.antt =====
-- Beliefs: `Decision.top`, `Decision.top_p`, `uniform_belief` and `normalise` of agent/api.py.
use tactical_radio_jamming_s.Base.{
  ◌≡◌, List, [], ◌∷◌, map, Number, of_ℕ, max_of, sum, if◌then◌else◌, arith,
}
use tactical_radio_jamming_s.Api.Calls.{Cause, causes, unknown, cause_eq, cause_eq_refl}

module _ {F : Type 0} ⦃num : Number F⦄ where
  open num use {div, lt, le}

  -- `max(b, key=b.get)`: the first entry that no later one exceeds
  pub argmax : Cause × F → List (Cause × F) → Cause × F
  argmax best [] = best
  argmax best ((c, p) ∷ b) = argmax (if lt best.1 p then (c, p) else best) b

  unfoldable pub top : List (Cause × F) → Cause
  unfolding argmax
  top [] = unknown
  top (e ∷ b) = (argmax e b).0

  unfoldable pub top_p : List (Cause × F) → F
  unfolding argmax
  top_p [] = of_ℕ 0
  top_p (e ∷ b) = (argmax e b).1

  unfoldable pub uniform_belief : List (Cause × F)
  uniform_belief = map (λ c. (c, div (of_ℕ 1) (of_ℕ 8))) causes

  -- the weight that `normalise` divides by
  total_weight : List (Cause × F) → F
  total_weight b = sum (map (λ e. max_of (of_ℕ 0) e.1) b)

  unfoldable pub normalise : List (Cause × F) → List (Cause × F)
  unfolding total_weight uniform_belief
  normalise b =
      let s = total_weight b in
      if le s (of_ℕ 0) then uniform_belief else map (λ e. (e.0, div (max_of (of_ℕ 0) e.1) s)) b

  -- `b[c] = p`
  pub assign : Cause → F → List (Cause × F) → List (Cause × F)
  assign c p [] = (c, p) ∷ []
  assign c p ((d, q) ∷ b) = if cause_eq d c then (d, p) ∷ b else (d, q) ∷ assign c p b

  -- `b[c]`, and 0.0 where the key is missing
  pub weight : Cause → List (Cause × F) → F
  weight c [] = of_ℕ 0
  weight c ((d, q) ∷ b) = if cause_eq d c then q else weight c b

  pub weight-assign_self : (c : Cause) (p : F) (b : List (Cause × F)) → weight c (assign c p b) ≡ p
  unfolding weight assign
  weight-assign_self c p [] = rw (cause_eq_refl c)
  weight-assign_self c p ((d, q) ∷ b) = ground (arith, weight-assign_self c p b)
