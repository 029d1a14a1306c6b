-- ===== src/Agents/Student/Guards.antt =====
-- What a decision of the student always is.
use tactical_radio_jamming_s.Base.{
  ℕ, ◌<◌, ◌≡◌, refl, ◌⊎◌, inl, inr, true, false, some, List, [], ◌∷◌, map, length, get_elem?, all,
  ltb, Number,
}
use tactical_radio_jamming_s.Api.{Cause, Call, Decision, Context, contains, no_op}
use tactical_radio_jamming_s.Agents.Student.{Numpy, Student, declare, abstention, played, belief_of}

-- What numpy documents of the positions that it returns, for this student: they are positions.
pub record IsSized {F : Type 0} ⦃num : Number F⦄ (np : Numpy F) (st : Student F) : Type 0 where
  pub argmax_in : (p : List F) → 0 < length p → np.argmax p < length p
  pub argmin_in : (p : List F) → 0 < length p → np.argmin p < length p
  pub argsort_in : (p : List F) → all (λ i. ltb i (length p)) (np.argsort p) ≡ true
  pub cost_sized : (p : List F) → length (np.expected_cost p) ≡ length p
  pub call_sized : (x : List F) → length (st.call.run x) ≡ length st.call.classes
  pub ordered : 0 < length st.cost_order

-- The pick is `no_op` or the first class, in the order of the scores, that the mask allows.
pub data IsPick (classes available : List Call) : List ℕ → Call → Type 0 where
  idle : IsPick classes available [] no_op
  here :
      {order : List ℕ} {i : ℕ} {c : Call}
      → get_elem? classes i ≡ some c
      → contains c available ≡ true
      → IsPick classes available (i ∷ order) c
  later :
      {order : List ℕ} {i : ℕ} {c d : Call}
      → get_elem? classes i ≡ some c
      → contains c available ≡ false
      → IsPick classes available order d
      → IsPick classes available (i ∷ order) d

-- A pick is idle or allowed.
IsPick-contains :
    {classes available : List Call} {order : List ℕ} {c : Call}
    → IsPick classes available order c
    → (c ≡ no_op) ⊎ (contains c available ≡ true)
IsPick-contains idle = inl refl
IsPick-contains (here e k) = inr k
IsPick-contains (later e k p) = IsPick-contains p

module _ {F : Type 0} ⦃num : Number F⦄ (np : Numpy F) (st : Student F) (sized : IsSized np st) where
  open num use {lt, neg}
  open sized use {argmax_in, argmin_in, argsort_in, cost_sized, call_sized, ordered}

  -- How a decision comes about: an abstention, or the call that was picked.
  pub data IsDecided (x : List F) (ctx : Context F) : Decision F → Type 0 where
    abstains :
        {top : Cause} {conf : F}
        → declare np st (st.cause.run x) ≡ some (top, conf)
        → lt conf st.abstain ≡ true
        → IsDecided x ctx (abstention (belief_of st (st.cause.run x)) conf)
    plays :
        {top : Cause} {conf : F} {c : Call}
        → declare np st (st.cause.run x) ≡ some (top, conf)
        → lt conf st.abstain ≡ false
        → IsPick st.call.classes ctx.available (np.argsort (map neg (st.call.run x))) c
        → IsDecided x ctx (played (belief_of st (st.cause.run x)) top conf ctx c)

  IsDecided-contains :
      {x : List F} {ctx : Context F} {d : Decision F}
      → IsDecided x ctx d
      → (d.call ≡ no_op) ⊎ (contains d.call ctx.available ≡ true)
  IsDecided-contains (abstains e l) = inl refl
  IsDecided-contains (plays e l p) = IsPick-contains p
