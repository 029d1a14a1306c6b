-- ===== src/Percept/Ring/Tail.antt =====
-- A ring that was filled sample by sample holds the last of them, in their order.
use tactical_radio_jamming_s.Base.{
  ℕ, zero, suc, ◌-◌, ◌≤◌, ◌<◌, ◌≡◌, refl, ◌∙◌, ap, sym, List, [], ◌∷◌, ◌++◌, length, drop, arith,
  length-append, ltb, true, Bool-cases, inl, inr,
}
use tactical_radio_jamming_s.Percept.Ring.{Ring, new, push, values}
use tactical_radio_jamming_s.Percept.Ring.Queue.{
  IsValid, new-IsValid, push-IsValid, enqueue, enqueue_more, enqueue_full, values-push,
}

module _ {A : Type 0} where
  -- the last `cap` of a list
  unfoldable pub latest : ℕ → List A → List A
  latest cap xs = drop (length xs - cap) xs

  length-drop : (n : ℕ) (xs : List A) → length (drop n xs) ≡ length xs - n
  length-drop zero xs = omega arith
  length-drop (suc n) [] = omega arith
  length-drop (suc n) (x ∷ xs) = omega (arith, length-drop n xs)

  drop-drop : (n : ℕ) (xs : List A) → drop 1 (drop n xs) ≡ drop (suc n) xs
  drop-drop zero [] = refl
  drop-drop zero (x ∷ xs) = refl
  drop-drop (suc n) [] = refl
  drop-drop (suc n) (x ∷ xs) = drop-drop n xs

  drop-append : (n : ℕ) (xs ys : List A) → n ≤ length xs → drop n (xs ++ ys) ≡ drop n xs ++ ys
  drop-append zero xs ys h = refl
  drop-append (suc n) [] ys h = absurd (omega (arith, h))
  drop-append (suc n) (x ∷ xs) ys h = drop-append n xs ys (omega (arith, h))

  enqueue-latest :
      (cap : ℕ) (v : A) (xs : List A)
      → 0 < cap
      → enqueue cap v (latest cap xs) ≡ latest cap (xs ++ (v ∷ []))
  unfolding latest
  enqueue-latest cap v xs room =
      let n = length xs in
      let all_of = length-append xs (v ∷ []) in
      elim (Bool-cases (ltb n cap)) [
        | inl more ↦
            let none_out : n - cap ≡ 0 = ground (arith, more) in
            let still : length (xs ++ (v ∷ [])) - cap ≡ 0 = ground (arith, more, all_of) in
            rw (none_out, still) (enqueue_more cap v xs (ground (arith, more)))
        | inr full ↦
            let one_out : length (xs ++ (v ∷ [])) - cap ≡ suc (n - cap) =
              ground (arith, full, all_of) in
            enqueue_full cap v (drop (n - cap) xs) (ground (arith, full, length-drop (n - cap) xs))
            ∙ ap (λ q. q ++ (v ∷ [])) (drop-drop (n - cap) xs)
            ∙ sym (drop-append (suc (n - cap)) xs (v ∷ []) (ground (arith, full, room)))
            ∙ ap (λ k. drop k (xs ++ (v ∷ []))) (sym one_out)
      ]

  drop-nil : (n : ℕ) → drop {A = A} n [] ≡ []
  drop-nil zero = refl
  drop-nil (suc n) = refl

  cap-push : (v : A) (r : Ring A) → (push v r).cap ≡ r.cap
  unfolding push
  cap-push v r = refl

  -- The ring holds the last `cap` of the samples.
  pub record HasLatest (cap : ℕ) (samples : List A) (r : Ring A) : Type 0 where
    pub valid : IsValid r
    pub cap_eq : r.cap ≡ cap
    pub values_eq : values r ≡ latest cap samples

  pub new-HasLatest : (fill : A) (cap : ℕ) → 0 < cap → HasLatest cap [] (new fill cap)
  unfolding new values latest
  new-HasLatest fill cap h =
      let less : ltb 0 cap ≡ true = ground (arith, h) in
      record {
        valid = new-IsValid fill cap h;
        cap_eq = refl;
        values_eq = rw (less) (sym (drop-nil (0 - cap)));
      }

  pub push-HasLatest :
      {cap : ℕ} {samples : List A} (v : A) (r : Ring A)
      → HasLatest cap samples r
      → HasLatest cap (samples ++ (v ∷ [])) (push v r)
  push-HasLatest {cap} {samples} v r h =
      let room : 0 < cap = omega (arith, h.cap_eq, h.valid.has_room) in
      record {
        valid = push-IsValid v r h.valid;
        cap_eq = cap-push v r ∙ h.cap_eq;
        values_eq =
            values-push v r h.valid
            ∙ ap (λ k. enqueue k v (values r)) h.cap_eq
            ∙ ap (enqueue cap v) h.values_eq
            ∙ enqueue-latest cap v samples room;
      }
