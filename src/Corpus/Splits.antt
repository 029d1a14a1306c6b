-- ===== src/Corpus/Splits.antt =====
-- The corpus that is built, and its split: no scenario of the family held out is trained on.
use mathlib.Core.List.{append-nil, append_assoc}
use tactical_radio_jamming_s.Corpus.Search.{passes, search_finishes}
use tactical_radio_jamming_s.Base.{
  ℕ, ◌+◌, ◌≤◌, String, ◌≡◌, refl, Bool, true, false, not, Option, some, List, [], ◌∷◌, ◌++◌, all,
  keep, leb, ◌&&◌, ◌||◌, ◌∙◌, length, ltb, is_some, Bool-cases, inl, inr, arith,
}
use tactical_radio_jamming_s.Scenario.{Scenario}
use tactical_radio_jamming_s.Corpus.{
  Haul, search, Split, family_list, is_held, place, split, split, empty_split, empty_haul,
  per_family, build,
}

module _ {F : Type 0} (bucket : Scenario F → ℕ) (hold : String) where
  abbrev pub size : Split F → ℕ
  size sp = length sp.train + length sp.val + length sp.test

  -- none of the family held out
  abbrev pub is_clean : List (Scenario F) → Bool
  is_clean scs = all (λ sc. not (is_held bucket hold sc)) scs

  -- The parts that a scenario belongs to by its family and its bucket.
  abbrev pub to_train : Scenario F → Bool
  to_train sc = not (is_held bucket hold sc) && ltb (bucket sc) 70

  abbrev pub to_val : Scenario F → Bool
  to_val sc = not (is_held bucket hold sc) && leb 70 (bucket sc) && ltb (bucket sc) 85

  abbrev pub to_test : Scenario F → Bool
  to_test sc = is_held bucket hold sc || leb 85 (bucket sc)

  -- The split of some scenarios: each part has those that belong to it, in their order, none is lost and
  -- none is in two parts; nothing held out is trained on, and all of them pass a test.
  pub record IsSplit (p : Scenario F → Bool) (scs : List (Scenario F)) (sp : Split F) : Type 0 where
    pub train_eq : sp.train ≡ keep to_train scs
    pub val_eq : sp.val ≡ keep to_val scs
    pub test_eq : sp.test ≡ keep to_test scs
    pub sized : size sp ≡ length scs
    pub train_clean : is_clean sp.train ≡ true
    pub val_clean : is_clean sp.val ≡ true
    pub passing : all p scs ≡ true

  -- the three parts of a list behind those of a split
  abbrev joined : Split F → List (Scenario F) → Split F
  joined sp scs = record {
    train = sp.train ++ keep to_train scs;
    val = sp.val ++ keep to_val scs;
    test = sp.test ++ keep to_test scs;
  }

  behind :
      (xs : List (Scenario F)) (sc : Scenario F) (ys : List (Scenario F))
      → (xs ++ (sc ∷ [])) ++ ys ≡ xs ++ (sc ∷ ys)
  behind xs sc ys = append_assoc xs (sc ∷ []) ys

  joined-place :
      (sc : Scenario F) (scs : List (Scenario F)) (sp : Split F)
      → joined (place bucket hold sc sp) scs ≡ joined sp (sc ∷ scs)
  joined-place sc scs sp = elim (Bool-cases (is_held bucket hold sc)) [
    | inl e ↦ rw (e, behind sp.test sc (keep to_test scs)) refl
    | inr e ↦ elim (Bool-cases (ltb (bucket sc) 70)) [
      | inl l ↦
          let low : leb 70 (bucket sc) ≡ false = ground arith in
          let low' : leb 85 (bucket sc) ≡ false = ground arith in
          rw (e, l, low, low', behind sp.train sc (keep to_train scs)) refl
      | inr l ↦
          let high : leb 70 (bucket sc) ≡ true = ground arith in
          elim (Bool-cases (ltb (bucket sc) 85)) [
            | inl m ↦
                let low : leb 85 (bucket sc) ≡ false = ground arith in
                rw (e, l, m, high, low, behind sp.val sc (keep to_val scs)) refl
            | inr m ↦
                let top : leb 85 (bucket sc) ≡ true = ground arith in
                rw (e, l, m, high, top, behind sp.test sc (keep to_test scs)) refl
          ]
    ]
  ]

  split-joined : (scs : List (Scenario F)) (sp : Split F) → split bucket hold scs sp ≡ joined sp scs
  unfolding split
  split-joined [] sp = rw (append-nil sp.train, append-nil sp.val, append-nil sp.test) refl
  split-joined (sc ∷ scs) sp = split-joined scs (place bucket hold sc sp) ∙ joined-place sc scs sp

  size-keep :
      (scs : List (Scenario F))
      → length (keep to_train scs) + length (keep to_val scs) + length (keep to_test scs)
        ≡ length scs
  size-keep [] = refl
  size-keep (sc ∷ scs) = ground (arith, size-keep scs)

  clean_train : (scs : List (Scenario F)) → is_clean (keep to_train scs) ≡ true
  clean_train [] = refl
  clean_train (sc ∷ scs) = ground (arith, clean_train scs)

  clean_val : (scs : List (Scenario F)) → is_clean (keep to_val scs) ≡ true
  clean_val [] = refl
  clean_val (sc ∷ scs) = ground (arith, clean_val scs)

  split-IsSplit :
      (p : Scenario F → Bool) (scs : List (Scenario F))
      → all p scs ≡ true
      → IsSplit p scs (split bucket hold scs empty_split)
  split-IsSplit p scs h = rw (split-joined scs empty_split) (record {
    train_eq = refl;
    val_eq = refl;
    test_eq = refl;
    sized = size-keep scs;
    train_clean = clean_train scs;
    val_clean = clean_val scs;
    passing = h;
  })

-- If the check of every scenario returns, the search finds some scenarios within 100000 tries, every one
-- of which passes the check, and the corpus that is built is their split. Each part has exactly the
-- scenarios that belong to it by their family and their bucket, in the order in which they were found;
-- none is lost and none is in two parts. No scenario of the family held out is trained or validated on.
pub build-IsSplit :
    {F : Type 0} (check : Scenario F → Option Bool) (make : String → ℕ → Scenario F)
    (checks : (fam : String) (seed : ℕ) → is_some (check (make fam seed)) ≡ true)
    (bucket : Scenario F → ℕ) (hold : String) (n_target seed0 : ℕ)
    → let per = per_family check make bucket hold n_target in
      (h : Haul F) × (sp : Split F) × (search check make per
          (seed0 + 100_000)
          family_list
          (empty_haul seed0)
        ≡ some h)
      × (build check make bucket hold n_target seed0 ≡ some (sp, h.rejected))
      × IsSplit bucket hold (passes check make checks) h.out sp
      × (length h.out + h.rejected ≤ 100_000)
unfolding build
build-IsSplit check make checks bucket hold n_target seed0 =
    let per = per_family check make bucket hold n_target in
    let (h, e, i) =
      search_finishes check make checks per (seed0 + 100_000) family_list (empty_haul seed0) in
    (
      h,
      split bucket hold h.out empty_split,
      e,
      rw (e, build) refl,
      split-IsSplit bucket hold (passes check make checks) h.out (i.kept refl),
      omega (arith, i.tried, i.within (omega arith)),
    )
