-- ===== src/Corpus/Search.antt =====
-- The search for scenarios of the corpus ends.
use tactical_radio_jamming_s.Base.{
  ℕ, zero, suc, ◌+◌, ◌-◌, ◌≤◌, String, ◌≡◌, refl, Bool, true, false, Option, none, some, List, [],
  ◌∷◌, ◌++◌, all, length, length-append, is_some, Bool-cases, Option-cases, inl, inr, arith,
}
use tactical_radio_jamming_s.Scenario.{Scenario}
use tactical_radio_jamming_s.Corpus.{Haul, noted, goes_on, gather, search}

pub all-added :
    {A : Type 0} (p : A → Bool) (xs : List A) (x : A)
    → all p xs ≡ true
    → p x ≡ true
    → all p (xs ++ (x ∷ [])) ≡ true
all-added p [] x h k = ground arith
all-added p (y ∷ xs) x h k = ground (arith, all-added p xs x)

module _ {F : Type 0} (check : Scenario F → Option Bool) (make : String → ℕ → Scenario F)
    (checks : (fam : String) (seed : ℕ) → is_some (check (make fam seed)) ≡ true) where
  abbrev pub passes : Scenario F → Bool
  passes sc = elim (check sc) [ none ↦ false | some ok ↦ ok ]

  module _ (per limit : ℕ) where
    -- Every seed that was tried gave a scenario that is kept or one that is rejected.
    pub record IsGathered (h h' : Haul F) : Type 0 where
      pub tried : h'.seed + length h.out + h.rejected ≡ h.seed + length h'.out + h'.rejected
      pub within : h.seed ≤ limit → h'.seed ≤ limit
      pub kept : all passes h.out ≡ true → all passes h'.out ≡ true

    IsGathered-refl : (h : Haul F) → IsGathered h h
    IsGathered-refl h = record { tried = refl; within = λ l. l; kept = λ k. k }

    IsGathered-trans : {a b c : Haul F} → IsGathered a b → IsGathered b c → IsGathered a c
    IsGathered-trans p q = record {
      tried = omega (arith, p.tried, q.tried);
      within = λ l. q.within (p.within l);
      kept = λ k. q.kept (p.kept k);
    }

    noted-IsGathered :
        (sc : Scenario F) (ok : Bool) (h : Haul F)
        → check sc ≡ some ok
        → goes_on check make per limit h ≡ true
        → IsGathered h (noted check make per limit sc ok h)
    noted-IsGathered sc true h e g = record {
      tried = omega (arith, length-append h.out (sc ∷ []));
      within = λ l. ground arith;
      kept = λ k. all-added passes h.out sc k (ground arith);
    }
    noted-IsGathered sc false h e g = record {
      tried = omega arith;
      within = λ l. ground arith;
      kept = λ k. k;
    }

    seed-noted :
        (sc : Scenario F) (ok : Bool) (h : Haul F)
        → (noted check make per limit sc ok h).seed ≡ h.seed + 1
    seed-noted sc true h = refl
    seed-noted sc false h = refl

    -- If the check of every scenario returns, the search for a family ends, with as much fuel as there
    -- are seeds left, because it has found enough or has run out of seeds. Every seed it tried gave a
    -- scenario that it kept, which passes the check, or one that it rejected.
    pub gather_finishes :
        (fuel : ℕ) (fam : String) (h : Haul F)
        → limit ≤ fuel + h.seed
        → (h' : Haul F) × (gather check make per limit fuel fam h ≡ some h')
          × (goes_on check make per limit h' ≡ false)
          × IsGathered h h'
    unfolding gather
    gather_finishes zero fam h l = (h, refl, ground arith, IsGathered-refl h)
    gather_finishes (suc fuel) fam h l = elim (Bool-cases (goes_on check make per limit h)) [
      | inr g ↦ (h, rw (g, gather) refl, g, IsGathered-refl h)
      | inl g ↦ elim (Option-cases (check (make fam h.seed))) [
        | inl e ↦ absurd (ground (arith, checks fam h.seed))
        | inr (ok, e) ↦
            let step = noted-IsGathered (make fam h.seed) ok h e g in
            let (h', f, d, i) =
              gather_finishes fuel fam (noted check make per limit (make fam h.seed) ok h)
                (omega (arith, l, seed-noted (make fam h.seed) ok h)) in
            (h', rw (g, gather) (rw e f), d, IsGathered-trans step i)
      ]
    ]

    pub search_finishes :
        (fams : List String) (h : Haul F)
        → (h' : Haul F) × (search check make per limit fams h ≡ some h') × IsGathered h h'
    unfolding search
    search_finishes [] h = (h, refl, IsGathered-refl h)
    search_finishes (fam ∷ fams) h =
        let (h1, e, d, i) =
          gather_finishes (limit - h.seed) fam (record h { made = 0 }) (omega arith) in
        let (h2, f, j) = search_finishes fams h1 in
        (
          h2,
          rw (e, search) f,
          IsGathered-trans (record { tried = i.tried; within = i.within; kept = i.kept }) j,
        )
