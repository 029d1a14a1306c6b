-- ===== src/Scenario/Split/Families.antt =====
-- The family that is read off a numbered name.
use tactical_radio_jamming_s.Base.{
  ℕ, ◌==◌, ◌≡◌, refl, ◌∙◌, ap, sym, Bool, true, false, not, none, List, [], ◌∷◌, ◌++◌, any, all,
  keep, Bool-cases, inl, inr, arith,
}
use tactical_radio_jamming_s.Scenario.Split.{
  Name, Part, test, before_last, split_at, join_with, or_name, same_name, all_digits, keep_part,
  pop_digits, family_of, split_of, is_test, is_trainable, assert_no_leak,
}

abbrev pub has : ℕ → Name → Bool
has c = any (λ x. x == c)

same_name_refl : (n : Name) → same_name n n ≡ true
same_name_refl [] = refl
same_name_refl (x ∷ xs) = ground (arith, same_name_refl xs)

same_name_eq : (n m : Name) → same_name n m ≡ true → n ≡ m
same_name_eq [] [] h = refl
same_name_eq [] (y ∷ ys) h = absurd (cc)
same_name_eq (x ∷ xs) [] h = absurd (cc)
same_name_eq (x ∷ xs) (y ∷ ys) h =
    let first : x ≡ y = ground (arith, h) in
    let rest : xs ≡ ys = same_name_eq xs ys (ground (arith, h)) in
    ap (λ z. z ∷ xs) first ∙ ap (λ z. y ∷ z) rest

before_last_missing : (c : ℕ) (n : Name) → has c n ≡ false → before_last c n ≡ none
unfolding before_last
before_last_missing c [] h = refl
before_last_missing c (x ∷ xs) h = elim (Bool-cases (x == c)) [
  | inl e ↦ absurd (ground (arith, h, e))
  | inr e ↦ rw (before_last_missing c xs (ground (arith, h, e)), e) refl
]

split_at_missing : (c : ℕ) (n : Name) → has c n ≡ false → split_at c n ≡ n ∷ []
unfolding split_at
split_at_missing c [] h = refl
split_at_missing c (x ∷ xs) h = elim (Bool-cases (x == c)) [
  | inl e ↦ absurd (ground (arith, h, e))
  | inr e ↦ rw (split_at_missing c xs (ground (arith, h, e)), e) refl
]

split_at_some : (c : ℕ) (n : Name) → (p : Name) × (ps : List Name) × (split_at c n ≡ p ∷ ps)
unfolding split_at
split_at_some c [] = ([], [], refl)
split_at_some c (x ∷ xs) =
    let (p, ps, e) = split_at_some c xs in
    elim (Bool-cases (x == c)) [
      | inl t ↦ rw t ([], split_at c xs, refl)
      | inr t ↦ rw (t, e) (x ∷ p, ps, refl)
    ]

split_at-append :
    (c : ℕ) (n d : Name) → has c d ≡ false → split_at c (n ++ (c ∷ d)) ≡ split_at c n ++ (d ∷ [])
unfolding split_at
split_at-append c [] d h =
    let same : (c == c) ≡ true = ground arith in rw (same, split_at_missing c d h) refl
split_at-append c (x ∷ xs) d h =
    let (p, ps, e) = split_at_some c xs in
    elim (Bool-cases (x == c)) [
      | inl t ↦ rw (t, split_at-append c xs d h) refl
      | inr t ↦ rw (t, split_at-append c xs d h, e) refl
    ]

join_later :
    (c x : ℕ) (p : Name) (ps : List Name) → join_with c ((x ∷ p) ∷ ps) ≡ x ∷ join_with c (p ∷ ps)
unfolding join_with
join_later c x p [] = refl
join_later c x p (q ∷ ps) = refl

join_with-split_at : (c : ℕ) (n : Name) → join_with c (split_at c n) ≡ n
unfolding join_with split_at
join_with-split_at c [] = refl
join_with-split_at c (x ∷ xs) =
    let (p, ps, e) = split_at_some c xs in
    let rest : join_with c (p ∷ ps) ≡ xs = ap (join_with c) (sym e) ∙ join_with-split_at c xs in
    elim (Bool-cases (x == c)) [
      | inl t ↦
          rw (t, e)
            (let same : c ≡ x = ground (arith, t) in ap (λ n. c ∷ n) rest ∙ ap (λ y. y ∷ xs) same)
      | inr t ↦ rw (t, e) (join_later c x p ps ∙ ap (λ n. x ∷ n) rest)
    ]

module _ (is_digit : ℕ → Bool) where
  pop_digits-append :
      (ps : List Name) (d : Name)
      → all_digits is_digit d ≡ true
      → pop_digits is_digit (ps ++ (d ∷ [])) ≡ pop_digits is_digit ps
  unfolding pop_digits
  pop_digits-append [] d h = rw h refl
  pop_digits-append (p ∷ ps) d h = ap (keep_part is_digit p) (pop_digits-append ps d h)

  has_digits : (c : ℕ) (d : Name) → is_digit c ≡ false → all is_digit d ≡ true → has c d ≡ false
  has_digits c [] h k = refl
  has_digits c (x ∷ xs) h k = elim (Bool-cases (x == c)) [
    | inl e ↦
        let same : c ≡ x = ground (arith, e) in
        let digit : is_digit x ≡ true = ground (arith, k) in
        let no_digit : is_digit x ≡ false = ap is_digit (sym same) ∙ h in absurd (cc)
    | inr e ↦ rw e (has_digits c xs h (ground (arith, k)))
  ]

  has-append : (c : ℕ) (n d : Name) → has c n ≡ false → has c d ≡ false → has c (n ++ d) ≡ false
  has-append c [] d h k = k
  has-append c (x ∷ xs) d h k = elim (Bool-cases (x == c)) [
    | inl e ↦ absurd (ground (arith, h, e))
    | inr e ↦ rw e (has-append c xs d (ground (arith, h, e)) k)
  ]

  digits_all : (d : Name) → all_digits is_digit d ≡ true → all is_digit d ≡ true
  digits_all [] h = refl
  digits_all (x ∷ xs) h = h

  family_of_numbered :
      (x : ℕ) (xs d : Name)
      → is_digit b'_' ≡ false
      → is_digit b'#' ≡ false
      → has b'#' (x ∷ xs) ≡ false
      → all_digits is_digit d ≡ true
      → pop_digits is_digit (split_at b'_' (x ∷ xs)) ≡ split_at b'_' (x ∷ xs)
      → family_of is_digit ((x ∷ xs) ++ (b'_' ∷ d)) ≡ x ∷ xs
  unfolding family_of join_with pop_digits split_at before_last
  family_of_numbered x xs d under mark h dig own =
      let no_mark =
        has-append b'#' (x ∷ xs) (b'_' ∷ d) h (has_digits b'#' d mark (digits_all d dig)) in
      let parts = split_at-append b'_' (x ∷ xs) d (has_digits b'_' d under (digits_all d dig)) in
      let popped : pop_digits is_digit (split_at b'_' ((x ∷ xs) ++ (b'_' ∷ d)))
          ≡ split_at b'_' (x ∷ xs) =
        ap (pop_digits is_digit) parts ∙ pop_digits-append (split_at b'_' (x ∷ xs)) d dig ∙ own in
      rw (before_last_missing b'#' ((x ∷ xs) ++ (b'_' ∷ d)) no_mark) (
        ap (λ n. or_name n ((x ∷ xs) ++ (b'_' ∷ d)))
          (ap (join_with b'_') popped ∙ join_with-split_at b'_' (x ∷ xs)))

  -- If the characters `_` and `#` are no digits, a name that is a family, an underscore and a number
  -- belongs to that family, if the family is not empty, has no `#` and does not end in a number itself;
  -- if it is the family held out, the name is in the test part, whatever its hash is.
  pub family_of-split_of :
      (x : ℕ) (xs d : Name) (bucket : Name → ℕ)
      → is_digit b'_' ≡ false
      → is_digit b'#' ≡ false
      → has b'#' (x ∷ xs) ≡ false
      → all_digits is_digit d ≡ true
      → pop_digits is_digit (split_at b'_' (x ∷ xs)) ≡ split_at b'_' (x ∷ xs)
      → let name = (x ∷ xs) ++ (b'_' ∷ d) in
        (family_of is_digit name ≡ x ∷ xs) × (split_of is_digit (x ∷ xs) bucket name none ≡ test)
  unfolding split_of
  family_of-split_of x xs d bucket under mark h dig own =
      let family = family_of_numbered x xs d under mark h dig own in
      let same : (x == x) ≡ true = ground arith in
      (family, rw (family, same, same_name_refl xs) refl)

  module _ (held_out : Name) (bucket : Name → ℕ) where
    abbrev part_of : Name → Part
    part_of n = split_of is_digit held_out bucket n none

    abbrev tests : List Name → List Name
    tests = keep (λ n. is_test (part_of n))

    not_tested :
        (n : Name) (ms : List Name)
        → is_test (part_of n) ≡ false
        → any (same_name n) (tests ms) ≡ false
    not_tested n [] h = refl
    not_tested n (m ∷ ms) h = elim (Bool-cases (is_test (part_of m))) [
      | inr e ↦ rw e (not_tested n ms h)
      | inl e ↦ rw e (elim (Bool-cases (same_name n m)) [
        | inr f ↦ rw f (not_tested n ms h)
        | inl f ↦ let clash = ap (λ z. is_test (part_of z)) (same_name_eq n m f) in absurd (cc)
      ])
    ]

    leaks :
        (ns ms : List Name)
        → any
            (λ n. any (same_name n) (tests ms))
            (keep (λ n. is_trainable is_digit held_out bucket n none) ns)
          ≡ false
    leaks [] ms = refl
    leaks (n ∷ ns) ms = elim (Bool-cases (is_test (part_of n))) [
      | inl e ↦ rw e (leaks ns ms)
      | inr e ↦ rw (e, not_tested n ms e) (leaks ns ms)
    ]

    -- Whatever names they are taken from, the names that can be trained on and those in the test part
    -- pass the assertion that no name is in both.
    no_leak :
        (ns ms : List Name)
        → assert_no_leak
            (keep (λ n. is_trainable is_digit held_out bucket n none) ns)
            (keep (λ n. is_test (split_of is_digit held_out bucket n none)) ms)
          ≡ true
    no_leak ns ms = ap not (leaks ns ms)
