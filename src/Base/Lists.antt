-- ===== src/Base/Lists.antt =====
-- Lists measured by native numbers, Boolean searches, and a predicate on all members.
use Prim.Native.Nat.{ℕ, zero, suc, ◌+◌, ◌<◌, ◌≤◌}
use mathlib.Core.Path.{◌≡◌, refl, sym, ◌∙◌}
use mathlib.Core.Bool.{Bool, true, false, ◌&&◌, ◌||◌}
use mathlib.Core.List.{List, [], ◌∷◌, ◌++◌}
use mathlib.Core.Option.{Option, none, some}
use native.Mathlib.Omega.{arith}
use tactical_radio_jamming_s.Base.Logic.{if◌then◌else◌}

module _ {ℓ} {A : Type ℓ} where
  abbrev pub length : List A → ℕ
  length [] = 0
  length (x ∷ xs) = suc (length xs)

  pub length-append : (xs ys : List A) → length (xs ++ ys) ≡ length xs + length ys
  length-append [] ys = omega arith
  length-append (x ∷ xs) ys = omega (arith, length-append xs ys)

  abbrev pub get_elem? : List A → ℕ → Option A
  get_elem? [] i = none
  get_elem? (x ∷ xs) zero = some x
  get_elem? (x ∷ xs) (suc i) = get_elem? xs i

  -- `xs[:n]`
  abbrev pub take : ℕ → List A → List A
  take zero xs = []
  take (suc n) [] = []
  take (suc n) (x ∷ xs) = x ∷ take n xs

  -- `xs[n:]`
  abbrev pub drop : ℕ → List A → List A
  drop zero xs = xs
  drop (suc n) [] = []
  drop (suc n) (x ∷ xs) = drop n xs

  -- `xs[-1]`
  abbrev pub last? : List A → Option A
  last? [] = none
  last? (x ∷ []) = some x
  last? (x ∷ y ∷ xs) = last? (y ∷ xs)

  -- `any(p(x) for x in xs)`
  abbrev pub any : (A → Bool) → List A → Bool
  any p [] = false
  any p (x ∷ xs) = p x || any p xs

  -- `all(p(x) for x in xs)`
  abbrev pub all : (A → Bool) → List A → Bool
  all p [] = true
  all p (x ∷ xs) = p x && all p xs

  -- `[x for x in xs if p(x)]`
  abbrev pub keep : (A → Bool) → List A → List A
  keep p [] = []
  keep p (x ∷ xs) = let rest = keep p xs in if p x then x ∷ rest else rest

  -- `next((x for x in xs if p(x)), None)`
  abbrev pub find : (A → Bool) → List A → Option A
  find p [] = none
  find p (x ∷ xs) = let rest = find p xs in if p x then some x else rest

  -- `sum(1 for x in xs if p(x))`
  abbrev pub count : (A → Bool) → List A → ℕ
  count p [] = 0
  count p (x ∷ xs) = (if p x then 1 else 0) + count p xs

  pub any-append : (p : A → Bool) (xs ys : List A) → any p (xs ++ ys) ≡ (any p xs || any p ys)
  any-append p [] ys = refl
  any-append p (x ∷ xs) ys = ground (arith, any-append p xs ys)

  pub count-append : (p : A → Bool) (xs ys : List A) → count p (xs ++ ys) ≡ count p xs + count p ys
  count-append p [] ys = omega arith
  count-append p (x ∷ xs) ys = omega (arith, count-append p xs ys)

  abbrev pub All {κ} : (A → Type κ) → List A → Type κ
  All P [] = Unit
  All P (x ∷ xs) = P x × All P xs

  pub All-append {κ} : (P : A → Type κ) (xs ys : List A) → All P xs → All P ys → All P (xs ++ ys)
  All-append P [] ys p q = q
  All-append P (x ∷ xs) ys p q = (p.0, All-append P xs ys p.1 q)

  -- A member that was kept passes the filter.
  pub any-keep : (p q : A → Bool) (xs : List A) → any p (keep q xs) ≡ any (λ x. q x && p x) xs
  any-keep p q [] = refl
  any-keep p q (x ∷ xs) = ground (arith, any-keep p q xs)

  pub any-last? :
      (p : A → Bool) (xs : List A) {x : A} → last? xs ≡ some x → p x ≡ true → any p xs ≡ true
  any-last? p [] e h = cc
  any-last? p (y ∷ []) e h = ground arith
  any-last? p (y ∷ z ∷ xs) e h = ground (arith, any-last? p (z ∷ xs) e h)

  pub last?-none : (xs : List A) (p : A → Bool) → last? xs ≡ none → any p xs ≡ false
  last?-none [] p e = refl
  last?-none (y ∷ []) p e = cc
  last?-none (y ∷ z ∷ xs) p e = absurd (last?-cons y z xs e)
    where
      last?-cons : (y z : A) (xs : List A) → ¬ (last? (y ∷ z ∷ xs) ≡ none)
      last?-cons y z [] e = cc
      last?-cons y z (x ∷ xs) e = last?-cons z x xs e

  pub any-and : (p q : A → Bool) (xs : List A) → any (λ x. q x && p x) xs ≡ true → any p xs ≡ true
  any-and p q [] h = h
  any-and p q (x ∷ xs) h = ground (arith, any-and p q xs)

  -- The last of the members that pass a filter is a member.
  pub any-last?-keep :
      (p q : A → Bool) (xs : List A) {x : A}
      → last? (keep q xs) ≡ some x
      → p x ≡ true
      → any p xs ≡ true
  any-last?-keep p q xs e h = any-and p q xs (sym (any-keep p q xs) ∙ any-last? p (keep q xs) e h)

  pub any-and_self : (p : A → Bool) (xs : List A) → any (λ x. p x && p x) xs ≡ any p xs
  any-and_self p [] = refl
  any-and_self p (x ∷ xs) = ground (arith, any-and_self p xs)

  pub keep-last? : (q : A → Bool) (xs : List A) {x : A} → last? (keep q xs) ≡ some x → q x ≡ true
  keep-last? q xs {x} e = passes q (keep q xs) (keep-all q xs) e
    where
      keep-all : (q : A → Bool) (xs : List A) → all q (keep q xs) ≡ true
      keep-all q [] = refl
      keep-all q (x ∷ xs) = ground (arith, keep-all q xs)

      passes :
          (q : A → Bool) (ys : List A) {x : A} → all q ys ≡ true → last? ys ≡ some x → q x ≡ true
      passes q [] h e = cc
      passes q (y ∷ []) h e = ground arith
      passes q (y ∷ z ∷ ys) h e = passes q (z ∷ ys) (ground arith) e

  -- `xs[i] = v`; out of bounds it changes nothing
  abbrev pub set : List A → ℕ → A → List A
  set [] i v = []
  set (x ∷ xs) zero v = v ∷ xs
  set (x ∷ xs) (suc i) v = x ∷ set xs i v

  abbrev pub replicate : ℕ → A → List A
  replicate zero a = []
  replicate (suc n) a = a ∷ replicate n a

  pub length-replicate : (n : ℕ) (a : A) → length (replicate n a) ≡ n
  length-replicate zero a = refl
  length-replicate (suc n) a = omega (arith, length-replicate n a)

  pub length-set : (xs : List A) (i : ℕ) (v : A) → length (set xs i v) ≡ length xs
  length-set [] i v = refl
  length-set (x ∷ xs) zero v = refl
  length-set (x ∷ xs) (suc i) v = omega (arith, length-set xs i v)

  pub take-set :
      (xs : List A) (i : ℕ) (v : A)
      → i < length xs
      → take (suc i) (set xs i v) ≡ take i xs ++ (v ∷ [])
  take-set [] i v h = absurd (omega arith)
  take-set (x ∷ xs) zero v h = refl
  take-set (x ∷ xs) (suc i) v h = ground (arith, take-set xs i v)

  pub drop-set : (xs : List A) (i : ℕ) (v : A) → drop (suc i) (set xs i v) ≡ drop (suc i) xs
  drop-set [] i v = refl
  drop-set (x ∷ xs) zero v = refl
  drop-set (x ∷ xs) (suc i) v = drop-set xs i v

  pub drop-one :
      (xs ys : List A) (i : ℕ) → i < length xs → drop 1 (drop i xs ++ ys) ≡ drop (suc i) xs ++ ys
  drop-one [] ys i h = absurd (omega arith)
  drop-one (x ∷ xs) ys zero h = refl
  drop-one (x ∷ xs) ys (suc i) h = drop-one xs ys i (omega arith)

  pub take-all : (xs : List A) (n : ℕ) → length xs ≤ n → take n xs ≡ xs
  take-all [] zero h = refl
  take-all [] (suc n) h = refl
  take-all (x ∷ xs) zero h = absurd (omega arith)
  take-all (x ∷ xs) (suc n) h = ground (arith, take-all xs n)

  pub drop-all : (xs : List A) (n : ℕ) → length xs ≤ n → drop n xs ≡ []
  drop-all [] zero h = refl
  drop-all [] (suc n) h = refl
  drop-all (x ∷ xs) zero h = absurd (omega arith)
  drop-all (x ∷ xs) (suc n) h = drop-all xs n (omega arith)
