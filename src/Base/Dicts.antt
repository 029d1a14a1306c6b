-- ===== src/Base/Dicts.antt =====
-- Dictionaries, as association lists in the order in which their keys were first stored.
use mathlib.Core.Path.{◌≡◌}
use mathlib.Core.Logic.{inl, inr}
use mathlib.Core.Bool.{Bool, true, false}
use mathlib.Core.Option.{Option, none, some}
use mathlib.Core.List.{List, [], ◌∷◌}
use text.Mathlib.Text.{◌==◌ as str_eq}
use Prim.Native.String.{String}
use native.Mathlib.Omega.{arith}
use tactical_radio_jamming_s.Base.Logic.{if◌then◌else◌, is_some, Option-cases}

-- the equality of keys that may be `None`
abbrev pub same_key : Option String → Option String → Bool
same_key none none = true
same_key (some a) (some b) = str_eq a b
same_key _ _ = false

module _ {ℓ} {K : Type 0} {A : Type ℓ} (eq : K → K → Bool) where
  -- `d.get(k)`
  abbrev pub lookup : K → List (K × A) → Option A
  lookup k [] = none
  lookup k ((j, a) ∷ d) = let rest = lookup k d in if eq k j then some a else rest

  -- `d[k] = a`
  abbrev pub store : K → A → List (K × A) → List (K × A)
  store k a [] = (k, a) ∷ []
  store k a ((j, b) ∷ d) = let rest = store k a d in if eq k j then (j, a) ∷ d else (j, b) ∷ rest

  -- `k in d`
  abbrev pub has_key : K → List (K × A) → Bool
  has_key k d = is_some (lookup k d)

  -- Storing keeps the keys that are there.
  pub has_key-store :
      (k j : K) (a : A) (d : List (K × A)) → has_key k d ≡ true → has_key k (store j a d) ≡ true
  has_key-store k j a [] h = absurd (ground arith)
  has_key-store k j a ((i, b) ∷ d) h = ground (arith, has_key-store k j a d)

  pub lookup-has_key :
      (k : K) (d : List (K × A)) → has_key k d ≡ true → (a : A) × (lookup k d ≡ some a)
  lookup-has_key k d h = elim (Option-cases (lookup k d)) [
    | inl e ↦ absurd (ground arith)
    | inr found ↦ found
  ]
