-- ===== src/Verifier/Detection.antt =====
-- What the verifier counts as the first correct classification.
use tactical_radio_jamming_s.Base.{
  ◌≡◌, ◌⊎◌, refl, ap, Bool, true, false, Option, none, some, List, [], ◌∷◌, ◌++◌, Number, arith,
  any, Bool-cases, inl, inr, lit,
}
use mathlib.Core.List.{append-nil}
use tactical_radio_jamming_s.Api.{Cause, cause_eq_refl, cause_eq→eq}
use tactical_radio_jamming_s.Controller.State.{Contract, TraceRow, ActionRow}
use tactical_radio_jamming_s.Verifier.Score.{
  claim, same_claim, detects, is_claim_of, sustained_by, acted_upon, first_correct,
}

module _ {F : Type 0} ⦃num : Number F⦄ (k : Contract F) where
  module _ (c : Cause) (acts : List (ActionRow F)) where
    -- A confident claim of the cause.
    pub record IsClaim (r : TraceRow F) : Type 0 where
      pub names : claim r ≡ some c
      pub sure : num.le k.act_confidence r.p ≡ true

    -- An action at the time of the row or at most two seconds later.
    pub record IsActedOn (r : TraceRow F) : Type 0 where
      pub before : List (ActionRow F)
      pub action : ActionRow F
      pub after : List (ActionRow F)
      pub among : acts ≡ before ++ (action ∷ after)
      pub not_early : num.le r.t action.t ≡ true
      pub in_time : num.le action.t (num.add r.t (lit 2 0)) ≡ true

    -- The next row makes the claim as well.
    abbrev pub IsSustained : List (TraceRow F) → Type 0
    IsSustained [] = ⊥
    IsSustained (r ∷ rest) = IsClaim r

    -- What a detection is: a confident claim that is sustained or acted upon.
    abbrev pub IsDetection : TraceRow F → List (TraceRow F) → Type 0
    IsDetection r rest = IsClaim r × (IsSustained rest ⊎ IsActedOn r)

    -- No row of `rows`, which `rest` follows, is a detection.
    abbrev pub NoDetection : List (TraceRow F) → List (TraceRow F) → Type 0
    NoDetection [] rest = Unit
    NoDetection (r ∷ rows) rest = (¬ IsDetection r (rows ++ rest)) × NoDetection rows rest

    -- What the time of the first correct classification says of the trace.
    abbrev pub IsFirst : List (TraceRow F) → Option F → Type 0
    IsFirst trace none = NoDetection trace []
    IsFirst trace (some t) =
        (before : List (TraceRow F)) × (row : TraceRow F) × (after : List (TraceRow F)) × (trace
          ≡ before ++ (row ∷ after))
        × (t ≡ row.t)
        × IsDetection row after
        × NoDetection before (row ∷ after)

    same_claim-eq : (o : Option Cause) → same_claim o (some c) ≡ true → o ≡ some c
    same_claim-eq none h = absurd (cc)
    same_claim-eq (some d) h = ap some (cause_eq→eq d c h)

    is_claim_of-IsClaim : (r : TraceRow F) → is_claim_of k c r ≡ true → IsClaim r
    unfolding is_claim_of
    is_claim_of-IsClaim r h = record {
      names = same_claim-eq (claim r) (ground arith);
      sure = ground arith;
    }

    IsClaim-is_claim_of : (r : TraceRow F) → IsClaim r → is_claim_of k c r ≡ true
    unfolding is_claim_of
    IsClaim-is_claim_of r h = rw (h.names, h.sure, cause_eq_refl c) refl

    any-split :
        {A : Type 0} (p : A → Bool) (xs : List A)
        → any p xs ≡ true
        → (before : List A) × (x : A) × (after : List A) × (xs ≡ before ++ (x ∷ after))
          × (p x ≡ true)
    any-split p [] h = absurd (cc)
    any-split p (x ∷ xs) h = elim (Bool-cases (p x)) [
      | inl e ↦ ([], x, xs, refl, e)
      | inr e ↦
          let (b, y, a, s, q) = any-split p xs (ground (arith, h, e)) in
          (x ∷ b, y, a, ap (◌∷◌ x) s, q)
    ]

    any-middle :
        {A : Type 0} (p : A → Bool) (before : List A) (x : A) (after : List A)
        → p x ≡ true
        → any p (before ++ (x ∷ after)) ≡ true
    any-middle p [] x after h = rw h refl
    any-middle p (y ∷ before) x after h = ground (arith, any-middle p before x after h)

    acted_upon-IsActedOn : (r : TraceRow F) → acted_upon acts r ≡ true → IsActedOn r
    unfolding acted_upon
    acted_upon-IsActedOn r h =
        let (b, x, a, s, q) = any-split _ acts h in
        record {
          before = b;
          action = x;
          after = a;
          among = s;
          not_early = ground (arith, q);
          in_time = ground (arith, q);
        }

    IsActedOn-acted_upon : (r : TraceRow F) → IsActedOn r → acted_upon acts r ≡ true
    unfolding acted_upon
    IsActedOn-acted_upon r h =
        rw (h.among) (any-middle _ h.before h.action h.after (rw (h.not_early, h.in_time) refl))

    sustained_by-IsSustained :
        (rest : List (TraceRow F)) → sustained_by k c rest ≡ true → IsSustained rest
    sustained_by-IsSustained [] h = absurd (cc)
    sustained_by-IsSustained (r ∷ rest) h = is_claim_of-IsClaim r h

    IsSustained-sustained_by :
        (rest : List (TraceRow F)) → IsSustained rest → sustained_by k c rest ≡ true
    IsSustained-sustained_by [] h = absurd h
    IsSustained-sustained_by (r ∷ rest) h = IsClaim-is_claim_of r h

    detects-IsDetection :
        (r : TraceRow F) (rest : List (TraceRow F))
        → detects k c acts r rest ≡ true
        → IsDetection r rest
    unfolding detects
    detects-IsDetection r rest h = (
      is_claim_of-IsClaim r (ground arith),
      elim (Bool-cases (sustained_by k c rest)) [
        | inl e ↦ inl (sustained_by-IsSustained rest e)
        | inr e ↦ inr (acted_upon-IsActedOn r (ground (arith, h, e)))
      ],
    )

    IsDetection-detects :
        (r : TraceRow F) (rest : List (TraceRow F))
        → IsDetection r rest
        → detects k c acts r rest ≡ true
    unfolding detects
    IsDetection-detects r rest (claimed, inl s) =
        rw (IsClaim-is_claim_of r claimed, IsSustained-sustained_by rest s) refl
    IsDetection-detects r rest (claimed, inr a) =
        let acted = IsActedOn-acted_upon r a in
        let named = IsClaim-is_claim_of r claimed in ground (arith, acted, named)

    missed_row :
        (r : TraceRow F) (rest : List (TraceRow F))
        → detects k c acts r rest ≡ false
        → ¬ IsDetection r rest
    missed_row r rest h d = let found = IsDetection-detects r rest d in absurd (cc)

    IsFirst-cons :
        (r : TraceRow F) (rest : List (TraceRow F)) (o : Option F)
        → detects k c acts r rest ≡ false
        → IsFirst rest o
        → IsFirst (r ∷ rest) o
    IsFirst-cons r rest none h first = (missed_row r (rest ++ []) (rw append-nil h), first)
    IsFirst-cons r rest (some t) h (before, row, after, split, at, found, none_before) = (
      r ∷ before,
      row,
      after,
      ap (◌∷◌ r) split,
      at,
      found,
      (missed_row r (before ++ (row ∷ after)) (rw split at h), none_before),
    )

    -- The first correct classification is at the earliest row that claims the cause with at least the
    -- confidence to act, and whose claim is made again so at the next row or followed by an action
    -- within two seconds. It is missing exactly if no row is such.
    pub first_correct-IsFirst :
        (trace : List (TraceRow F)) → IsFirst trace (first_correct k c acts trace)
    unfolding first_correct
    first_correct-IsFirst [] = tt
    first_correct-IsFirst (r ∷ rest) = elim (Bool-cases (detects k c acts r rest)) [
      | inl found ↦ rw found ([], r, rest, refl, refl, detects-IsDetection r rest found, tt)
      | inr missed ↦ rw missed (IsFirst-cons r rest _ missed (first_correct-IsFirst rest))
    ]
