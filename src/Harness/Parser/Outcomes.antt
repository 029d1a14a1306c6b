-- ===== src/Harness/Parser/Outcomes.antt =====
-- What a parsed reply says: it is read whole, read after one repair, or not at all.
use tactical_radio_jamming_s.Base.{◌≡◌, none, some, inl, inr, Option-cases, arith}
use tactical_radio_jamming_s.Harness.Parser.{
  Text, ParseOutcome, Python, clean, repaired, repair, unparseable, success, body, first_object,
  parse_decision,
}

module _ {D : Type 0} (py : Python D) where
  open py use {loads}

  -- How the text of a reply is read, with the result.
  pub data Reading (text : Text) : ParseOutcome D → Type 0 where
    no_object : first_object text ≡ none → Reading text unparseable
    whole :
        (blob : Text) (d : D)
        → first_object text ≡ some blob
        → loads blob ≡ some d
        → Reading text (success clean d)
    mended :
        (blob better : Text) (d : D)
        → first_object text ≡ some blob
        → loads blob ≡ none
        → repair py blob ≡ some better
        → loads better ≡ some d
        → Reading text (success repaired d)
    broken :
        (blob : Text)
        → first_object text ≡ some blob
        → loads blob ≡ none
        → ((better : Text) → repair py blob ≡ some better → loads better ≡ none)
        → Reading text unparseable

  -- A reply is read as its first object says, else as that object says after one repair that changes
  -- it, and else is reported as failed, with no content.
  pub parse_decision-Reading : (raw : Text) → Reading (body py raw) (parse_decision py raw)
  unfolding parse_decision
  parse_decision-Reading raw = elim (Option-cases (first_object (body py raw))) [
    | inl e ↦ rw e (no_object e)
    | inr (blob, e) ↦ rw e (elim (Option-cases (loads blob)) [
      | inr (d, l) ↦ rw l (whole blob d e l)
      | inl l ↦ rw l (elim (Option-cases (repair py blob)) [
        | inl r ↦ rw r (broken blob e l (λ better q. ground arith))
        | inr (better, r) ↦ rw r (elim (Option-cases (loads better)) [
          | inr (d, l') ↦ rw l' (mended blob better d e l r l')
          | inl l' ↦ rw l' (broken blob e l (λ better q. ground arith))
        ])
      ])
    ])
  ]
