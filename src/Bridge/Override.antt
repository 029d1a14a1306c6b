-- ===== src/Bridge/Override.antt =====
-- What the call of a reply is: the call that passed the screen, unless an argument has its key.
use text.Mathlib.Text.{◌==◌ as str_eq}
use tactical_radio_jamming_s.Base.{
  ◌≡◌, refl, ap, String, some, [], ◌∷◌, store, lookup, Number, Bool-cases, inl, inr, if◌then◌else◌,
  ◌&&◌,
}
use tactical_radio_jamming_s.Api.{Value, str, Args, Decision}
use tactical_radio_jamming_s.Bridge.Answer.{call_name, is_plain, updated, reply_of}

module _ {F : Type 0} ⦃num : Number F⦄ where
  -- the last argument of the name that can be sent, or the default
  abbrev pub last_named : String → Value F → Args F → Value F
  last_named k x [] = x
  last_named k x ((j, v) ∷ args) = last_named k (if is_plain v && str_eq j k then v else x) args

  head-updated :
      (k : String) (x : Value F) (rest args : Args F)
      → (rest' : Args F) × (updated ((k, x) ∷ rest) args ≡ (k, last_named k x args) ∷ rest')
  unfolding updated
  head-updated k x rest [] = (rest, refl)
  head-updated k x rest ((j, v) ∷ args) = elim (Bool-cases (is_plain v)) [
    | inl p ↦ elim (Bool-cases (str_eq j k)) [
      | inl e ↦ rw (p, e) (head-updated k v rest args)
      | inr e ↦ rw (p, e) (head-updated k x (store str_eq j v rest) args)
    ]
    | inr p ↦ rw p (head-updated k x rest args)
  ]

  -- The call that the bridge's reply names is the last argument of the decision that has the name
  -- `call` and can be sent, whatever the mask says of it; only if there is none, it is the decision's
  -- own call.
  pub reply_of-call :
      (d : Decision F)
      → lookup str_eq "call" (reply_of d) ≡ some (last_named "call" (str (call_name d.call)) d.args)
  unfolding reply_of
  reply_of-call d =
      let (rest', e) = head-updated "call" (str (call_name d.call)) [] d.args in
      ap (lookup str_eq "call") e
