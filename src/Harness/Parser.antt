-- ===== src/Harness/Parser.antt =====
-- capstone/harness/parser.py: the JSON object in a model's reply. A text is the list of its code
-- points. Python's `str.strip`, `re` and `json` are parameters.
pub mod Objects
pub mod Outcomes
mod Tests
use tactical_radio_jamming_s.Base.{
  ℕ, zero, suc, ◌+◌, ◌-◌, ◌==◌, Bool, true, false, ◌&&◌, Option, none, some, List, [], ◌∷◌, take,
  drop, if◌then◌else◌,
}
use tactical_radio_jamming_s.Base.Int.{ℤ, pos, negsuc}

abbrev pub Text : Type 0
Text = List ℕ

-- The variables of the loop: `depth`, `start` (`none` is -1), `in_str` and `esc`.
pub record Scan : Type 0 where
  pub depth : ℤ
  pub start : Option ℕ
  pub in_str : Bool
  pub esc : Bool

abbrev pub up : ℤ → ℤ
up (pos n) = pos (suc n)
up (negsuc zero) = pos 0
up (negsuc (suc n)) = negsuc n

abbrev pub down : ℤ → ℤ
down (pos zero) = negsuc 0
down (pos (suc n)) = pos n
down (negsuc n) = negsuc (suc n)

abbrev pub is_zero : ℤ → Bool
is_zero (pos zero) = true
is_zero _ = false

-- a character inside a string
abbrev pub inside : ℕ → Scan → Scan
inside c s =
    if s.esc
    then record s { esc = false }
    else if c == b'\\'
    then record s { esc = true }
    else if c == b'"'
    then record s { in_str = false }
    else s

-- A character outside strings, at the index `i`; a place where the object starts is returned when
-- the object ends here.
unfoldable pub outside : ℕ → ℕ → Scan → Option ℕ × Scan
outside i c s =
    if c == b'"'
    then (none, record s { in_str = true })
    else if c == b'{'
    then (
      none,
      record s { depth = up s.depth; start = if is_zero s.depth then some i else s.start },
    )
    else if c == b'}'
    then (if is_zero (down s.depth) then s.start else none, record s { depth = down s.depth })
    else (none, s)

unfoldable pub advance : ℕ → ℕ → Scan → Option ℕ × Scan
unfolding outside
advance i c s = if s.in_str then (none, inside c s) else outside i c s

-- The loop: where the first object starts and ends.
unfoldable pub scan : ℕ → Scan → Text → Option (ℕ × ℕ)
scan i s [] = none
scan i s (c ∷ cs) =
    let rest = scan (i + 1) (advance i c s).1 cs in
    elim (advance i c s).0 [ some from ↦ some (from, i + 1) | none ↦ rest ]

abbrev pub fresh : Scan
fresh = record { depth = pos 0; start = none; in_str = false; esc = false }

-- `_first_object`
unfoldable pub first_object : Text → Option Text
unfolding scan
first_object t = elim (scan 0 fresh t) [
  | none ↦ none
  | some (from, to) ↦ some (take (to - from) (drop from t))
]

-- `mode`
pub data Mode : Type 0 where
  clean repaired failed : Mode

pub record ParseOutcome (D : Type 0) : Type 0 where
  pub ok : Bool
  pub content : Option D
  pub mode : Mode

-- What the parser takes from Python: `str.strip`, the search for a fence with its group, `json.loads`,
-- the three `re.sub` of `_repair` in their order, and `==` on texts.
pub record Python (D : Type 0) : Type 0 where
  pub strip : Text → Text
  pub fenced : Text → Option Text
  pub loads : Text → Option D
  pub without_commas : Text → Text
  pub quoted_keys : Text → Text
  pub finite : Text → Text
  pub text_eq : Text → Text → Bool

module _ {D : Type 0} where
  abbrev pub unparseable : ParseOutcome D
  unparseable = record { ok = false; content = none; mode = failed }

  abbrev pub success : Mode → D → ParseOutcome D
  success mode d = record { ok = true; content = some d; mode = mode }

  abbrev loaded_or : Mode → ParseOutcome D → Option D → ParseOutcome D
  loaded_or mode other none = other
  loaded_or mode other (some d) = success mode d

module _ {D : Type 0} (py : Python D) where
  open py use {strip, fenced, loads, without_commas, quoted_keys, finite, text_eq}

  -- `_repair`
  unfoldable pub repair : Text → Option Text
  repair blob =
      let s = finite (quoted_keys (without_commas blob)) in if text_eq s blob then none else some s

  abbrev retried : Option Text → ParseOutcome D
  retried none = unparseable
  retried (some s) = loaded_or repaired unparseable (loads s)

  abbrev decoded : Option Text → ParseOutcome D
  decoded none = unparseable
  decoded (some blob) = loaded_or clean (retried (repair blob)) (loads blob)

  abbrev unfenced : Text → Option Text → Text
  unfenced t none = t
  unfenced t (some inner) = strip inner

  -- the text in which the object is looked for
  unfoldable pub body : Text → Text
  body raw = let t = strip raw in unfenced t (fenced t)

  -- `parse_decision`
  unfoldable pub parse_decision : Text → ParseOutcome D
  parse_decision raw = decoded (first_object (body raw))
