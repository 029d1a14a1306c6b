-- ===== src/Harness/Parser/Objects.antt =====
-- The object that is found: braces that balance, strings with braces and escaped quotes included.
use tactical_radio_jamming_s.Base.{
  ℕ, suc, ◌+◌, ◌≡◌, refl, ◌==◌, Bool, true, false, not, ◌&&◌, ◌||◌, some, [], ◌∷◌, ◌++◌, length,
  take, drop, all, arith, ap, ◌∙◌,
}
use tactical_radio_jamming_s.Base.Int.{pos}
use tactical_radio_jamming_s.Harness.Parser.{Text, Scan, advance, scan, fresh, first_object}

-- The inside of a string, up to its closing quote.
pub data Quoted : Type 0 where
  close : Quoted
  char : ℕ → Quoted → Quoted
  escaped : ℕ → Quoted → Quoted

-- What stands between two braces: characters, strings and groups.
pub data Body : Type 0 where
  done : Body
  plain : ℕ → Body → Body
  quoted : Quoted → Body → Body
  group : Body → Body → Body

-- A character that means nothing outside strings, or nothing inside.
abbrev pub is_plain : ℕ → Bool
is_plain c = not (c == b'"' || c == b'{' || c == b'}')

abbrev pub is_char : ℕ → Bool
is_char c = not (c == b'"' || c == b'\\')

abbrev pub is_quoted : Quoted → Bool
is_quoted close = true
is_quoted (char c q) = is_char c && is_quoted q
is_quoted (escaped c q) = is_quoted q

abbrev pub is_body : Body → Bool
is_body done = true
is_body (plain c b) = is_plain c && is_body b
is_body (quoted q b) = is_quoted q && is_body b
is_body (group b b') = is_body b && is_body b'

-- The text with what follows it.
abbrev pub quoted_text : Quoted → Text → Text
quoted_text close rest = b'"' ∷ rest
quoted_text (char c q) rest = c ∷ quoted_text q rest
quoted_text (escaped c q) rest = b'\\' ∷ c ∷ quoted_text q rest

abbrev pub body_text : Body → Text → Text
body_text done rest = rest
body_text (plain c b) rest = c ∷ body_text b rest
body_text (quoted q b) rest = b'"' ∷ quoted_text q (body_text b rest)
body_text (group b b') rest = b'{' ∷ body_text b (b'}' ∷ body_text b' rest)

abbrev pub object_text : Body → Text
object_text b = b'{' ∷ body_text b (b'}' ∷ [])

-- the lengths of both
abbrev quoted_size : Quoted → ℕ
quoted_size close = 1
quoted_size (char c q) = 1 + quoted_size q
quoted_size (escaped c q) = 2 + quoted_size q

abbrev body_size : Body → ℕ
body_size done = 0
body_size (plain c b) = 1 + body_size b
body_size (quoted q b) = 1 + quoted_size q + body_size b
body_size (group b b') = 2 + body_size b + body_size b'

-- inside an object, `n` groups deep, that starts at `from`
abbrev open_at : ℕ → ℕ → Bool → Scan
open_at from n in_str = record {
  depth = pos (suc n);
  start = some from;
  in_str = in_str;
  esc = false;
}

scan-quoted :
    (q : Quoted) (i from n : ℕ) (rest : Text)
    → is_quoted q ≡ true
    → scan i (open_at from n true) (quoted_text q rest)
      ≡ scan (i + quoted_size q) (open_at from n false) rest
unfolding scan advance
scan-quoted close i from n rest h = refl
scan-quoted (char c q) i from n rest h = ground (arith, scan-quoted q (i + 1) from n rest)
scan-quoted (escaped c q) i from n rest h = ground (arith, scan-quoted q (i + 1 + 1) from n rest)

scan-body :
    (b : Body) (i from n : ℕ) (rest : Text)
    → is_body b ≡ true
    → scan i (open_at from n false) (body_text b rest)
      ≡ scan (i + body_size b) (open_at from n false) rest
unfolding scan advance
scan-body done i from n rest h = ground arith
scan-body (plain c b) i from n rest h = ground (arith, scan-body b (i + 1) from n rest)
scan-body (quoted q b) i from n rest h = ground (
  arith,
  scan-quoted q (i + 1) from n (body_text b rest),
  scan-body b (i + 1 + quoted_size q) from n rest,
)
scan-body (group b b') i from n rest h = ground (
  arith,
  scan-body b (i + 1) from (suc n) (b'}' ∷ body_text b' rest),
  scan-body b' (i + 1 + body_size b + 1) from n rest,
)

scan-object :
    (b : Body) (i : ℕ) (rest : Text)
    → is_body b ≡ true
    → scan i fresh (b'{' ∷ body_text b (b'}' ∷ rest)) ≡ some (i, i + body_size b + 2)
unfolding scan advance
scan-object b i rest h = ground (arith, scan-body b (i + 1) i 0 (b'}' ∷ rest) h)

scan-prose :
    (prose : Text) (i : ℕ) (rest : Text)
    → all is_plain prose ≡ true
    → scan i fresh (prose ++ rest) ≡ scan (i + length prose) fresh rest
unfolding scan advance
scan-prose [] i rest h = ground arith
scan-prose (c ∷ prose) i rest h = ground (arith, scan-prose prose (i + 1) rest)

quoted_text-append :
    (q : Quoted) (rest more : Text) → quoted_text q rest ++ more ≡ quoted_text q (rest ++ more)
quoted_text-append close rest more = refl
quoted_text-append (char c q) rest more = ap (c ∷◌) (quoted_text-append q rest more)
quoted_text-append (escaped c q) rest more =
    ap (λ t. b'\\' ∷ c ∷ t) (quoted_text-append q rest more)

body_text-append :
    (b : Body) (rest more : Text) → body_text b rest ++ more ≡ body_text b (rest ++ more)
body_text-append done rest more = refl
body_text-append (plain c b) rest more = ap (c ∷◌) (body_text-append b rest more)
body_text-append (quoted q b) rest more = ap (b'"' ∷◌) (
    quoted_text-append q (body_text b rest) more
    ∙ ap (quoted_text q) (body_text-append b rest more))
body_text-append (group b b') rest more = ap (b'{' ∷◌) (
    body_text-append b (b'}' ∷ body_text b' rest) more
    ∙ ap (λ t. body_text b (b'}' ∷ t)) (body_text-append b' rest more))

length-quoted_text :
    (q : Quoted) (rest : Text) → length (quoted_text q rest) ≡ quoted_size q + length rest
length-quoted_text close rest = omega arith
length-quoted_text (char c q) rest = omega (arith, length-quoted_text q rest)
length-quoted_text (escaped c q) rest = omega (arith, length-quoted_text q rest)

length-body_text : (b : Body) (rest : Text) → length (body_text b rest) ≡ body_size b + length rest
length-body_text done rest = omega arith
length-body_text (plain c b) rest = omega (arith, length-body_text b rest)
length-body_text (quoted q b) rest =
    omega (arith, length-quoted_text q (body_text b rest), length-body_text b rest)
length-body_text (group b b') rest =
    omega (arith, length-body_text b (b'}' ∷ body_text b' rest), length-body_text b' rest)

drop-length : (xs ys : Text) (n : ℕ) → n ≡ length xs → drop n (xs ++ ys) ≡ ys
drop-length xs ys n e = rw e (drop-prefix xs ys)
  where
    drop-prefix : (xs ys : Text) → drop (length xs) (xs ++ ys) ≡ ys
    drop-prefix [] ys = refl
    drop-prefix (x ∷ xs) ys = drop-prefix xs ys

take-length : (xs ys : Text) (n : ℕ) → n ≡ length xs → take n (xs ++ ys) ≡ xs
take-length xs ys n e = rw e (take-prefix xs ys)
  where
    take-prefix : (xs ys : Text) → take (length xs) (xs ++ ys) ≡ xs
    take-prefix [] [] = refl
    take-prefix [] (y ∷ ys) = refl
    take-prefix (x ∷ xs) ys = ap (x ∷◌) (take-prefix xs ys)

-- An object whose braces balance outside its strings is returned whole, whatever follows it, if the
-- text before it has no quotes and no braces.
pub first_object-object_text :
    (prose : Text) (b : Body) (rest : Text)
    → all is_plain prose ≡ true
    → is_body b ≡ true
    → first_object (prose ++ (object_text b ++ rest)) ≡ some (object_text b)
unfolding first_object
first_object-object_text prose b rest p h =
    let joined : object_text b ++ rest ≡ b'{' ∷ body_text b (b'}' ∷ rest) =
      ap (b'{' ∷◌) (body_text-append b (b'}' ∷ []) rest) in
    let found : scan 0 fresh (prose ++ (object_text b ++ rest))
        ≡ some (0 + length prose, 0 + length prose + body_size b + 2) =
      scan-prose prose 0 (object_text b ++ rest) p
      ∙ ap (scan (0 + length prose) fresh) joined
      ∙ scan-object b (0 + length prose) rest h in
    rw (found, first_object)
      (ap some (
        ap (take _) (drop-length prose (object_text b ++ rest) _ (omega arith))
        ∙ take-length (object_text b) rest _ (omega (arith, length-body_text b (b'}' ∷ [])))))
