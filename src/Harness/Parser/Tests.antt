-- ===== src/Harness/Parser/Tests.antt =====
-- Runs of the reply parser on small texts, and the theorems at concrete inputs.
use tactical_radio_jamming_s.Base.{
  ◌==◌, ◌≡◌, refl, Bool, true, false, not, ◌&&◌, none, some, [], ◌∷◌, ◌++◌, map, all, if◌then◌else◌,
}
use tactical_radio_jamming_s.Harness.Parser.{
  Text, Python, advance, repair, repaired, failed, first_object, body, parse_decision,
}
use tactical_radio_jamming_s.Harness.Parser.Objects.{
  Body, char, escaped, close, plain, quoted, group, done, object_text, first_object-object_text,
}
use tactical_radio_jamming_s.Harness.Parser.Outcomes.{Reading, parse_decision-Reading}

abbrev equal_text : Text → Text → Bool
equal_text [] [] = true
equal_text (a ∷ s) (b ∷ t) = a == b && equal_text s t
equal_text _ _ = false

-- A document is a text with no N, and the repair puts a zero for each.
abbrev toy : Python Text
toy = record {
  strip = λ t. t;
  fenced = λ t. none;
  loads = λ t. if all (λ c. not (c == b'N')) t then some t else none;
  without_commas = λ t. t;
  quoted_keys = λ t. t;
  finite = λ t. map (λ c. if c == b'N' then b'0' else c) t;
  text_eq = equal_text;
}

-- {"}\"":{}}
abbrev tricky : Body
tricky = quoted (char b'}' (escaped b'"' close)) (plain b':' (group done done))

-- a{N}
abbrev not_finite : Text
not_finite = b'a' ∷ b'{' ∷ b'N' ∷ b'}' ∷ []

finds_tricky :
    first_object ((b'a' ∷ []) ++ (object_text tricky ++ (b'}' ∷ []))) ≡ some (object_text tricky)
unfolding first_object advance
finds_tricky = refl

mends : (parse_decision toy not_finite).mode ≡ repaired
unfolding parse_decision first_object body advance repair
mends = refl

fails : (parse_decision toy (b'}' ∷ not_finite)).mode ≡ failed
unfolding parse_decision first_object body advance repair
fails = refl

first_object-object_text_example :
    first_object ((b'a' ∷ []) ++ (object_text tricky ++ (b'}' ∷ []))) ≡ some (object_text tricky)
first_object-object_text_example = first_object-object_text (b'a' ∷ []) tricky (b'}' ∷ []) refl refl

reads_mended : Reading toy (body toy not_finite) (parse_decision toy not_finite)
reads_mended = parse_decision-Reading toy not_finite
