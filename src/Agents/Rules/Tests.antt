-- ===== src/Agents/Rules/Tests.antt =====
-- The rules at work, on the baseline's example.
use tactical_radio_jamming_s.Base.{String, ◌≡◌, List, [], ◌∷◌, none, some, Fixed, fixed_number, lit}
use tactical_radio_jamming_s.Api.{fading}
use tactical_radio_jamming_s.Agents.Baseline.Sample.{context, features}
use tactical_radio_jamming_s.Agents.Rules.{
  RuleText, Rule, triple, gt, from_dicts, suggest, apply, decide,
}
use tactical_radio_jamming_s.Agents.Rules.Audit.{
  IsRead, IsRuled, first, from_dicts-IsRead, suggest-apply, decide-IsRuled,
}

abbrev names : List String
names = "pdr_fast" ∷ "pdr_slow" ∷ []

abbrev texts : List (RuleText Fixed)
texts =
    record {
      body = some (triple "pdr_fast" (some gt) (some (lit 5 1)) ∷ []);
      then_part = some (record { hypothesis = some fading; call = none });
    }
    ∷ record { body = none; then_part = none }
    ∷ []

abbrev rules : List (Rule Fixed)
rules = (from_dicts names 0 texts).0

reads_texts : IsRead names texts (from_dicts names 0 texts)
reads_texts = from_dicts-IsRead names 0 texts

suggests_first : suggest names rules features ≡ first (apply names rules features)
suggests_first = suggest-apply names rules features

rules_decide :
    IsRuled names rules features context [] (decide names rules (lit 9 1) features context []).0
rules_decide = decide-IsRuled names rules (lit 9 1) features context []
