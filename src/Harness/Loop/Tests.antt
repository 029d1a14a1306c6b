-- ===== src/Harness/Loop/Tests.antt =====
-- The harness's agent at work, with a model that never answers.
use tactical_radio_jamming_s.Base.{
  ℕ, ◌+◌, ◌<◌, ◌≡◌, refl, false, List, [], ◌∷◌, none, is_some, replicate, Fixed, fixed_number, lit,
  arith,
}
use tactical_radio_jamming_s.Api.{Context}
use tactical_radio_jamming_s.Agents.Baseline.Sample.{context}
use tactical_radio_jamming_s.Harness.Loop.{Settings, Harness, failed, reset, decide}
use tactical_radio_jamming_s.Harness.Loop.Gate.{IsLive}
use tactical_radio_jamming_s.Harness.Loop.Episode.{
  ticks, IsTyped, IsEpisode, reset-ticks-IsEpisode, heartbeat_asks,
}

abbrev settings : Settings Fixed ℕ
settings = record {
  complete = λ f ctx n. (failed, n + 1);
  tools = [];
  panel = 0 ∷ 7 ∷ [];
  novelty_gate = lit 15 2;
  quiet_pdr = lit 55 2;
  heartbeat_ticks = 3;
  max_calls_per_episode = 30;
}

abbrev new_agent : Harness Fixed ℕ
new_agent = record {
  provider = 0;
  step = 0;
  asked = 0;
  quiet_run = 0;
  stable_run = 0;
  last_panel = none;
  last_decision = none;
  last_available = [];
  skipped_quiet = 0;
  skipped_stable = 0;
  parse_failures = 0;
  repairs = 0;
  provider_errors = 0;
}

-- a vector of 55 features
abbrev features : Fixed → List Fixed
features pdr = pdr ∷ replicate 54 (lit 0 0)

-- three ticks at which nothing seems wrong but what the peers say
abbrev healthy : List (List Fixed × Context Fixed)
healthy =
    (features (lit 1 0), context)
    ∷ (features (lit 1 0), context)
    ∷ (features (lit 1 0), context)
    ∷ []

live : IsLive settings new_agent
live = ground arith

well_typed : IsTyped settings
well_typed f ctx p = refl

-- a vector that is too short raises
too_short : is_some (decide settings (lit 1 0 ∷ []) context new_agent) ≡ false
unfolding decide
too_short = refl

abbrev ended : IsEpisode settings (ticks settings healthy (reset new_agent))
ended = reset-ticks-IsEpisode settings healthy new_agent (omega arith) refl well_typed

heartbeat_asks_example : 0 < ended.last.asked
heartbeat_asks_example =
    heartbeat_asks settings healthy new_agent (omega arith) (omega arith) (omega arith) ended.ends
