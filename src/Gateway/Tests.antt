-- ===== src/Gateway/Tests.antt =====
-- The gateway on a program that answers at once.
use tactical_radio_jamming_s.Base.{
  ℕ, zero, suc, ◌+◌, ◌≡◌, refl, String, true, false, Option, none, some, [], ◌∷◌,
}
use tactical_radio_jamming_s.Base.Int.{pos}
use tactical_radio_jamming_s.Gateway.{
  Run, timed_out, exited, Payload, answered, Outside, Provider, complete_once, attempts, complete,
  is_transient,
}
use tactical_radio_jamming_s.Gateway.Replay.{completes, complete_replays}

abbrev said : Payload
said = record {
  is_error = false;
  result = "ok";
  quoted = "ok";
  input_tokens = 3;
  output_tokens = 1;
  cache_read_tokens = 0;
}

-- the world counts the calls; the first one times out
abbrev answer_at : Option String → String → ℕ → Run × ℕ
answer_at s prompt zero = (timed_out, 1)
answer_at s prompt (suc n) = (exited (pos 0) "{}" "", suc (suc n))

abbrev outside : Outside ℕ
outside = record {
  run = answer_at;
  key = λ s prompt. prompt;
  loads = λ text. some said;
  lower_text = λ e. "timeout after 180s";
  is_in = λ m text. true;
}

abbrev provider : Provider
provider = record {
  cache = true;
  system = none;
  max_attempts = 4;
  calls = 0;
  cache_hits = 0;
  errors = 0;
  retries = 0;
  total_input_tokens = 0;
  total_output_tokens = 0;
  total_cache_read_tokens = 0;
  files = [];
}

second_try : (complete outside "which channel" none provider 0).0 ≡ answered "ok"
unfolding complete attempts complete_once is_transient
second_try = refl

one_retry : (complete outside "which channel" none provider 0).1.retries ≡ 1
unfolding complete attempts complete_once is_transient
one_retry = refl

first_answer : (complete outside "which channel" (some "radio") provider 0).0 ≡ answered "ok"
unfolding complete attempts complete_once is_transient
first_answer = refl

complete_replays_example :
    let q =
      (completes outside
        (("hop now", none) ∷ [])
        (complete outside "which channel" (some "radio") provider 0).1
        5).0 in
    complete outside "which channel" (some "radio") q 9
    ≡ (answered "ok", record q { system = some "radio"; cache_hits = q.cache_hits + 1 }, 9)
complete_replays_example =
    complete_replays outside "which channel" "radio" provider 0 refl first_answer
      (("hop now", none) ∷ []) 5 9
