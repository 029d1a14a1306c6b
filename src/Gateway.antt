-- ===== src/Gateway.antt =====
-- capstone/gateway/provider.py: `ClaudeCliProvider.complete` with its cache and its retries. The command
-- line program, the hash of a key, the JSON of its output and the text of an error are parameters. The
-- waiting between the tries and the time that a call takes are left out.
pub mod Cache
pub mod Replay
pub mod Tries
mod Tests
use text.Mathlib.Text.{◌==◌ as str_eq}
use tactical_radio_jamming_s.Base.{
  ℕ, zero, suc, ◌+◌, String, Bool, true, false, ◌&&◌, Option, none, some, List, [], ◌∷◌, any,
  lookup, store, or_else, is_some, if◌then◌else◌,
}
use tactical_radio_jamming_s.Base.Int.{ℤ, pos, negsuc}

-- What `subprocess.run` comes to.
pub data Run : Type 0 where
  timed_out not_found : Run
  exited : ℤ → String → String → Run

-- What is read of the JSON that the program prints: `result` without the white space round it, and the
-- start of `result` as an error quotes it.
pub record Payload : Type 0 where
  pub is_error : Bool
  pub result : String
  pub quoted : String
  pub input_tokens : ℕ
  pub output_tokens : ℕ
  pub cache_read_tokens : ℕ

-- `LlmError`, by where it is raised
pub data LlmError : Type 0 where
  timeout missing : LlmError
  exit_code : ℤ → String → String → LlmError
  non_json : String → LlmError
  refused : String → LlmError
  -- all attempts failed, with the last error; or none was allowed
  attempts_failed : ℕ → LlmError → LlmError
  no_attempt : LlmError

-- A reply, or an exception.
pub data Outcome : Type 0 where
  answered : String → Outcome
  failed : LlmError → Outcome

-- What the provider stands on: the program in a world of states `W`; `_key` of a system prompt and a
-- prompt; `json.loads`; `str(e).lower()` of an error; and whether a text stands in another.
pub record Outside (W : Type 0) : Type 0 where
  pub run : Option String → String → W → Run × W
  pub key : Option String → String → String
  pub loads : String → Option Payload
  pub lower_text : LlmError → String
  pub is_in : String → String → Bool

pub record Provider : Type 0 where
  pub cache : Bool
  pub system : Option String
  pub max_attempts : ℕ
  pub calls : ℕ
  pub cache_hits : ℕ
  pub errors : ℕ
  pub retries : ℕ
  pub total_input_tokens : ℕ
  pub total_output_tokens : ℕ
  pub total_cache_read_tokens : ℕ
  -- the files of the cache, by their path, with the response
  pub files : List (String × String)

-- `_TRANSIENT`, in lower case
abbrev marks : List String
marks =
    "exited 1" ∷ "exited -" ∷ "timeout after" ∷ "overloaded" ∷ "rate limit" ∷ "rate_limit" ∷ "429"
    ∷ "500" ∷ "502" ∷ "503" ∷ "529" ∷ "connection" ∷ "non-json output" ∷ []

abbrev err : Provider → Provider
err p = record p { errors = p.errors + 1 }

abbrev pub is_ok : ℤ → Bool
is_ok (pos zero) = true
is_ok _ = false

module _ {W : Type 0} (out : Outside W) where
  -- `_transient`
  unfoldable pub is_transient : LlmError → Bool
  is_transient e = any (λ m. out.is_in m (out.lower_text e)) marks

  abbrev count_tokens : Payload → Provider → Provider
  count_tokens j p = record p {
    total_input_tokens = p.total_input_tokens + j.input_tokens;
    total_output_tokens = p.total_output_tokens + j.output_tokens;
    total_cache_read_tokens = p.total_cache_read_tokens + j.cache_read_tokens;
  }

  -- a reply of the program: counted and, with the cache, written
  abbrev pub accept : String → Payload → Provider → Provider
  accept path j p = record (count_tokens j p) {
    files = if p.cache then store str_eq path j.result p.files else p.files;
  }

  abbrev pub read_reply : String → Option Payload → String → Provider → Outcome × Provider
  read_reply path none text p = (failed (non_json text), err p)
  read_reply path (some j) text p =
      if j.is_error
      then (failed (refused j.quoted), err p)
      else (answered j.result, accept path j p)

  abbrev pub finish : String → Run → Provider → Outcome × Provider
  finish path timed_out p = (failed timeout, err p)
  finish path not_found p = (failed missing, err p)
  finish path (exited code text why) p =
      let called : Provider = record p { calls = p.calls + 1 } in
      if is_ok code
      then read_reply path (out.loads text) text called
      else (failed (exit_code code text why), err called)

  -- `_complete_once`
  unfoldable pub complete_once : String → String → Provider → W → Outcome × Provider × W
  complete_once prompt path p w =
      let (r, w') = out.run p.system prompt w in let (o, p') = finish path r p in (o, p', w')

  abbrev pub retried : Bool → Provider → Provider
  retried again p = if again then record p { retries = p.retries + 1 } else p

  abbrev pub given_up : ℕ → Option LlmError → LlmError
  given_up n none = no_attempt
  given_up n (some e) = attempts_failed n e

  abbrev pub last_of : Outcome → Option LlmError
  last_of (answered text) = none
  last_of (failed e) = some e

  -- the outcome of one attempt, or what the rest of the attempts come to
  abbrev pub settle : Outcome × Provider × W → Outcome × Provider × W → Outcome × Provider × W
  settle (answered text, p, w) rest = (answered text, p, w)
  settle (failed e, p, w) rest = if is_transient e then rest else (failed e, p, w)

  -- the loop over the attempts: how many are left, whether one was made, and the last error
  unfoldable pub attempts :
      ℕ → Bool → Option LlmError → String → String → Provider → W → Outcome × Provider × W
  attempts zero again last prompt path p w = (failed (given_up p.max_attempts last), p, w)
  attempts (suc n) again last prompt path p w =
      let once = complete_once prompt path (retried again p) w in
      settle once (attempts n true (last_of once.0) prompt path once.1 once.2)

  -- `if system is not None: self.system = system`
  abbrev pub set_system : Option String → Provider → Provider
  set_system none p = p
  set_system (some s) p = record p { system = some s }

  abbrev pub cached : Bool → String → List (String × String) → Option String
  cached use_it path files = if use_it then lookup str_eq path files else none

  abbrev pub serve : Option String → String → String → Provider → W → Outcome × Provider × W
  serve (some text) prompt path p w = (answered text, record p { cache_hits = p.cache_hits + 1 }, w)
  serve none prompt path p w = attempts p.max_attempts false none prompt path p w

  -- `complete`
  unfoldable pub complete : String → Option String → Provider → W → Outcome × Provider × W
  complete prompt system p w =
      let p' = set_system system p in
      let path = out.key p'.system prompt in serve (cached p'.cache path p'.files) prompt path p' w
