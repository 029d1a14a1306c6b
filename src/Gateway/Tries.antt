-- ===== src/Gateway/Tries.antt =====
-- How often `complete` calls the program, and what it counts.
use tactical_radio_jamming_s.Base.{ℕ, ◌+◌, ◌<◌, ◌≤◌, ◌≡◌, ◌⊎◌, String, Option}
use tactical_radio_jamming_s.Gateway.{Outcome, answered, failed, Outside, Provider}

-- 1 for an exception
abbrev pub failures : Outcome → ℕ
failures (answered text) = 0
failures (failed e) = 1

-- `k` attempts were made in vain before the last one.
pub record IsCounted (k : ℕ) (p : Provider) (o : Outcome) (q : Provider) : Type 0 where
  pub retries_eq : q.retries ≡ p.retries + k
  pub errors_eq : q.errors ≡ p.errors + k + failures o

-- The program was run `k` times in vain, and once more; `before` and `after` are how often it had been
-- run in the world.
pub record IsTried (k : ℕ) (p : Provider) (before : ℕ) (o : Outcome) (q : Provider) (after : ℕ)
    : Type 0 where
  pub counted : IsCounted k p o q
  pub runs_eq : after ≡ before + k + 1

-- A reply from the cache: nothing was run, and only the hit is counted.
pub record IsHit (p : Provider) (before : ℕ) (o : Outcome) (q : Provider) (after : ℕ) : Type 0 where
  pub hits_eq : q.cache_hits ≡ p.cache_hits + 1
  pub retries_eq : q.retries ≡ p.retries
  pub errors_eq : q.errors ≡ p.errors
  pub replied : failures o ≡ 0
  pub runs_eq : after ≡ before

module _ {W : Type 0} (out : Outside W) where
  -- `runs` tells of a world how often the program has been run in it.
  module _ (runs : W → ℕ)
      (each : (system : Option String) (prompt : String) (w : W)
        → runs (out.run system prompt w).1 ≡ runs w + 1) where
    -- The first of the attempts that are left, and the rest.
    abbrev Loop : ℕ → Provider → W → Outcome × Provider × W → Type 0
    Loop n p w r = (k : ℕ) × (k ≤ n) × IsTried k p (runs w) r.0 r.1 (runs r.2)

    -- From the cache, or tried.
    abbrev Served : Provider → W → Outcome × Provider × W → Type 0
    Served p w r =
        IsHit p (runs w) r.0 r.1 (runs r.2)
        ⊎ ((k : ℕ) × (k < p.max_attempts) × IsTried k p (runs w) r.0 r.1 (runs r.2))
