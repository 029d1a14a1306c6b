-- ===== src/Agents/Oracle/Tests.antt =====
-- The oracle at work, on the baseline's example.
use tactical_radio_jamming_s.Base.{refl, true, arith, fixed_number}
use tactical_radio_jamming_s.Api.{spot}
use tactical_radio_jamming_s.Agents.Baseline.Sample.{context, features}
use tactical_radio_jamming_s.Agents.Oracle.{Oracle, decide}
use tactical_radio_jamming_s.Agents.Oracle.Guards.{IsLabel, decide-IsLabel}

abbrev oracle : Oracle
oracle = record { true_cause = spot; recoverable = true; confirm = true; tests = 0 }

labels_sample : IsLabel oracle context (decide oracle features context)
labels_sample =
    decide-IsLabel oracle features context (λ e. absurd (ground arith)) (omega arith) refl
