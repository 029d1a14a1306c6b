-- ===== src/Agents/Baseline/Tests.antt =====
-- The baseline at work.
use tactical_radio_jamming_s.Base.{fixed_number, lit}
use tactical_radio_jamming_s.Agents.Baseline.{belief, decide}
use tactical_radio_jamming_s.Agents.Baseline.Sample.{context, features}
use tactical_radio_jamming_s.Agents.Baseline.Guards.{IsGuarded, decide-IsGuarded}

decide-IsGuarded_example :
    IsGuarded (lit 6 1) (belief features) context (decide (lit 6 1) features context)
decide-IsGuarded_example = decide-IsGuarded (lit 6 1) features context
