-- ===== src/Verifier/Tests.antt =====
-- The verifier's theorems at work on short logs.
use tactical_radio_jamming_s.Base.{
  ℕ, ◌≡◌, refl, arith, true, false, ◌&&◌, any, all, [], ◌∷◌, none, some, Fixed, fixed_number, lit,
  count,
}
use tactical_radio_jamming_s.Base.Int.{◌-ℤ◌, pos}
use tactical_radio_jamming_s.Api.{
  Cause, spot, fading, cause_eq, call_eq, hop_channel, channel_hop_probe, declare_link_lost, no_op,
}
use tactical_radio_jamming_s.Api.Beliefs.{top}
use tactical_radio_jamming_s.Controller.State.{EpisodeLog, TraceRow, ActionRow, empty_log}
use tactical_radio_jamming_s.Controller.Choose.{screen, is_repeat}
use tactical_radio_jamming_s.Controller.Run.{trace_row}
use tactical_radio_jamming_s.Controller.Toy.{caps, ask, world, steady}
use tactical_radio_jamming_s.Verifier.Score.{
  Truth, CostConfig, EpisodeScore, claim, score_episode, refusal, first_correct, declared_cause,
  detects, is_claim_of,
}
use tactical_radio_jamming_s.Verifier.Aggregate.{aggregate, confusion, refusal_gate}
use tactical_radio_jamming_s.Verifier.Claims.{IsDeclared, declared_cause-IsDeclared}
use tactical_radio_jamming_s.Verifier.Detection.{IsFirst, first_correct-IsFirst}
use tactical_radio_jamming_s.Verifier.Confusion.{
  cell, is_in_cell, cell-confusion, refuses_well, refusal_gate_passed,
}
use tactical_radio_jamming_s.Verifier.Envelope.{
  episode, rewritten_claims_top, probe_hops_unseen, refusal_is_deadline,
}
use tactical_radio_jamming_s.Verifier.Ratios.{Fixed-HasRatios}

abbrev row : ℕ → Cause → Fixed → TraceRow Fixed
row n c p = record {
  t = lit n 0;
  top = c;
  p = p;
  declared = none;
  abstained = false;
  belief = (c, p) ∷ [];
  unrecoverable = lit 0 0;
}

abbrev hop_at : ℕ → ActionRow Fixed
hop_at n = record { t = lit n 0; fn = hop_channel; budget_after = pos 5 }

-- fading at first, then a spot jammer, and a hop; it recovers
abbrev short_log : EpisodeLog Fixed
short_log = record empty_log {
  classification_trace =
      row 3 fading (lit 8 1)
      ∷ row 4 spot (lit 5 1)
      ∷ row 5 spot (lit 9 1)
      ∷ row 6 spot (lit 9 1)
      ∷ [];
  actions = hop_at 6 ∷ [];
  recovery_t = some (lit 10 0);
}

abbrev spot_truth : Truth Fixed
spot_truth = record { cause = spot; onset_t = lit 1 0; recoverable = true }

abbrev lost_truth : Truth Fixed
lost_truth = record { cause = fading; onset_t = lit 1 0; recoverable = false }

abbrev costs : CostConfig Fixed
costs = record {
  order = spot ∷ fading ∷ [];
  matrix = (spot, lit 0 0 ∷ lit 1 0 ∷ []) ∷ (fading, lit 3 0 ∷ lit 0 0 ∷ []) ∷ [];
  abstain_cost = lit 1 0;
}

abbrev scored : EpisodeScore Fixed
scored = score_episode caps short_log spot_truth costs "spot"

abbrev refused : EpisodeScore Fixed
refused =
    score_episode caps (record empty_log { declared_lost_t = some (lit 20 0) }) lost_truth costs
      "fading"

first_correct_test :
    first_correct caps spot short_log.actions short_log.classification_trace ≡ some (lit 5 0)
unfolding first_correct detects is_claim_of cause_eq
first_correct_test = refl

declared_cause_test : declared_cause caps short_log ≡ some spot
unfolding declared_cause
declared_cause_test = refl

first_correct-IsFirst_example :
    IsFirst caps spot short_log.actions short_log.classification_trace
      (first_correct caps spot short_log.actions short_log.classification_trace)
first_correct-IsFirst_example =
    first_correct-IsFirst caps spot short_log.actions short_log.classification_trace

declared_cause-IsDeclared_example :
    IsDeclared caps short_log.classification_trace (declared_cause caps short_log)
declared_cause-IsDeclared_example = declared_cause-IsDeclared caps short_log

counts_cells :
    cell spot spot (confusion (scored ∷ refused ∷ []))
    ≡ count (is_in_cell spot spot) (scored ∷ refused ∷ [])
counts_cells = cell-confusion spot spot (scored ∷ refused ∷ [])

refusal_gate_passed_example :
    (refusal_gate (aggregate (scored ∷ refused ∷ []))).passed
    ≡ all refuses_well (scored ∷ refused ∷ [])
refusal_gate_passed_example =
    refusal_gate_passed Fixed-HasRatios (scored ∷ refused ∷ []) (omega arith)

-- A hop that the mask refuses: the recorded claim is the most probable cause.
rewritten_claims_top_example :
    claim (
      trace_row
        (world steady hop_channel)
        (lit 5 0)
        (screen (ask hop_channel) (lit 5 0) (no_op ∷ []) []))
    ≡ some (top (ask hop_channel).belief)
unfolding screen is_repeat
rewritten_claims_top_example =
    rewritten_claims_top (world steady hop_channel) (ask hop_channel) (lit 5 0) (no_op ∷ []) []
      (λ e. absurd (ground arith))

probe_hops_unseen_example :
    (score_episode caps
      (episode (world steady channel_hop_probe) 9 0 0 0)
      spot_truth
      costs
      "spot").false_positive_acted
    ≡ (cause_eq spot fading
        && any
            (λ a. call_eq a.fn hop_channel)
            (episode (world steady channel_hop_probe) 9 0 0 0).actions)
probe_hops_unseen_example =
    probe_hops_unseen (world steady channel_hop_probe) 9 0 0 0 spot_truth costs "spot"

refuses_in_time :
    refusal caps lost_truth (episode (world steady declare_link_lost) 9 0 0 0)
    ≡ some (elim (episode (world steady declare_link_lost) 9 0 0 0).declared_lost_t [
      | none ↦ false
      | some lost ↦ fixed_number.le (lost -ℤ lit 1 0) (lit 25 0)
    ])
refuses_in_time = refusal_is_deadline (world steady declare_link_lost) 9 0 0 0 lost_truth refl
