-- ===== src/Controller/Tests.antt =====
-- The controller's theorems at work on the small world.
use tactical_radio_jamming_s.Base.{
  ℕ, ◌≡◌, refl, arith, true, false, [], ◌∷◌, none, some, Fixed, fixed_number, lit, ◌↔◌, ◌&&◌,
}
use tactical_radio_jamming_s.Base.Int.{◌-ℤ◌, ◌+ℤ◌, ◌*ℤ◌, quot}
use tactical_radio_jamming_s.Api.Beliefs.{top}
use tactical_radio_jamming_s.Api.{spot, Call, hop_channel, move, no_op, contains, cause_eq}
use tactical_radio_jamming_s.Controller.State.{State, reset, no_usable_link_timeout}
use tactical_radio_jamming_s.Controller.Mask.{available}
use tactical_radio_jamming_s.Controller.Permits.{contains-available}
use tactical_radio_jamming_s.Controller.Allowed.{chosen, chosen-contains}
use tactical_radio_jamming_s.Controller.Apply.{charge, apply}
use tactical_radio_jamming_s.Controller.Choose.{
  screen, remember_try, choose, tried_at, same_key, is_recovery, is_repeat,
}
use tactical_radio_jamming_s.Controller.Failsafe.{
  failsafe_triggered, overdue, spent_out, all_bad, no_escape,
}
use tactical_radio_jamming_s.Controller.Run.{
  Seen, observe, ticks, tick, may_decide, decide, verify_recovery, note_declared, context,
  log_decision,
}
use tactical_radio_jamming_s.Controller.Budget.{
  WithinBudget, reset-ticks-WithinBudget, move_overruns,
}
use tactical_radio_jamming_s.Controller.Accounts.{IsAccounted, reset-ticks-IsAccounted}
use tactical_radio_jamming_s.Controller.Retry.{remember_tries, masked_try_blocks, repeat_is_idle}
use tactical_radio_jamming_s.Controller.Safety.{
  IsEnded, IsKept, failsafe_forces, failsafe_silent_iff, declared_is_final,
}
use tactical_radio_jamming_s.Controller.Recovery.{recovery_is_kept}
use tactical_radio_jamming_s.Controller.Holds.{IsEarned, recovery-IsEarned}
use tactical_radio_jamming_s.Controller.Toy.{caps, ask, world, steady, dead}

-- the state after `n` seconds in a world that delivers as scheduled
abbrev pub after : (ℕ → Fixed) → Call → ℕ → State Fixed ℕ ℕ ℕ
after pdr c n = ticks (world pdr c) n 0 (reset (world pdr c) 0 0 0)

abbrev seen_next : (pdr : ℕ → Fixed) (c : Call) (n : ℕ) → Seen (world pdr c)
seen_next pdr c n = (observe (world pdr c) (after pdr c n)).0

reset-ticks-WithinBudget_example : WithinBudget caps (after steady move 9).used
reset-ticks-WithinBudget_example = reset-ticks-WithinBudget (world steady move) 9 0 0 0

reset-ticks-IsAccounted_example : IsAccounted (world steady move) (after steady move 9)
reset-ticks-IsAccounted_example = reset-ticks-IsAccounted (world steady move) 9 0 0 0

-- five units spent, on three hops and a move
abbrev nearly_spent : State Fixed ℕ ℕ ℕ
nearly_spent = record (after steady move 3) {
  used = record { hops = 3; scans = 0; silent = 0; moves = 1; costly = 5; lora = 0 };
}

move_overruns_example :
    (contains move (available (world steady move) nearly_spent (lit 9 0)) ≡ true)
    × ((charge move nearly_spent.used).costly ≡ 7)
move_overruns_example = move_overruns (world steady move) nearly_spent (lit 9 0) refl (omega arith)

offers_by_table :
    contains hop_channel (available (world steady hop_channel) nearly_spent (lit 9 0)) ≡ false
offers_by_table = contains-available (world steady hop_channel) nearly_spent (lit 9 0) hop_channel

chosen-contains_example :
    contains
      (chosen
        (world steady hop_channel)
        (seen_next steady hop_channel 9)
        (after steady hop_channel 9)).call
      (available
        (world steady hop_channel)
        (after steady hop_channel 9)
        (seen_next steady hop_channel 9).t)
    ≡ true
chosen-contains_example =
    chosen-contains (world steady hop_channel) (seen_next steady hop_channel 9)
      (after steady hop_channel 9)

idles_repeats :
    (true ≡ true
      → (screen (ask move) (lit 9 0) (move ∷ no_op ∷ []) ((spot, move, lit 5 0) ∷ [])).call ≡ no_op)
    × (true ≡ false
        → true ≡ true
        → screen (ask move) (lit 9 0) (move ∷ no_op ∷ []) ((spot, move, lit 5 0) ∷ []) ≡ ask move)
unfolding tried_at same_key cause_eq top ◌-ℤ◌ is_recovery
idles_repeats =
    repeat_is_idle (ask move) (lit 9 0) (lit 5 0) (move ∷ no_op ∷ []) ((spot, move, lit 5 0) ∷ [])
      refl refl

-- The hop is masked at first and allowed a second later, when it is suppressed.
masked_try_blocks_example :
    ((screen (ask hop_channel) (lit 5 0) (no_op ∷ []) []).call ≡ no_op)
    × ((screen (ask hop_channel) (lit 6 0) (no_op ∷ hop_channel ∷ []) (
          remember_tries
            ((ask no_op, lit 5 0) ∷ (ask hop_channel, lit 6 0) ∷ [])
            (remember_try (ask hop_channel) (lit 5 0) []))).call
        ≡ no_op)
unfolding is_recovery is_repeat ◌-ℤ◌
masked_try_blocks_example =
    masked_try_blocks (ask hop_channel) (ask hop_channel) (lit 5 0) (lit 6 0) (no_op ∷ [])
      (no_op ∷ hop_channel ∷ []) [] ((ask no_op, lit 5 0) ∷ (ask hop_channel, lit 6 0) ∷ []) refl
      refl refl refl refl refl refl

-- a second after the onset, without a link for 25 seconds
abbrev cut_off : State Fixed ℕ ℕ ℕ
cut_off = record (after dead no_op 1) { no_link_for = lit 25 0 }

failsafe_forces_example :
    IsEnded
      (world dead no_op)
      no_usable_link_timeout
      (seen_next dead no_op 1).t
      cut_off
      (decide (world dead no_op) (seen_next dead no_op 1) cut_off)
unfolding failsafe_triggered
failsafe_forces_example = failsafe_forces (world dead no_op) (seen_next dead no_op 1) cut_off refl

dead_rule_silent : (failsafe_triggered (world dead no_op) cut_off (lit 9 0) ≡ none) ↔ (
    (true ≡ false)
    × (overdue caps cut_off.onset_t (lit 9 0) ≡ false)
    × (spent_out (world dead no_op) cut_off ≡ false)
    × ((all_bad caps cut_off.last_scan && true && no_escape (world dead no_op) cut_off) ≡ false))
dead_rule_silent = failsafe_silent_iff (world dead no_op) cut_off (lit 9 0)

abbrev given_up : State Fixed ℕ ℕ ℕ
given_up = record (after steady no_op 3) { declared = true }

declared_is_final_example :
    IsKept (world steady no_op) given_up (ticks (world steady no_op) 9 3 given_up)
declared_is_final_example = declared_is_final (world steady no_op) 9 3 given_up refl

-- good delivery since the second 4, seen at the second 9
abbrev holding : State Fixed ℕ ℕ ℕ
holding = record (reset (world steady no_op) 9 0 0) {
  baseline_pdr = some (lit 1 0);
  recovery_hold_start = some (lit 4 0);
}

recovers : (after steady no_op 12).log.recovery_t ≡ some (lit 9 0)
unfolding decide reset verify_recovery note_declared choose failsafe_triggered context available
    is_repeat apply log_decision quot ◌*ℤ◌ observe ◌+ℤ◌ ◌-ℤ◌ ticks tick screen remember_try
    is_recovery may_decide
recovers = refl

recovery-IsEarned_example :
    IsEarned (world steady no_op) (reset (world steady no_op) 0 0 0) 12 (lit 9 0)
recovery-IsEarned_example = recovery-IsEarned (world steady no_op) 12 0 0 0 recovers

abbrev recovered_at_nine : State Fixed ℕ ℕ ℕ
recovered_at_nine = record holding { log = record (holding.log) { recovery_t = some (lit 9 0) } }

keeps_recovery_time :
    (ticks (world steady no_op) 20 10 recovered_at_nine).log.recovery_t ≡ some (lit 9 0)
keeps_recovery_time = recovery_is_kept (world steady no_op) 20 10 recovered_at_nine refl
