-- ===== src/Controller/Budget.antt =====
-- The budget of an episode, for every simulator, agent and extractor.
use tactical_radio_jamming_s.Base.{
  ℕ, zero, suc, ◌+◌, ◌≤◌, ◌<◌, ◌≡◌, true, Number, arith, Bool-cases, inl, inr, ◌∙◌, sym,
}
use tactical_radio_jamming_s.Api.{
  Call, spectrum_scan, silent_listen, channel_hop_probe, mobility_test, hop_channel,
  fallback_to_lora, move, contains,
}
use tactical_radio_jamming_s.Controller.State.{World, State, Used, Contract, reset}
use tactical_radio_jamming_s.Controller.Mask.{available}
use tactical_radio_jamming_s.Controller.Permits.{permitted, contains-available}
use tactical_radio_jamming_s.Controller.Apply.{charge}
use tactical_radio_jamming_s.Controller.Run.{Seen, observe, may_decide, decide, tick, ticks}
use tactical_radio_jamming_s.Controller.Allowed.{chosen, chosen-contains, decide-used}

-- The cap on costly actions can be passed by one: a move costs two and is allowed below the cap.
pub record WithinBudget {F : Type 0} (k : Contract F) (u : Used) : Type 0 where
  pub hops_le : u.hops ≤ k.max_channel_hops
  pub scans_le : u.scans ≤ k.max_spectrum_scans
  pub silent_le : u.silent ≤ k.max_silent_listens
  pub moves_le : u.moves ≤ k.max_moves
  pub costly_le : u.costly ≤ k.max_costly_actions + 1

module _ {F S A X : Type 0} ⦃num : Number F⦄ (w : World F S A X) where
  charge-permitted :
      (c : Call) (s : State F S A X) (t : F)
      → permitted w s t c ≡ true
      → WithinBudget w.contract s.used
      → WithinBudget w.contract (charge c s.used)
  charge-permitted spectrum_scan s t h b = ground arith
  charge-permitted silent_listen s t h b = ground arith
  charge-permitted hop_channel s t h b = ground arith
  charge-permitted channel_hop_probe s t h b = ground arith
  charge-permitted move s t h b = ground arith
  charge-permitted mobility_test s t h b = ground arith
  charge-permitted fallback_to_lora s t h b = ground arith
  charge-permitted _ s t h b = b

  pub decide-WithinBudget :
      (o : Seen w) (s : State F S A X)
      → WithinBudget w.contract s.used
      → WithinBudget w.contract (decide w o s).used
  decide-WithinBudget o s b = rw decide-used (
      charge-permitted (chosen w o s).call s o.t
        (sym (contains-available w s o.t (chosen w o s).call) ∙ chosen-contains w o s) b)

  pub observe-used : (s : State F S A X) → (observe w s).1.used ≡ s.used
  unfolding observe
  observe-used s = ground arith

  tick-WithinBudget :
      (i : ℕ) (s : State F S A X)
      → WithinBudget w.contract s.used
      → WithinBudget w.contract (tick w i s).used
  unfolding tick
  tick-WithinBudget i s b =
      let (o, s') = observe w s in
      let b' : WithinBudget w.contract s'.used = rw (observe-used s) b in
      elim (Bool-cases (may_decide w i o.pdr s')) [
        | inl due ↦ rw due (decide-WithinBudget o s' b')
        | inr idle ↦ rw idle b'
      ]

  ticks-WithinBudget :
      (n i : ℕ) (s : State F S A X)
      → WithinBudget w.contract s.used
      → WithinBudget w.contract (ticks w n i s).used
  unfolding ticks
  ticks-WithinBudget zero i s b = b
  ticks-WithinBudget (suc n) i s b =
      ticks-WithinBudget n (i + 1) (tick w i s) (tick-WithinBudget i s b)

  -- However many ticks pass after a reset, and whatever the simulator, the agent and the
  -- extractor do, hops, scans, silent listens and moves stay within the contract's caps, and
  -- costly actions within one more than theirs.
  pub reset-ticks-WithinBudget :
      (n : ℕ) (sim : S) (agent : A) (ex : X)
      → WithinBudget w.contract (ticks w n 0 (reset w sim agent ex)).used
  unfolding reset
  reset-ticks-WithinBudget n sim agent ex =
      ticks-WithinBudget n 0 (reset w sim agent ex) (omega arith)

  -- One costly action short of the cap, the mask still offers a move, and the move passes the cap.
  pub move_overruns :
      (s : State F S A X) (t : F)
      → s.used.costly + 1 ≡ w.contract.max_costly_actions
      → s.used.moves < w.contract.max_moves
      → (contains move (available w s t) ≡ true)
        × ((charge move s.used).costly ≡ w.contract.max_costly_actions + 1)
  move_overruns s t e m = (contains-available w s t move ∙ ground arith, ground arith)
