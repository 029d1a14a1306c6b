-- ===== src/Bridge/Budget.antt =====
-- The bridge's mask, and the budget that it keeps.
use mathlib.Core.Path.{subst}
use tactical_radio_jamming_s.Base.{
  ◌≡◌, ap, sym, ◌∙◌, Bool, true, false, List, Number, Bool-cases, inl, inr, arith,
}
use tactical_radio_jamming_s.Api.{
  Cause, Call, Decision, spectrum_scan, silent_listen, channel_hop_probe, mobility_test,
  hop_channel, fallback_to_lora, move, no_op, other, contains,
}
use tactical_radio_jamming_s.Controller.State.{Contract}
use tactical_radio_jamming_s.Controller.Budget.{WithinBudget}
use tactical_radio_jamming_s.Bridge.{Message, Bridge, Setup}
use tactical_radio_jamming_s.Bridge.Mask.{may_scan, may_listen, may_hop, may_move, avail}
use tactical_radio_jamming_s.Bridge.Books.{book, recover, judge_effect}
use tactical_radio_jamming_s.Bridge.Answer.{charge, screen, masked, is_retry, enter, first, context}
use tactical_radio_jamming_s.Bridge.Loop.{consult, decide}
use tactical_radio_jamming_s.Bridge.Protocol.{decide-cases}

module _ {F A X : Type 0} ⦃num : Number F⦄ (k : Contract F) (st : Message F) (t : F)
    (s : Bridge F A X) where
  -- Which calls the mask lets through.
  abbrev permitted : Call → Bool
  permitted spectrum_scan = may_scan k t s
  permitted silent_listen = may_listen k s
  permitted hop_channel = may_hop k st t s
  permitted channel_hop_probe = may_hop k st t s
  permitted move = may_move k s
  permitted mobility_test = may_move k s
  permitted fallback_to_lora = false
  permitted (other _) = false
  permitted _ = true

  contains-avail : (c : Call) → contains c (avail k st t s) ≡ permitted c
  unfolding avail
  contains-avail spectrum_scan = ground arith
  contains-avail silent_listen = ground arith
  contains-avail hop_channel = ground arith
  contains-avail channel_hop_probe = ground arith
  contains-avail move = ground arith
  contains-avail mobility_test = ground arith
  contains-avail fallback_to_lora = ground arith
  contains-avail (other x) = ground arith
  contains-avail c = ground arith

  masked-contains :
      (d : Decision F) → contains (masked (avail k st t s) d).call (avail k st t s) ≡ true
  masked-contains d = elim (Bool-cases (contains d.call (avail k st t s))) [
    | inl e ↦ rw e e
    | inr e ↦ rw e (contains-avail no_op)
  ]

  -- Whatever the agent asks for, the call that the bridge makes of it is in the mask of the tick.
  pub screen-contains :
      (d : Decision F) (tried : List (Cause × Call × F))
      → contains (screen (avail k st t s) t d tried).0.call (avail k st t s) ≡ true
  unfolding screen
  screen-contains d tried = elim (Bool-cases (is_retry (masked (avail k st t s) d) tried)) [
    | inl e ↦ rw e (contains-avail no_op)
    | inr e ↦ rw e (masked-contains d)
  ]

  charge-permitted :
      (c : Call) → permitted c ≡ true → WithinBudget k s.used → WithinBudget k (charge c s.used)
  charge-permitted spectrum_scan h b = ground arith
  charge-permitted silent_listen h b = ground arith
  charge-permitted hop_channel h b = ground arith
  charge-permitted channel_hop_probe h b = ground arith
  charge-permitted move h b = ground arith
  charge-permitted mobility_test h b = ground arith
  charge-permitted _ h b = b

module _ {F A X : Type 0} ⦃num : Number F⦄ (w : Setup F A X) where
  open num use {mul, round_int}

  used-book : (st : Message F) (t : F) (s : Bridge F A X) → (book w st t s).used ≡ s.used
  unfolding book recover
  used-book st t s = ground arith

  used-judge_effect : (t after : F) (s : Bridge F A X) → (judge_effect t after s).used ≡ s.used
  unfolding judge_effect
  used-judge_effect t after s = ground arith

  used-enter :
      (feats : List F) (av : List Call) (t : F) (d : Decision F) (s : Bridge F A X)
      → (enter feats av t d s).used ≡ charge d.call s.used
  unfolding enter
  used-enter feats av t d s = ground arith

  consult-WithinBudget :
      (st : Message F) (t : F) (feats : List F) (s₀ s : Bridge F A X)
      → s.used ≡ s₀.used
      → WithinBudget w.contract s₀.used
      → WithinBudget w.contract (consult w st t feats (avail w.contract st t s₀) s).next.used
  unfolding consult
  consult-WithinBudget st t feats s₀ s e b =
      let av = avail w.contract st t s₀ in
      let judged = judge_effect t (first feats) s in
      let asked = (w.agent.decide feats (context w st t av judged) judged.agent).0 in
      let d = (screen av t asked judged.tried).0 in
      let same = used-judge_effect t (first feats) s ∙ e in
      let allowed = screen-contains w.contract st t s₀ asked judged.tried in
      let charged =
        charge-permitted w.contract st t s₀ d.call
          (sym (contains-avail w.contract st t s₀ d.call) ∙ allowed) b in
      subst (WithinBudget w.contract) (sym (used-enter feats av t d _ ∙ ap (charge d.call) same))
        charged

  -- A turn keeps the budget.
  pub decide-WithinBudget :
      (st : Message F) (t : F) (feats : List F) (s : Bridge F A X)
      → WithinBudget w.contract s.used
      → WithinBudget w.contract (decide w st t feats s).next.used
  decide-WithinBudget st t feats s b =
      let kept = used-book st t s in
      let b' = subst (WithinBudget w.contract) (sym kept) b in
      decide-cases w (λ r. WithinBudget w.contract r.next.used) st t feats s b b' (λ why. b')
        (consult-WithinBudget st t feats s (book w st t s) kept b)
