-- ===== src/Bridge/Protocol.antt =====
-- What the turns of the bridge's loop have in common, whatever they decide, and the replies of a session.
use tactical_radio_jamming_s.Base.{
  ◌%◌, ◌==◌, Option, none, some, List, Number, lit, if◌then◌else◌, if_both,
}
use tactical_radio_jamming_s.Controller.State.{Reason}
use tactical_radio_jamming_s.Bridge.{Message, Bridge, Setup}
use tactical_radio_jamming_s.Bridge.Mask.{avail}
use tactical_radio_jamming_s.Bridge.Books.{book, reason_of}
use tactical_radio_jamming_s.Bridge.Loop.{
  Turn, consult, forced, skipped, after_book, decide, is_gated,
}

module _ {F A X : Type 0} ⦃num : Number F⦄ (w : Setup F A X) where
  open num use {mul, round_int}

  -- A turn is skipped, forced by the dead-man rule, or the agent's.
  pub decide-cases :
      (P : Turn F A X → Type 0) (st : Message F) (t : F) (feats : List F) (s : Bridge F A X)
      → P (skipped w s)
      → P (skipped w (book w st t s))
      → ((why : Reason) → P (forced w t why (book w st t s)))
      → P (consult w st t feats (avail w.contract st t s) (book w st t s))
      → P (decide w st t feats s)
  unfolding decide
  decide-cases P st t feats s early gated dead asked =
      if_both P (round_int (mul t (lit 10 0)) % 10 == 0) _ _ (by_reason (reason_of w.contract t s'))
        early
    where
      s' : Bridge F A X
      s' = book w st t s

      let_in : P (
          if is_gated w t s'
          then skipped w s'
          else consult w st t feats (avail w.contract st t s) s')
      let_in = if_both P (is_gated w t s') _ _ gated asked

      by_reason : (r : Option Reason) → P (after_book w st t feats (avail w.contract st t s) r s')
      by_reason none = let_in
      by_reason (some why) = if_both P s'.declared _ _ let_in (dead why)
