-- ===== src/Controller/Permits.antt =====
-- The action mask, call by call, and what it implies for the budget.
use tactical_radio_jamming_s.Base.{◌≡◌, Bool, true, false, Number, arith}
use tactical_radio_jamming_s.Api.{
  Call, spectrum_scan, silent_listen, channel_hop_probe, mobility_test, hop_channel,
  fallback_to_lora, move, other, contains,
}
use tactical_radio_jamming_s.Controller.State.{World, State}
use tactical_radio_jamming_s.Controller.Mask.{
  may_scan, may_listen, may_hop, may_move, may_fall_back, available,
}

module _ {F S A X : Type 0} ⦃num : Number F⦄ (w : World F S A X) (s : State F S A X) (t : F) where
  -- Which calls the mask should let through.
  abbrev pub permitted : Call → Bool
  permitted spectrum_scan = may_scan w s t
  permitted silent_listen = may_listen w s t
  permitted hop_channel = may_hop w s t
  permitted channel_hop_probe = may_hop w s t
  permitted move = may_move w s t
  permitted mobility_test = may_move w s t
  permitted fallback_to_lora = may_fall_back w s t
  permitted (other _) = false
  permitted _ = true

  -- The list that `_available` builds holds a call exactly when the table permits it.
  pub contains-available : (c : Call) → contains c (available w s t) ≡ permitted c
  unfolding available
  contains-available spectrum_scan = ground arith
  contains-available silent_listen = ground arith
  contains-available hop_channel = ground arith
  contains-available channel_hop_probe = ground arith
  contains-available move = ground arith
  contains-available mobility_test = ground arith
  contains-available fallback_to_lora = ground arith
  contains-available (other x) = ground arith
  contains-available c = ground arith
