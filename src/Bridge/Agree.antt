-- ===== src/Bridge/Agree.antt =====
-- The mask of the bridge against the mask of the controller: two lists, one for each world.
use tactical_radio_jamming_s.Base.{◌≡◌, ◌⊎◌, inl, inr, refl, true, false, none, some, Number, lit}
use tactical_radio_jamming_s.Controller.State.{World, State}
use tactical_radio_jamming_s.Controller.Mask.{available, may_scan, may_hop}
use tactical_radio_jamming_s.Bridge.{Message, Bridge}
use tactical_radio_jamming_s.Bridge.Observe.{channel_of}
use tactical_radio_jamming_s.Bridge.Mask.{avail}
use tactical_radio_jamming_s.Bridge.Mask.{may_scan as may_scan_here, may_hop as may_hop_here}

module _ {F S A X B Y : Type 0} ⦃num : Number F⦄ (w : World F S A X) (st : Message F) (t : F) where
  open num use {le, lt, sub}

  -- The two programs have spent the same and have seen the same scan; and where the bridge has not
  -- scanned yet, the controller's time of the last scan is long ago.
  pub record AreAlike (s : State F S A X) (b : Bridge F B Y) : Type 0 where
    pub used_eq : b.used ≡ s.used
    pub scan_eq : b.last_scan ≡ s.last_scan
    pub channel_eq : channel_of st ≡ w.sim.channel s.sim
    pub time_eq :
        (b.prev_scan_t ≡ some s.last_scan_t)
        ⊎ ((b.prev_scan_t ≡ none)
            × (le w.contract.min_scan_interval_s (sub t s.last_scan_t) ≡ true)
            × (lt (sub t s.last_scan_t) (lit 10 0) ≡ false))

  scan-agrees :
      (s : State F S A X) (b : Bridge F B Y)
      → AreAlike s b
      → may_scan_here w.contract t b ≡ may_scan w s t
  scan-agrees s b h = elim h.time_eq [
    | inl e ↦ rw (e, h.used_eq) refl
    | inr e ↦ rw (e.0, h.used_eq, e.1) refl
  ]

  hop-agrees :
      (s : State F S A X) (b : Bridge F B Y)
      → AreAlike s b
      → may_hop_here w.contract st t b ≡ may_hop w s t
  hop-agrees s b h = elim h.time_eq [
    | inl e ↦ rw (e, h.used_eq, h.channel_eq, h.scan_eq) refl
    | inr e ↦ rw (e.0, h.used_eq, h.channel_eq, h.scan_eq, e.2) refl
  ]

  -- In a world without a second radio, when the bridge and the controller have spent the same, have seen
  -- the same scan at the same time and are on the same channel, the bridge's mask is the controller's,
  -- call by call and in the same order.
  pub avail-available :
      (s : State F S A X) (b : Bridge F B Y)
      → AreAlike s b
      → w.lora_available ≡ false
      → avail w.contract st t b ≡ available w s t
  unfolding avail available
  avail-available s b h e = rw (scan-agrees s b h, hop-agrees s b h, h.used_eq, e) refl
