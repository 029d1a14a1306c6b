-- ===== src/Bridge/Mask.antt =====
-- The action mask of the bridge: the list `avail`. There is no second radio, so no fallback to LoRa.
use tactical_radio_jamming_s.Base.{
  ltb, Bool, true, false, ◌&&◌, Option, none, some, List, [], ◌∷◌, ◌++◌, Number, lit,
}
use tactical_radio_jamming_s.Api.{
  Call, spectrum_scan, silent_listen, channel_hop_probe, mobility_test, hop_channel, move,
  declare_link_lost,
}
use tactical_radio_jamming_s.Controller.State.{Contract}
use tactical_radio_jamming_s.Controller.Mask.{always, when, hop_useful}
use tactical_radio_jamming_s.Bridge.{Message, Bridge}
use tactical_radio_jamming_s.Bridge.Observe.{channel_of}

module _ {F : Type 0} ⦃num : Number F⦄ (k : Contract F) where
  open num use {sub, le, lt}

  abbrev is_due : F → Option F → Bool
  is_due t none = true
  is_due t (some prev) = le k.min_scan_interval_s (sub t prev)

  -- less than ten seconds since the last scan
  abbrev is_fresh : F → Option F → Bool
  is_fresh t none = false
  is_fresh t (some prev) = lt (sub t prev) (lit 10 0)

  abbrev pub may_scan : {A X : Type 0} → F → Bridge F A X → Bool
  may_scan t s = ltb s.used.scans k.max_spectrum_scans && is_due t s.prev_scan_t

  abbrev pub may_listen : {A X : Type 0} → Bridge F A X → Bool
  may_listen s = ltb s.used.silent k.max_silent_listens

  abbrev pub may_hop : {A X : Type 0} → Message F → F → Bridge F A X → Bool
  may_hop st t s =
      ltb s.used.hops k.max_channel_hops
      && ltb s.used.costly k.max_costly_actions
      && is_fresh t s.prev_scan_t
      && hop_useful k (channel_of st) s.last_scan

  abbrev pub may_move : {A X : Type 0} → Bridge F A X → Bool
  may_move s = ltb s.used.moves k.max_moves && ltb s.used.costly k.max_costly_actions

  unfoldable pub avail : {A X : Type 0} → Message F → F → Bridge F A X → List Call
  avail st t s =
      always
      ++ (when (may_scan t s) (spectrum_scan ∷ [])
          ++ (when (may_listen s) (silent_listen ∷ [])
              ++ (when (may_hop st t s) (hop_channel ∷ channel_hop_probe ∷ [])
                  ++ (when (may_move s) (move ∷ mobility_test ∷ []) ++ (declare_link_lost ∷ [])))))
