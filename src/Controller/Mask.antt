-- ===== src/Controller/Mask.antt =====
-- `Controller._available`: the action mask.
use tactical_radio_jamming_s.Base.{
  ℕ, ltb, Bool, false, ◌&&◌, ◌||◌, Option, none, some, List, [], ◌∷◌, ◌++◌, Number, lit,
  if◌then◌else◌,
}
use tactical_radio_jamming_s.Percept.Observation.{
  ChannelObs, ScanResult, at_channel, off_channel, quietest,
}
use tactical_radio_jamming_s.Api.{
  Call, spectrum_scan, neighbor_probe, silent_listen, load_test, channel_hop_probe, mobility_test,
  no_op, set_tx_power, reroute, change_tdma_slot, hop_channel, fallback_to_lora, move,
  declare_link_lost,
}
use tactical_radio_jamming_s.Controller.State.{World, Contract, State}

-- The calls that are never masked, in the order in which the list is built.
abbrev pub always : List Call
always = no_op ∷ set_tx_power ∷ reroute ∷ change_tdma_slot ∷ neighbor_probe ∷ load_test ∷ []

abbrev pub when : Bool → List Call → List Call
when b cs = if b then cs else []

module _ {F : Type 0} ⦃num : Number F⦄ where
  open num use {lt, le, sub}

  -- hot here, or a materially quieter channel to move to
  hop_pays : Contract F → ChannelObs F → ChannelObs F → Bool
  hop_pays k cur best =
      lt k.jam_energy_dbm cur.noise_dbm || lt (lit 6 0) (sub cur.noise_dbm best.noise_dbm)

  hop_pays_among : Contract F → Option (ChannelObs F) → List (ChannelObs F) → Bool
  unfolding hop_pays quietest
  hop_pays_among k none alts = false
  hop_pays_among k (some cur) [] = false
  hop_pays_among k (some cur) (c ∷ cs) = hop_pays k cur (quietest c cs)

  unfoldable pub hop_useful : Contract F → ℕ → Option (ScanResult F) → Bool
  unfolding hop_pays_among
  hop_useful k ch none = false
  hop_useful k ch (some scan) =
      hop_pays_among k (at_channel ch scan.channels) (off_channel ch scan.channels)

  module _ {S A X : Type 0} (w : World F S A X) (s : State F S A X) (t : F) where
    open w.contract use {
      max_costly_actions, max_channel_hops, max_spectrum_scans, max_silent_listens, max_moves,
      min_scan_interval_s,
    }

    abbrev pub scan_fresh : Bool
    scan_fresh = lt (sub t s.last_scan_t) (lit 10 0)

    abbrev pub may_spend : Bool
    may_spend = ltb s.used.costly max_costly_actions

    abbrev pub may_scan : Bool
    may_scan = ltb s.used.scans max_spectrum_scans && le min_scan_interval_s (sub t s.last_scan_t)

    abbrev pub may_listen : Bool
    may_listen = ltb s.used.silent max_silent_listens

    abbrev pub may_hop : Bool
    may_hop =
        ltb s.used.hops max_channel_hops
        && may_spend
        && scan_fresh
        && hop_useful w.contract (w.sim.channel s.sim) s.last_scan

    abbrev pub may_move : Bool
    may_move = ltb s.used.moves max_moves && may_spend

    abbrev pub may_fall_back : Bool
    may_fall_back = w.lora_available && may_spend

    unfoldable pub available : List Call
    unfolding hop_useful
    available =
        always
        ++ (when may_scan (spectrum_scan ∷ [])
            ++ (when may_listen (silent_listen ∷ [])
                ++ (when may_hop (hop_channel ∷ channel_hop_probe ∷ [])
                    ++ (when may_move (move ∷ mobility_test ∷ [])
                        ++ (when may_fall_back (fallback_to_lora ∷ [])
                            ++ (declare_link_lost ∷ []))))))
