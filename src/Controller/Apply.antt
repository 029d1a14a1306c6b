-- ===== src/Controller/Apply.antt =====
-- `Controller._apply`: the call that was chosen, its charge on the budget, and the rung reached.
use Prim.Native.Nat.{max}
use tactical_radio_jamming_s.Base.{ℕ, ◌+◌, true, Option, none, some, Number, lit}
use tactical_radio_jamming_s.Base.Int.{pos}
use tactical_radio_jamming_s.Api.{
  Call, Value, Decision, get_or, spectrum_scan, neighbor_probe, silent_listen, load_test,
  channel_hop_probe, mobility_test, no_op, set_tx_power, reroute, change_tdma_slot, hop_channel,
  fallback_to_lora, move, declare_link_lost,
}
use tactical_radio_jamming_s.Controller.State.{World, State, Used}

-- `LADDER.index(call)`
abbrev pub ladder_index : Call → Option ℕ
ladder_index no_op = some 0
ladder_index set_tx_power = some 1
ladder_index change_tdma_slot = some 2
ladder_index reroute = some 3
ladder_index hop_channel = some 4
ladder_index move = some 5
ladder_index fallback_to_lora = some 6
ladder_index declare_link_lost = some 7
ladder_index _ = none

abbrev pub deepen : ℕ → Option ℕ → ℕ
deepen rung none = rung
deepen rung (some i) = max rung i

-- What a call adds to `self.used`. `BUDGET_COST["fallback_to_lora"]` is 1.
abbrev pub charge : Call → Used → Used
charge spectrum_scan u = record u { scans = u.scans + 1 }
charge silent_listen u = record u { silent = u.silent + 1 }
charge hop_channel u = record u { hops = u.hops + 1; costly = u.costly + 1 }
charge channel_hop_probe u = record u { hops = u.hops + 1; costly = u.costly + 1 }
charge move u = record u { moves = u.moves + 1; costly = u.costly + 2 }
charge mobility_test u = record u { moves = u.moves + 1; costly = u.costly + 2 }
charge fallback_to_lora u = record u { lora = u.lora + 1; costly = u.costly + 1 }
charge _ u = u

module _ {F S A X : Type 0} ⦃num : Number F⦄ (w : World F S A X) where
  open w.sim use {
    channel, scan, load_test as drop_load, neighbor_probe as probe, hop_channel as hop,
    reroute as change_route, set_tx_power as set_power, change_tdma_slot as change_slot,
    move as fly, fallback_to_lora as fall_back, declare_link_lost as declare_lost,
  }

  -- the scan's result is handed to the extractor and kept for the mask
  do_scan : Decision F → F → State F S A X → State F S A X
  do_scan d t s =
      let (result, sim') =
        scan (get_or "channels" Value.null d.args) (get_or "dwell_ms" (Value.int (pos 20)) d.args)
          s.sim in
      record s {
        sim = sim';
        extractor = w.extractor.note_scan result s.extractor;
        last_scan = some result;
        last_scan_t = t;
      }

  abbrev on_sim : (S → S) → State F S A X → State F S A X
  on_sim f s = record s { sim = f s.sim }

  -- the effect of each call on the world
  unfoldable pub perform : Call → Decision F → F → State F S A X → State F S A X
  unfolding do_scan
  perform spectrum_scan d t s = do_scan d t s
  perform load_test d t s = on_sim (drop_load (get_or "factor" (Value.num (lit 5 1)) d.args)) s
  perform neighbor_probe d t s = on_sim (probe (get_or "peer" Value.null d.args)) s
  perform hop_channel d t s =
      on_sim (hop (get_or "channel" (Value.int (pos (channel s.sim))) d.args)) s
  perform channel_hop_probe d t s =
      on_sim (hop (get_or "channel" (Value.int (pos (channel s.sim))) d.args)) s
  perform reroute d t s = on_sim (change_route (get_or "via" Value.null d.args)) s
  perform set_tx_power d t s = on_sim (set_power (get_or "dbm" (Value.int (pos 20)) d.args)) s
  perform change_tdma_slot d t s = on_sim (change_slot (get_or "slot" (Value.int (pos 1)) d.args)) s
  perform move d t s =
      on_sim
        (fly (get_or "dx" (Value.num (lit 30 0)) d.args) (get_or "dy" (Value.num (lit 0 0)) d.args)
          (get_or "dz" (Value.num (lit 0 0)) d.args))
        s
  perform mobility_test d t s =
      on_sim
        (fly (get_or "dx" (Value.num (lit 30 0)) d.args) (get_or "dy" (Value.num (lit 0 0)) d.args)
          (get_or "dz" (Value.num (lit 0 0)) d.args))
        s
  perform fallback_to_lora d t s = on_sim fall_back s
  perform declare_link_lost d t s = record (on_sim declare_lost s) { declared = true }
  perform _ d t s = s

  unfoldable pub apply : Decision F → F → State F S A X → State F S A X
  unfolding perform
  apply d t s =
      let s' = perform d.call d t s in
      record s' { used = charge d.call s.used; rung = deepen s.rung (ladder_index d.call) }
