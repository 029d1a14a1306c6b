-- ===== src/Agents/Baseline.antt =====
-- capstone/agent/baseline.py: the hand-written rules that the student is measured against.
pub mod Guards
mod Tests
pub mod Sample
use tactical_radio_jamming_s.Base.{
  ℕ, ◌+◌, ◌%◌, Bool, true, false, not, ◌&&◌, ◌||◌, String, Option, none, some, List, [], ◌∷◌, map,
  get_elem?, or_else, if◌then◌else◌, Number, lit,
}
use tactical_radio_jamming_s.Base.Int.{pos}
use tactical_radio_jamming_s.Percept.Observation.{ChannelObs, ScanResult, off_channel, quietest}
use tactical_radio_jamming_s.Api.{
  Cause, causes, barrage, spot, reactive, sweep, fading, node_loss, congestion, hidden_term,
  unknown, Call, spectrum_scan, neighbor_probe, silent_listen, load_test, mobility_test, no_op,
  set_tx_power, reroute, change_tdma_slot, hop_channel, fallback_to_lora, declare_link_lost,
  contains, Args, Value, Decision, decision, Context,
}
use tactical_radio_jamming_s.Api.Beliefs.{top, top_p, normalise, assign, weight}

-- `ctx.peers[0] if ctx.peers else "N2"`
abbrev first_peer : List String → String
first_peer [] = "N2"
first_peer (p ∷ ps) = p

module _ {F : Type 0} ⦃num : Number F⦄ where
  open num use {lt, le, neg}

  -- `f[i]`; the extractor's vectors are long enough for every index used here
  abbrev pub at : List F → ℕ → F
  at f i = or_else (get_elem? f i) (lit 0 0)

  abbrev above : List F → ℕ → F → Bool
  above f i x = lt x (at f i)

  abbrev below : List F → ℕ → F → Bool
  below f i x = lt (at f i) x

  -- `{c: 0.02 for c in CAUSES}`
  abbrev flat : List (Cause × F)
  flat = map (λ c. (c, lit 2 2)) causes

  jamming_belief : Bool → List F → List (Cause × F)
  jamming_belief fresh f =
      if fresh
      then (if below f 32 (lit 25 2) && above f 31 (lit 0 0)
          then assign barrage (lit 85 2) flat
          else if le (lit 25 2) (at f 32)
          then assign spot (lit 85 2) flat
          else assign spot (lit 3 1) (assign barrage (lit 3 1) flat))
      else assign sweep (lit 15 2) (assign spot (lit 3 1) (assign barrage (lit 3 1) flat))

  quiet_belief : List F → List (Cause × F)
  quiet_belief f =
      if above f 5 (lit 3 1) && above f 43 (lit 4 1) && below f 17 (lit 15 2) && below f 6 (lit 6 1)
      then assign node_loss (lit 8 1) flat
      else if above f 29 (lit 25 2) && above f 28 (lit 2 1)
      then assign congestion (lit 8 1) flat
      else if above f 24 (lit 1 1) && below f 28 (lit 2 1)
      then assign hidden_term (lit 7 1) flat
      else if above f 12 (lit 35 2) && below f 17 (lit 15 2)
      then assign fading (lit 85 2) flat
      else if below f 0 (neg (lit 3 1)) && below f 17 (lit 15 2)
      then assign node_loss (lit 1 1) (assign fading (lit 75 2) flat)
      else flat

  -- `_belief`
  unfoldable pub belief : List F → List (Cause × F)
  unfolding jamming_belief quiet_belief
  belief f =
      let fresh = below f 30 (lit 35 2) in
      normalise (
        if above f 22 (lit 35 2)
        then assign reactive (lit 85 2) flat
        else if fresh && above f 35 (lit 3 1)
        then assign sweep (lit 8 1) flat
        else if above f 17 (lit 25 2) && above f 20 (lit 1 1)
        then jamming_belief fresh f
        else quiet_belief f)

  -- suspected, and not yet confirmed
  abbrev suspected : F → Cause → List (Cause × F) → Bool
  suspected threshold c b = lt (lit 2 1) (weight c b) && lt (weight c b) threshold

  -- `_cheapest_test`; `threshold` is `act_threshold`
  unfoldable pub cheapest_test : F → List (Cause × F) → List F → Context F → Option (Decision F)
  cheapest_test threshold b f ctx =
      let p = top_p b in
      if le (lit 35 2) (at f 30)
        && contains spectrum_scan ctx.available
        && (above f 17 (lit 25 2) || lt p threshold)
      then some (decision b spectrum_scan (("dwell_ms", Value.int (pos 20)) ∷ []) p)
      else if suspected threshold reactive b && contains silent_listen ctx.available
      then some (decision b silent_listen (("duration_ms", Value.int (pos 200)) ∷ []) p)
      else if suspected threshold node_loss b && contains neighbor_probe ctx.available
      then some (decision b neighbor_probe (("peer", Value.str (first_peer ctx.peers)) ∷ []) p)
      else if suspected threshold congestion b && contains load_test ctx.available
      then some (decision b load_test (("factor", Value.num (lit 5 1)) ∷ []) p)
      else if suspected threshold fading b && contains mobility_test ctx.available
      then some (
          decision b mobility_test
            (("dx", Value.num (lit 30 0))
              ∷ ("dy", Value.num (lit 0 0))
              ∷ ("dz", Value.num (lit 0 0))
              ∷ [])
            p)
      else none

  abbrev best_of : ℕ → List (ChannelObs F) → ℕ
  best_of next [] = next
  best_of next (c ∷ cs) = (quietest c cs).ch

  -- `_best_channel`
  unfoldable pub best_channel : Context F → ℕ
  best_channel ctx =
      let next = ctx.channel % ctx.n_channels + 1 in
      elim ctx.last_scan [
        | none ↦ next
        | some scan ↦ best_of next (off_channel ctx.channel scan.channels)
      ]

  abbrev hop_to : List (Cause × F) → Context F → Decision F
  hop_to b ctx =
      decision b hop_channel (("channel", Value.int (pos (best_channel ctx))) ∷ []) (top_p b)

  abbrev pub wait : List (Cause × F) → Decision F
  wait b = decision b no_op [] (top_p b)

  abbrev offer : Call → Args F → List (Cause × F) → Context F → Decision F
  offer c args b ctx = if contains c ctx.available then decision b c args (top_p b) else wait b

  -- `_act`, by the leading cause
  unfoldable pub act_on : Cause → List (Cause × F) → List F → Context F → Decision F
  act_on spot b f ctx = if contains hop_channel ctx.available then hop_to b ctx else wait b
  act_on sweep b f ctx = if contains hop_channel ctx.available then hop_to b ctx else wait b
  act_on reactive b f ctx = offer change_tdma_slot (("slot", Value.int (pos 3)) ∷ []) b ctx
  act_on barrage b f ctx =
      if ctx.lora_available && contains fallback_to_lora ctx.available && above f 31 (lit 5 1)
      then decision b fallback_to_lora [] (top_p b)
      else if contains hop_channel ctx.available
      then hop_to b ctx
      else if above f 31 (lit 5 1) && le (lit 7 1) (top_p b)
      then record (decision b declare_link_lost [] (top_p b)) { unrecoverable = lit 9 1 }
      else wait b
  act_on fading b f ctx = offer set_tx_power (("dbm", Value.int (pos 20)) ∷ []) b ctx
  act_on node_loss b f ctx = offer reroute (("via", Value.null) ∷ []) b ctx
  act_on congestion b f ctx = offer change_tdma_slot (("slot", Value.int (pos 5)) ∷ []) b ctx
  act_on hidden_term b f ctx = offer change_tdma_slot (("slot", Value.int (pos 5)) ∷ []) b ctx
  act_on unknown b f ctx = wait b

  unfoldable pub act : List (Cause × F) → List F → Context F → Decision F
  unfolding act_on
  act b f ctx = act_on (top b) b f ctx

  unfoldable pub decide_on : F → List (Cause × F) → List F → Context F → Decision F
  decide_on threshold b f ctx =
      if lt (top_p b) threshold
      then or_else (cheapest_test threshold b f ctx) (wait b)
      else let d = act b f ctx in if contains d.call ctx.available then d else wait b

  -- `decide`
  unfoldable pub decide : F → List F → Context F → Decision F
  decide threshold f ctx = decide_on threshold (belief f) f ctx
