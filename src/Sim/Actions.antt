-- ===== src/Sim/Actions.antt =====
-- The operations of capstone/sim/refsim.py that the controller calls.
use text.Mathlib.Text.{◌==◌ as str_eq}
use Prim.Native.Nat.{max, min}
use tactical_radio_jamming_s.Base.{
  ℕ, ◌+◌, ◌-◌, ◌%◌, String, Bool, true, false, not, ◌&&◌, Option, none, some, List, [], ◌∷◌, map,
  keep, lookup, store, has_key, same_key, or_else, Number, lit, max_of, min_of, if◌then◌else◌,
}
use tactical_radio_jamming_s.Base.Int.{ℤ, pos, negsuc}
use tactical_radio_jamming_s.Scenario.{Point}
use tactical_radio_jamming_s.Sim.Radio.{minus}
use tactical_radio_jamming_s.Sim.State.{State, Report}
use tactical_radio_jamming_s.Sim.Link.{is_alive}

-- `max(1, min(n, ch))`
abbrev pub clamp_channel : ℕ → ℤ → ℕ
clamp_channel n (pos ch) = max 1 (min n ch)
clamp_channel n (negsuc ch) = 1

-- `slot % 8`, which Python rounds down
abbrev pub slot_mod : ℤ → ℕ
slot_mod (pos n) = n % 8
slot_mod (negsuc n) = 7 - n % 8

module _ {F R : Type 0} where
  -- `hop_channel`, in a band of `n` channels
  unfoldable pub hop_channel : ℕ → ℤ → State F R → State F R
  hop_channel n ch s = record s { channel = clamp_channel n ch }

  -- `fallback_to_lora`
  unfoldable pub fallback_to_lora : State F R → State F R
  fallback_to_lora s = record s { lora_active = true }

  -- `declare_link_lost`
  unfoldable pub declare_link_lost : State F R → State F R
  declare_link_lost s = record s { declared_lost = true }

  abbrev pub rerouted : List String → State F R → State F R
  rerouted [] s = s
  rerouted (p ∷ live) s = record s { neighbors = p ∷ live }

  -- `reroute`
  unfoldable pub reroute : State F R → State F R
  reroute s = rerouted (keep (λ p. is_alive p s) s.neighbors) s

  -- The peers that a probe asks: the one that is named, if it is known, or all.
  abbrev pub probed : Option String → State F R → List (Option String)
  probed none s = map (λ p. p.0) s.alive
  probed (some p) s =
      if not (str_eq p "") && has_key same_key (some p) s.alive
      then some p ∷ []
      else map (λ p. p.0) s.alive

  abbrev pub fresh_report : String → Option (Report F) → State F R → State F R
  fresh_report p none s = s
  fresh_report p (some rep) s = record s {
    peer_reports = store str_eq p (record rep { t = s.t }) s.peer_reports;
  }

  -- a live peer answers, which renews its report
  abbrev pub answer : Option String → State F R → State F R
  answer none s = s
  answer (some p) s = if is_alive p s then fresh_report p (lookup str_eq p s.peer_reports) s else s

  abbrev pub answers : List (Option String) → State F R → State F R
  answers [] s = s
  answers (p ∷ ps) s = answers ps (answer p s)

  abbrev pub statuses : List (Option String) → State F R → List (Option String × Bool)
  statuses [] s = []
  statuses (p ∷ ps) s = (p, or_else (lookup same_key p s.alive) true) ∷ statuses ps s

  -- `neighbor_probe`; its answer is `probe_results`
  unfoldable pub neighbor_probe : Option String → State F R → State F R
  neighbor_probe peer s =
      let s' = answers (probed peer s) s in
      record s' { probe_results = statuses (probed peer s) s; probes_run = s.probes_run + 1 }

module _ {F R : Type 0} ⦃num : Number F⦄ where
  open num use {add, mul}

  -- `set_tx_power`
  unfoldable pub set_tx_power : F → State F R → State F R
  set_tx_power dbm s = record s { tx_power = max_of (minus 4 0) (min_of (lit 20 0) dbm) }

  -- `load_test`
  unfoldable pub load_test : F → State F R → State F R
  load_test factor s = record s { load_factor = max_of (lit 1 0) (mul s.load_factor factor) }

  -- `change_tdma_slot`
  unfoldable pub change_tdma_slot : ℤ → State F R → State F R
  change_tdma_slot slot s = record s {
    tdma_slot = slot_mod slot;
    load_factor = max_of (lit 1 0) (mul s.load_factor (lit 25 2));
    hidden = false;
  }

  -- `move`
  unfoldable pub move : Point F → State F R → State F R
  move (dx, dy, dz) s = let (x, y, z) = s.pos in record s { pos = (add x dx, add y dy, add z dz) }
