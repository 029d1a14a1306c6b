-- ===== src/Sim/Jamming.antt =====
-- The power of the jammers, of capstone/sim/refsim.py.
use text.Mathlib.Text.{◌==◌ as str_eq}
use Prim.Native.Nat.{max}
use tactical_radio_jamming_s.Base.{
  ℕ, zero, suc, ◌%◌, ◌==◌, String, Bool, true, false, not, ◌&&◌, ◌||◌, Option, none, some, List, [],
  ◌∷◌, map, any, length, get_elem?, lookup, or_else, Number, lit, of_ℕ, max_of, sum, if◌then◌else◌,
}
use tactical_radio_jamming_s.Scenario.{Point, Node, Jammer, JammerType, node}
use tactical_radio_jamming_s.Sim.Radio.{Maths, Random, leak_db, path_loss_db, to_lin, to_db, minus}
use tactical_radio_jamming_s.Sim.State.{Setup, State}

-- `list(range(1, n + 1))`
abbrev pub range_from : ℕ → ℕ → List ℕ
range_from first zero = []
range_from first (suc n) = first ∷ range_from (suc first) n

-- `xs or d`
abbrev pub or_list : List ℕ → List ℕ → List ℕ
or_list [] d = d
or_list (x ∷ xs) d = x ∷ xs

abbrev among_channels : ℕ → List ℕ → Bool
among_channels ch = any (λ c. c == ch)

abbrev no_channels : List ℕ → Bool
no_channels [] = true
no_channels (c ∷ cs) = false

abbrev pub is_reactive : {F : Type 0} → Jammer F → Bool
is_reactive j = elim j.type [ JammerType.reactive ↦ true | _ ↦ false ]

abbrev pub is_on : {F R : Type 0} → String → State F R → Bool
is_on jid s = or_else (lookup str_eq jid s.jammer_on) false

module _ {F R : Type 0} ⦃num : Number F⦄ (maths : Maths F) (rand : Random F R)
    (setup : Setup F) where
  open num use {add, sub, mul, div, lt, le}

  abbrev pub all_channels : List ℕ
  all_channels = range_from 1 setup.scenario.n_channels

  abbrev leak_lin : ℕ → ℕ → F
  leak_lin ch c = to_lin maths (leak_db c ch)

  -- The channel that a sweep is at; a scenario that was checked has one.
  abbrev swept : Jammer F → State F R → Option ℕ
  swept j s =
      let chans = or_list j.channels all_channels in
      get_elem? chans
        (num.floor (div (mul s.t (lit 1000 0)) (max_of (lit 1 0) j.dwell_ms)) % length chans)

  abbrev leak_of : ℕ → Option ℕ → F
  leak_of ch none = lit 0 0
  leak_of ch (some c) = leak_lin ch c

  abbrev leak_by : JammerType → Jammer F → ℕ → State F R → F
  leak_by JammerType.barrage j ch s =
      let chans = or_list j.channels all_channels in
      let per = div (lit 1 0) (of_ℕ (max 1 (length chans))) in
      sum (map (λ c. mul per (leak_lin ch c)) chans)
  leak_by JammerType.spot j ch s = sum (map (leak_lin ch) j.channels)
  leak_by JammerType.sweep j ch s = leak_of ch (swept j s)
  leak_by JammerType.reactive j ch s =
      if lt s.pending_reactive_until s.t
      then lit 0 0
      else sum (map (leak_lin ch) (or_list j.channels (s.channel ∷ [])))
  leak_by JammerType.silent j ch s = lit 0 0

  -- `_jammer_leak_lin`
  unfoldable pub jammer_leak_lin : Jammer F → ℕ → State F R → F
  jammer_leak_lin j ch s = leak_by j.type j ch s

  abbrev hits_by : JammerType → Jammer F → ℕ → State F R → Bool
  hits_by JammerType.barrage j ch s = no_channels j.channels || among_channels ch j.channels
  hits_by JammerType.spot j ch s = among_channels ch j.channels
  hits_by JammerType.sweep j ch s = elim (swept j s) [ none ↦ false | some c ↦ c == ch ]
  hits_by JammerType.reactive j ch s =
      le s.t s.pending_reactive_until
      && (no_channels j.channels || among_channels ch j.channels || ch == s.channel)
  hits_by JammerType.silent j ch s = false

  -- `_jammer_hits`
  unfoldable pub jammer_hits : Jammer F → ℕ → State F R → Bool
  jammer_hits j ch s = hits_by j.type j ch s

  -- what the jammers that are on add up to on a channel, at a place
  abbrev power_from : F → Point F → ℕ → List (String × Jammer F) → State F R → F
  power_from tot place ch [] s = tot
  power_from tot place ch ((jid, j) ∷ js) s =
      let cm = setup.scenario.channel_model in
      let gain = jammer_leak_lin j ch s in
      let pl =
        path_loss_db maths (maths.dist place j.pos) cm.path_loss cm.exponent cm.ref_loss_db in
      let next =
        if is_on jid s && not (le gain (lit 0 0))
        then add tot (mul (to_lin maths (sub j.eirp_dbm pl)) gain)
        else tot in
      power_from next place ch js s

  abbrev power_at : Point F → ℕ → State F R → F
  power_at place ch s =
      let tot = power_from (lit 0 0) place ch setup.jammers s in
      if lt (lit 0 0) tot then to_db maths tot else minus 200 0

  -- `_jammer_power_at_agent`
  unfoldable pub jammer_power_at_agent : ℕ → State F R → F
  jammer_power_at_agent ch s = power_at s.pos ch s

  abbrev power_at_node : Option (Node F) → State F R → F
  power_at_node none s = minus 200 0
  power_at_node (some peer) s = power_at peer.pos s.channel s

  -- `_jammer_power_at_peer`
  unfoldable pub jammer_power_at_peer : String → State F R → F
  jammer_power_at_peer p s = power_at_node (node p setup.scenario) s

  abbrev pub fire : Jammer F → State F R → State F R
  fire j s =
      let (x, r) = rand.random s.rng in
      let until = add (add s.t (mul j.delay_us (lit 1 6))) (mul j.burst_ms (lit 1 3)) in
      record s {
        rng = r;
        pending_reactive_until =
            if lt x j.p_fire
            then max_of s.pending_reactive_until until
            else s.pending_reactive_until;
      }

  unfoldable pub react : List (String × Jammer F) → State F R → State F R
  react [] s = s
  react ((jid, j) ∷ js) s =
      react js (if is_reactive j && is_on jid s && s.own_tx_active then fire j s else s)

  -- `_update_reactive`
  unfoldable pub update_reactive : State F R → State F R
  update_reactive s = react setup.jammers s
