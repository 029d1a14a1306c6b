-- ===== src/Controller/Failsafe.antt =====
-- `Controller._failsafe_triggered`: the dead-man rule, which runs whatever the agent says.
use tactical_radio_jamming_s.Base.{
  ltb, leb, Bool, false, not, ◌&&◌, ◌||◌, Option, none, some, all, Number, lit, truthy,
  if◌then◌else◌, [], ◌∷◌,
}
use tactical_radio_jamming_s.Percept.Observation.{ChannelObs, ScanResult}
use tactical_radio_jamming_s.Controller.State.{
  World, State, Contract, Reason, no_usable_link_timeout, recovery_timeout, budget_exhausted,
  all_channels_jammed_no_escape,
}

module _ {F : Type 0} ⦃num : Number F⦄ where
  open num use {lt, le, sub}

  abbrev hot : Contract F → ChannelObs F → Bool
  hot k c = lt k.jam_energy_dbm c.noise_dbm

  -- a scan that lists channels, every one of them hot
  unfoldable pub all_bad : Contract F → Option (ScanResult F) → Bool
  all_bad k none = false
  all_bad k (some scan) = elim scan.channels [ [] ↦ false | c ∷ cs ↦ all (hot k) (c ∷ cs) ]

  -- the incident has lasted too long; an onset at 0.0 counts as none
  unfoldable pub overdue : Contract F → Option F → F → Bool
  overdue k none t = false
  overdue k (some onset) t = truthy onset && le k.recovery_timeout_s (sub t onset)

  module _ {S A X : Type 0} (w : World F S A X) (s : State F S A X) where
    abbrev pub no_escape : Bool
    no_escape = not w.lora_available || ltb 0 s.used.lora

    abbrev pub spent_out : Bool
    spent_out = leb w.contract.max_costly_actions s.used.costly && lt (lit 3 0) s.no_link_for

    unfoldable pub failsafe_triggered : F → Option Reason
    unfolding all_bad overdue
    failsafe_triggered t =
        if le w.contract.no_link_declare_s s.no_link_for
        then some no_usable_link_timeout
        else if overdue w.contract s.onset_t t
        then some recovery_timeout
        else if spent_out
        then some budget_exhausted
        else if all_bad w.contract s.last_scan && lt (lit 2 0) s.no_link_for && no_escape
        then some all_channels_jammed_no_escape
        else none
