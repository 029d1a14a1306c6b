-- ===== src/Api/Calls.antt =====
-- The causes and the calls of agent/api.py, their equality tests, and the recovery playbook.
use text.Mathlib.Text.{◌==◌ as str_eq}
use text.Mathlib.TextEquality.{eq_iff}
use tactical_radio_jamming_s.Base.{
  ℕ, String, ◌≡◌, Bool, true, false, Option, none, some, List, [], ◌∷◌, ◌==◌, arith, any,
  if◌then◌else◌,
}

-- `CAUSES`, and `UNKNOWN`.
pub data Cause : Type 0 where
  barrage spot reactive sweep fading node_loss congestion hidden_term unknown : Cause

abbrev pub causes : List Cause
causes = barrage ∷ spot ∷ reactive ∷ sweep ∷ fading ∷ node_loss ∷ congestion ∷ hidden_term ∷ []

abbrev pub cause_index : Cause → ℕ
cause_index barrage = 0
cause_index spot = 1
cause_index reactive = 2
cause_index sweep = 3
cause_index fading = 4
cause_index node_loss = 5
cause_index congestion = 6
cause_index hidden_term = 7
cause_index unknown = 8

unfoldable pub cause_eq : Cause → Cause → Bool
cause_eq a b = cause_index a == cause_index b

-- `DIAGNOSE` and `ACTIONS`, and any other text that an agent may name.
pub data Call : Type 0 where
  spectrum_scan neighbor_probe silent_listen load_test channel_hop_probe mobility_test : Call
  no_op set_tx_power reroute change_tdma_slot hop_channel fallback_to_lora move : Call
  declare_link_lost : Call
  other : String → Call

abbrev pub diagnose : List Call
diagnose =
    spectrum_scan ∷ neighbor_probe ∷ silent_listen ∷ load_test ∷ channel_hop_probe ∷ mobility_test
    ∷ []

abbrev pub actions : List Call
actions =
    no_op ∷ set_tx_power ∷ reroute ∷ change_tdma_slot ∷ hop_channel ∷ fallback_to_lora ∷ move
    ∷ declare_link_lost ∷ []

abbrev pub call_index : Call → ℕ
call_index spectrum_scan = 0
call_index neighbor_probe = 1
call_index silent_listen = 2
call_index load_test = 3
call_index channel_hop_probe = 4
call_index mobility_test = 5
call_index no_op = 6
call_index set_tx_power = 7
call_index reroute = 8
call_index change_tdma_slot = 9
call_index hop_channel = 10
call_index fallback_to_lora = 11
call_index move = 12
call_index declare_link_lost = 13
call_index (other _) = 14

abbrev pub same_text : Call → Call → Bool
same_text (other s) (other t) = str_eq s t
same_text _ _ = true

abbrev pub call_eq : Call → Call → Bool
call_eq a b = if call_index a == call_index b then same_text a b else false

abbrev pub contains : Call → List Call → Bool
contains c = any (call_eq c)

pub cause_eq→eq : (a b : Cause) → cause_eq a b ≡ true → a ≡ b
unfolding cause_eq
cause_eq→eq a b h = ground arith

pub cause_eq_refl : (a : Cause) → cause_eq a a ≡ true
unfolding cause_eq
cause_eq_refl a = ground arith

pub call_eq→eq : (a b : Call) → call_eq a b ≡ true → a ≡ b
call_eq→eq (other s) (other t) h = ground (arith, eq_iff s t)
call_eq→eq (other s) b h = ground arith
call_eq→eq a b h = ground arith

-- agent/policy_table.py
unfoldable pub playbook : Cause → Option Call
playbook spot = some hop_channel
playbook sweep = some hop_channel
playbook barrage = some fallback_to_lora
playbook reactive = some change_tdma_slot
playbook fading = some set_tx_power
playbook node_loss = some reroute
playbook congestion = some change_tdma_slot
playbook hidden_term = some change_tdma_slot
playbook unknown = none

pub call_eq_refl : (a : Call) → call_eq a a ≡ true
call_eq_refl (other s) = ground (arith, eq_iff s s)
call_eq_refl a = ground arith
