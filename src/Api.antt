-- ===== src/Api.antt =====
-- capstone/agent/api.py and capstone/agent/policy_table.py: what every agent shares. A dictionary
-- of beliefs is a list of pairs in insertion order. The prose fields `why` and `expect` of a
-- decision are left out: no code reads them back.
mod Calls
pub mod Beliefs
unfoldable pub use Calls.*
use tactical_radio_jamming_s.Base.{
  ℕ, zero, suc, ◌+◌, ◌==◌, if◌then◌else◌, String, Bool, true, false, ◌||◌, Option, none, some, List,
  [], ◌∷◌, Number, or_else,
}
use tactical_radio_jamming_s.Base.Int.{ℤ}
use tactical_radio_jamming_s.Percept.Observation.{ScanResult}
pub use tactical_radio_jamming_s.Percept.Observation.{Budget}
use text.Mathlib.Text.{◌==◌ as str_eq}

-- A value in the arguments of a call.
pub data Value (F : Type 0) : Type 0 where
  null : Value F
  int : ℤ → Value F
  num : F → Value F
  str : String → Value F
  ints : List ℤ → Value F

abbrev pub Args : Type 0 → Type 0
Args F = List (String × Value F)

-- `args.get(key)`
pub get : {F : Type 0} → String → Args F → Option (Value F)
get k [] = none
get k ((j, v) ∷ m) = if str_eq j k then some v else get k m

-- `args.get(key, default)`
unfoldable pub get_or : {F : Type 0} → String → Value F → Args F → Value F
unfolding get
get_or k d m = or_else (get k m) d

pub record Decision (F : Type 0) : Type 0 where
  pub belief : List (Cause × F)
  pub call : Call
  pub args : Args F
  pub confidence : F
  pub unrecoverable : F
  pub declared : Option Cause
  pub abstained : Bool

-- The dataclass's defaults.
abbrev pub decision :
    {F : Type 0} ⦃n : Number F⦄ → List (Cause × F) → Call → Args F → F → Decision F
decision ⦃n⦄ b c a p = record {
  belief = b;
  call = c;
  args = a;
  confidence = p;
  unrecoverable = n.decimal 0 0;
  declared = none;
  abstained = false;
}

-- What an agent may see besides the features. No ground truth.
pub record Context (F : Type 0) : Type 0 where
  pub t : F
  pub channel : ℕ
  pub n_channels : ℕ
  pub peers : List String
  pub budget : Budget
  pub available : List Call
  pub last_scan : Option (ScanResult F)
  pub tests_run : List Call
  pub actions_taken : List Call
  pub hypothesis_history : List Cause
  pub lora_available : Bool
