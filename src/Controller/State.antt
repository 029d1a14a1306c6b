-- ===== src/Controller/State.antt =====
-- The controller's state, its log, and the interfaces of the three objects that it drives: the
-- simulator, the agent and the feature extractor.
use tactical_radio_jamming_s.Base.{ℕ, Bool, false, Option, none, List, [], Number, lit}
use tactical_radio_jamming_s.Base.Int.{ℤ}
use tactical_radio_jamming_s.Percept.Observation.{RawObs, ScanResult}
use tactical_radio_jamming_s.Api.{Cause, Call, Value, Decision, Context, Budget}

-- The simulated world (or the radio), as the controller calls it. An absent method of the Python
-- object is an operation that changes nothing.
pub record Sim (F S : Type 0) : Type 0 where
  pub dt : F
  pub now : S → F
  pub channel : S → ℕ
  pub step : Budget → S → RawObs F × S
  pub scan : Value F → Value F → S → ScanResult F × S
  pub load_test : Value F → S → S
  pub neighbor_probe : Value F → S → S
  pub hop_channel : Value F → S → S
  pub reroute : Value F → S → S
  pub set_tx_power : Value F → S → S
  pub change_tdma_slot : Value F → S → S
  pub move : Value F → Value F → Value F → S → S
  pub fallback_to_lora : S → S
  pub declare_link_lost : S → S

-- The protocol `Agent` of agent/api.py.
pub record Agent (F A : Type 0) : Type 0 where
  pub decide : List F → Context F → A → Decision F × A
  pub reset : A → A

pub record Extractor (F X : Type 0) : Type 0 where
  pub update : RawObs F → X → List F × X
  pub note_scan : ScanResult F → X → X
  pub onset_t : X → Option F

-- contract/agent_contract.json, "budgets" and "thresholds".
pub record Contract (F : Type 0) : Type 0 where
  pub max_costly_actions : ℕ
  pub max_channel_hops : ℕ
  pub max_spectrum_scans : ℕ
  pub max_silent_listens : ℕ
  pub max_moves : ℕ
  pub min_scan_interval_s : F
  pub recovery_timeout_s : F
  pub declare_lost_deadline_s : F
  pub act_confidence : F
  pub recovery_pdr_frac_of_baseline : F
  pub recovery_hold_s : F
  pub no_link_declare_s : F
  pub jam_energy_dbm : F

-- What `Controller.__init__` is given: the three objects, the contract and the scenario's fields.
pub record World (F S A X : Type 0) : Type 0 where
  pub sim : Sim F S
  pub agent : Agent F A
  pub extractor : Extractor F X
  pub contract : Contract F
  pub decision_hz : F
  pub n_channels : ℕ
  pub lora_available : Bool
  pub duration_s : F

-- `self.used`
pub record Used : Type 0 where
  pub hops : ℕ
  pub scans : ℕ
  pub silent : ℕ
  pub moves : ℕ
  pub costly : ℕ
  pub lora : ℕ

-- Why the dead-man rule fired.
pub data Reason : Type 0 where
  no_usable_link_timeout recovery_timeout budget_exhausted all_channels_jammed_no_escape : Reason

-- `end_reason`; `running` is the empty text.
pub data EndReason : Type 0 where
  running agent_declared recovered episode_end : EndReason
  failsafe : Reason → EndReason

pub record TraceRow (F : Type 0) : Type 0 where
  pub t : F
  pub top : Cause
  pub p : F
  pub declared : Option Cause
  pub abstained : Bool
  pub belief : List (Cause × F)
  pub unrecoverable : F

-- A row of `tests_run`.
pub record TestRow (F : Type 0) : Type 0 where
  pub t : F
  pub test : Call

-- A row of `actions`.
pub record ActionRow (F : Type 0) : Type 0 where
  pub t : F
  pub fn : Call
  pub budget_after : ℤ

pub record EpisodeLog (F : Type 0) : Type 0 where
  pub attack_onset_t : Option F
  pub classification_trace : List (TraceRow F)
  pub tests_run : List (TestRow F)
  pub actions : List (ActionRow F)
  pub recovery_t : Option F
  pub packets_lost : F
  pub actions_consumed : ℕ
  pub hops_consumed : ℕ
  pub has_recovered : Bool
  pub declared_jamming : Bool
  pub declared_lost_t : Option F
  pub end_reason : EndReason
  pub pdr_series : List (F × F)

pub record State (F S A X : Type 0) : Type 0 where
  pub sim : S
  pub agent : A
  pub extractor : X
  pub used : Used
  -- (hypothesis, call) and the time of the try
  pub tried : List (Cause × Call × F)
  pub rung : ℕ
  pub last_scan_t : F
  pub last_scan : Option (ScanResult F)
  pub baseline_pdr : Option F
  pub onset_t : Option F
  pub recovery_hold_start : Option F
  pub declared : Bool
  -- the local variables of `run`
  pub no_link_for : F
  pub pdr_hist : List F
  pub offered_total : F
  pub delivered_total : F
  pub log : EpisodeLog F

abbrev pub no_use : Used
no_use = record { hops = 0; scans = 0; silent = 0; moves = 0; costly = 0; lora = 0 }

module _ {F : Type 0} ⦃num : Number F⦄ where
  abbrev pub empty_log : EpisodeLog F
  empty_log = record {
    attack_onset_t = none;
    classification_trace = [];
    tests_run = [];
    actions = [];
    recovery_t = none;
    packets_lost = lit 0 0;
    actions_consumed = 0;
    hops_consumed = 0;
    has_recovered = false;
    declared_jamming = false;
    declared_lost_t = none;
    end_reason = EndReason.running;
    pdr_series = [];
  }

module _ {F S A X : Type 0} ⦃num : Number F⦄ where
  open num use {neg}

  -- `reset`, and the first lines of `run`, around fresh objects
  unfoldable pub reset : World F S A X → S → A → X → State F S A X
  reset w s a x = record {
    sim = s;
    agent = w.agent.reset a;
    extractor = x;
    used = no_use;
    tried = [];
    rung = 0;
    last_scan_t = neg (lit 1_000_000_000 0);
    last_scan = none;
    baseline_pdr = none;
    onset_t = none;
    recovery_hold_start = none;
    declared = false;
    no_link_for = lit 0 0;
    pdr_hist = [];
    offered_total = lit 0 0;
    delivered_total = lit 0 0;
    log = empty_log;
  }
