-- ===== src/Bridge.antt =====
-- capstone/sim/bridge_server.py: the loop of `run` that answers the state messages of a live ns-3
-- simulation. This file has the messages and the local variables of the loop. The JSON of a message is
-- a record of its fields; the socket, the process, the viewers' callbacks and the prose are left out.
pub mod Observe
pub mod Mask
pub mod Books
pub mod Answer
pub mod Loop
pub mod Budget
pub mod Session
pub mod Protocol
pub mod Override
pub mod Agree
mod Tests
use tactical_radio_jamming_s.Base.{ℕ, String, Bool, false, Option, none, List, [], Number, lit}
use tactical_radio_jamming_s.Percept.Observation.{ScanResult}
use tactical_radio_jamming_s.Api.{Cause, Call, Args}
use tactical_radio_jamming_s.Controller.State.{
  Agent, Extractor, Contract, Used, Reason, TraceRow, no_use,
}

-- One state of ns-3, at ten a second. A missing list is empty, a missing number `none`.
pub record Message (F : Type 0) : Type 0 where
  pub t : Option F
  pub pdr : List F
  pub rssi : List F
  pub rev_rssi : List F
  pub rev_pdr : List F
  pub rev_age : List F
  pub hb : List F
  pub band : List F
  pub retry : Option F
  pub channel : Option ℕ
  pub decod_fps : Option F
  pub tx_duty : Option F
  pub load : Option F
  pub tx_defer_ms : Option F
  pub hops_used : Option ℕ
  pub tx_att : Option ℕ
  pub tx_ack : Option ℕ
  pub sh_e : Option ℕ
  pub sh_m : Option ℕ
  pub si_e : Option ℕ
  pub si_m : Option ℕ
  pub n_links : Option ℕ

-- A line of the socket: a message, or a text that is no JSON.
pub data Line (F : Type 0) : Type 0 where
  garbled : Line F
  state : Message F → Line F

-- A row of `actions`, with the dead-man rule's reason where the rule wrote it.
pub record Action (F : Type 0) : Type 0 where
  pub t : F
  pub fn : Call
  pub args : Args F
  pub forced : Option Reason

-- `pending_effect`: a remedy whose outcome is not yet seen
pub record Effect (F : Type 0) : Type 0 where
  pub t : F
  pub call : Call
  pub believed : Cause
  pub pdr_before : F

pub data Verdict : Type 0 where
  helped no_change made_it_worse : Verdict

-- A row of `recovery_attempts`.
pub record Attempt (F : Type 0) : Type 0 where
  pub effect : Effect F
  pub outcome : Verdict
  pub delta_pct : F

-- A row of `records`.
pub record Record (F : Type 0) : Type 0 where
  pub t : F
  pub features : List F
  pub call : Call
  pub available : List Call

-- What `run` is given: the agent, the extractor, the contract and the scenario's fields; `peer_name` is
-- the f-string `P{i}`.
pub record Setup (F A X : Type 0) : Type 0 where
  pub agent : Agent F A
  pub extractor : Extractor F X
  pub contract : Contract F
  pub n_channels : ℕ
  pub lora_available : Bool
  pub peer_name : ℕ → String

-- The local variables of the loop.
pub record Bridge (F A X : Type 0) : Type 0 where
  pub agent : A
  pub extractor : X
  pub trace : List (TraceRow F)
  pub actions : List (Action F)
  pub prev_scan_t : Option F
  pub records : List (Record F)
  pub pending_scan : Bool
  pub last_scan : Option (ScanResult F)
  pub used : Used
  pub tried : List (Cause × Call × F)
  pub tests_run : List Call
  pub actions_taken : List Call
  pub hypothesis_history : List Cause
  pub recovery_attempts : List (Attempt F)
  pub pending_effect : Option (Effect F)
  pub no_link_for : F
  pub onset_t : Option F
  pub pdr_series : List (F × F)
  pub baseline_pdr : Option F
  pub recovery_hold_start : Option F
  pub recovery_t : Option F
  pub declared : Bool
  pub last_t : F

module _ {F A X : Type 0} ⦃num : Number F⦄ where
  -- the lines before the loop
  unfoldable pub fresh : Setup F A X → A → X → Bridge F A X
  fresh w a x = record {
    agent = w.agent.reset a;
    extractor = x;
    trace = [];
    actions = [];
    prev_scan_t = none;
    records = [];
    pending_scan = false;
    last_scan = none;
    used = no_use;
    tried = [];
    tests_run = [];
    actions_taken = [];
    hypothesis_history = [];
    recovery_attempts = [];
    pending_effect = none;
    no_link_for = lit 0 0;
    onset_t = none;
    pdr_series = [];
    baseline_pdr = none;
    recovery_hold_start = none;
    recovery_t = none;
    declared = false;
    last_t = lit 0 0;
  }
