-- ===== src/Bridge/Answer.antt =====
-- The lines of the bridge's loop from the agent's decision to the reply.
use text.Mathlib.Text.{◌==◌ as str_eq}
use tactical_radio_jamming_s.Base.{
  ℕ, zero, suc, ◌+◌, String, Bool, true, false, ◌&&◌, ◌||◌, Option, none, some, is_some, List, [],
  ◌∷◌, ◌++◌, map, last?, store, get_elem?, or_else, if◌then◌else◌, Number, lit,
}
use tactical_radio_jamming_s.Api.{
  Cause, Call, cause_eq, call_eq, contains, diagnose, spectrum_scan, neighbor_probe, silent_listen,
  load_test, channel_hop_probe, mobility_test, no_op, set_tx_power, reroute, change_tdma_slot,
  hop_channel, fallback_to_lora, move, declare_link_lost, other, Value, null, str, ints, Args,
  Decision, Context,
}
use tactical_radio_jamming_s.Api.Beliefs.{top, top_p}
use tactical_radio_jamming_s.Controller.State.{Used, Reason, TraceRow}
use tactical_radio_jamming_s.Controller.Choose.{is_recovery, tried_at, mark_tried}
use tactical_radio_jamming_s.Bridge.{Message, Bridge, Setup, Action}
use tactical_radio_jamming_s.Bridge.Observe.{channel_of}

abbrev pub call_name : Call → String
call_name spectrum_scan = "spectrum_scan"
call_name neighbor_probe = "neighbor_probe"
call_name silent_listen = "silent_listen"
call_name load_test = "load_test"
call_name channel_hop_probe = "channel_hop_probe"
call_name mobility_test = "mobility_test"
call_name no_op = "no_op"
call_name set_tx_power = "set_tx_power"
call_name reroute = "reroute"
call_name change_tdma_slot = "change_tdma_slot"
call_name hop_channel = "hop_channel"
call_name fallback_to_lora = "fallback_to_lora"
call_name move = "move"
call_name declare_link_lost = "declare_link_lost"
call_name (other s) = s

-- What a call adds to `used`.
abbrev pub charge : Call → Used → Used
charge hop_channel u = record u { hops = u.hops + 1; costly = u.costly + 1 }
charge channel_hop_probe u = record u { hops = u.hops + 1; costly = u.costly + 1 }
charge spectrum_scan u = record u { scans = u.scans + 1 }
charge silent_listen u = record u { silent = u.silent + 1 }
charge move u = record u { moves = u.moves + 1; costly = u.costly + 2 }
charge mobility_test u = record u { moves = u.moves + 1; costly = u.costly + 2 }
charge _ u = u

-- `range(n)`, mapped
abbrev named : (ℕ → String) → ℕ → ℕ → List String
named name i zero = []
named name i (suc n) = name i ∷ named name (i + 1) n

abbrev is_last : Cause → Option Cause → Bool
is_last c none = false
is_last c (some l) = cause_eq l c

abbrev note_hypothesis : Cause → List Cause → List Cause
note_hypothesis c h = if is_last c (last? h) then h else h ++ (c ∷ [])

module _ {F : Type 0} ⦃num : Number F⦄ where
  open num use {round}

  -- the keys of the budget that the bridge leaves out of the dictionary are 0 here
  abbrev pub context :
      {A X : Type 0} → Setup F A X → Message F → F → List Call → Bridge F A X → Context F
  context w st t av s = record {
    t = t;
    channel = channel_of st;
    n_channels = w.n_channels;
    peers = named w.peer_name 0 (or_else st.n_links 0);
    budget = record {
      hops_used = s.used.hops;
      scans_used = 0;
      actions_used = 0;
      max_channel_hops = 0;
      max_spectrum_scans = 0;
      max_costly_actions = 0;
    };
    available = av;
    last_scan = s.last_scan;
    tests_run = s.tests_run;
    actions_taken = s.actions_taken;
    hypothesis_history = s.hypothesis_history;
    lora_available = w.lora_available;
  }

  -- `d.call, d.args = "no_op", {}`: the other fields stay
  abbrev pub idle : Decision F → Decision F
  idle d = record d { call = no_op; args = [] }

  abbrev pub masked : List Call → Decision F → Decision F
  masked av d = if contains d.call av then d else idle d

  -- a recovery that was tried for the same hypothesis
  unfoldable pub is_retry : Decision F → List (Cause × Call × F) → Bool
  is_retry d tried = is_recovery d.call && is_some (tried_at (top d.belief) d.call tried)

  -- The decision behind the mask and the repeat suppressor, and the tries after it.
  unfoldable pub screen :
      List Call → F → Decision F → List (Cause × Call × F) → Decision F × List (Cause × Call × F)
  screen av t d tried =
      let m = masked av d in
      if is_retry m tried
      then (idle m, tried)
      else (m, if call_eq m.call no_op then tried else mark_tried (top m.belief) m.call t tried)

  abbrev pub note_scan_due : {A X : Type 0} → Call → F → Bridge F A X → Bridge F A X
  note_scan_due c t s =
      if call_eq c spectrum_scan then record s { prev_scan_t = some t; pending_scan = true } else s

  -- the memory of tests and of remedies
  abbrev pub note_call : {A X : Type 0} → Call → Cause → F → F → Bridge F A X → Bridge F A X
  note_call c h t before s =
      if contains c diagnose
      then record s {
        tests_run = if contains c s.tests_run then s.tests_run else s.tests_run ++ (c ∷ []);
      }
      else if call_eq c no_op || call_eq c declare_link_lost
      then s
      else record s {
        actions_taken = s.actions_taken ++ (c ∷ []);
        pending_effect = some (record { t = t; call = c; believed = h; pdr_before = before });
      }

  abbrev trace_row : F → Decision F → TraceRow F
  trace_row t d = record {
    t = round t 2;
    top = top d.belief;
    p = round (top_p d.belief) 3;
    declared = d.declared;
    abstained = d.abstained;
    belief = map (λ e. (e.0, round e.1 3)) d.belief;
    unrecoverable = round d.unrecoverable 3;
  }

  -- `feats[0]`; the extractor's vectors are long enough
  abbrev pub first : List F → F
  first feats = or_else (get_elem? feats 0) (lit 0 0)

  abbrev pub log_action : F → Decision F → Option Reason → List (Action F) → List (Action F)
  log_action t d why rows =
      if call_eq d.call no_op
      then rows
      else rows ++ (record { t = round t 2; fn = d.call; args = d.args; forced = why } ∷ [])

  -- the books of a decision that has passed the screen
  unfoldable pub enter :
      {A X : Type 0} → List F → List Call → F → Decision F → Bridge F A X → Bridge F A X
  enter feats av t d s =
      let s1 = note_scan_due d.call t (record s { used = charge d.call s.used }) in
      let s2 =
        note_call d.call (top d.belief) t (first feats) (record s1 {
          hypothesis_history = note_hypothesis (top d.belief) s1.hypothesis_history;
        }) in
      record s2 {
        records =
            s2.records
            ++ (record { t = round t 2; features = feats; call = d.call; available = av } ∷ []);
        trace = s2.trace ++ (trace_row t d ∷ []);
        actions = log_action t d none s2.actions;
      }

  -- `isinstance(v, (int, float, str))`
  abbrev pub is_plain : Value F → Bool
  is_plain null = false
  is_plain (ints _) = false
  is_plain _ = true

  -- `reply.update({k: v for k, v in args.items() if ...})`
  unfoldable pub updated : Args F → Args F → Args F
  updated reply [] = reply
  updated reply ((k, v) ∷ args) =
      updated (if is_plain v then store str_eq k v reply else reply) args

  unfoldable pub reply_of : Decision F → Args F
  reply_of d = updated (("call", str (call_name d.call)) ∷ []) d.args
