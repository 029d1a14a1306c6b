-- ===== src/Controller/Run.antt =====
-- `Controller.run`: one tick of the percept loop, and the episode.
use Prim.Native.Nat.{max}
use tactical_radio_jamming_s.Base.{
  ℕ, zero, suc, ◌+◌, ◌%◌, ◌==◌, Bool, true, false, not, ◌&&◌, ◌||◌, String, Option, none, some,
  List, [], ◌∷◌, ◌++◌, map, Number, lit, of_ℕ, sum, truthy, min_of, take, length, is_some,
  if◌then◌else◌,
}
use tactical_radio_jamming_s.Base.Int.{ℤ, sub_ℕ}
use tactical_radio_jamming_s.Percept.Observation.{LinkObs, RawObs}
use tactical_radio_jamming_s.Api.{
  Cause, barrage, spot, reactive, sweep, Call, Decision, Context, Budget, call_eq, contains, no_op,
  spectrum_scan, neighbor_probe, silent_listen, load_test, channel_hop_probe, mobility_test,
  declare_link_lost,
}
use tactical_radio_jamming_s.Api.Beliefs.{top, top_p}
use tactical_radio_jamming_s.Controller.State.{
  World, State, EndReason, TraceRow, EpisodeLog, running,
}
use tactical_radio_jamming_s.Controller.Mask.{available}
use tactical_radio_jamming_s.Controller.Failsafe.{failsafe_triggered}
use tactical_radio_jamming_s.Controller.Choose.{choose}
use tactical_radio_jamming_s.Controller.Apply.{apply}

-- the calls that `run` logs under `tests_run`
abbrev pub logged_tests : List Call
logged_tests =
    spectrum_scan ∷ neighbor_probe ∷ silent_listen ∷ load_test ∷ channel_hop_probe ∷ mobility_test
    ∷ []

abbrev pub is_attacker : Cause → Bool
is_attacker barrage = true
is_attacker spot = true
is_attacker reactive = true
is_attacker sweep = true
is_attacker _ = false

module _ {F : Type 0} ⦃num : Number F⦄ where
  open num use {lt, le, add, sub, mul, div, floor, round_int, round}

  -- `_link_health`: the worse direction, where the peer's report is fresh
  unfoldable pub link_health : LinkObs F → F
  link_health l = elim l.pdr_reverse [
    | none ↦ l.pdr
    | some rev ↦ if lt (lit 3 0) l.report_age_s then l.pdr else min_of l.pdr rev
  ]

  unfoldable pub link_mean : List (String × LinkObs F) → F
  unfolding link_health
  link_mean links = div (sum (map (λ l. link_health l.1) links)) (of_ℕ (max 1 (length links)))

  -- one sample out of five of the delivery series, with its time
  pub series_from : F → ℕ → List F → List (F × F)
  series_from dt i [] = []
  series_from dt i (p ∷ ps) =
      let rest = series_from dt (i + 1) ps in
      if i % 5 == 0 then (round (mul (of_ℕ i) dt) 1, round p 3) ∷ rest else rest

  -- one more row of `tests_run`, or of `actions`, or neither for `no_op`
  unfoldable pub log_call : F → Call → ℤ → EpisodeLog F → EpisodeLog F
  log_call t c left log =
      if contains c logged_tests
      then record log { tests_run = log.tests_run ++ (record { t = t; test = c } ∷ []) }
      else if not (call_eq c no_op)
      then record log {
        actions = log.actions ++ (record { t = t; fn = c; budget_after = left } ∷ []);
      }
      else log

  module _ {S A X : Type 0} (w : World F S A X) where
    open w.contract use {
      max_costly_actions, max_channel_hops, max_spectrum_scans, act_confidence,
      recovery_pdr_frac_of_baseline, recovery_hold_s,
    }

    -- What one tick has seen when the decision is due.
    pub record Seen : Type 0 where
      pub t : F
      pub pdr : F
      pub obs : RawObs F
      pub features : List F
      pub budget : Budget

    unfoldable pub budget_view : State F S A X → Budget
    budget_view s = record {
      hops_used = s.used.hops;
      scans_used = s.used.scans;
      actions_used = s.used.costly;
      max_channel_hops = max_channel_hops;
      max_spectrum_scans = max_spectrum_scans;
      max_costly_actions = max_costly_actions;
    }

    -- `pdr_hist[:n]` averaged, n the samples of five seconds
    early_mean : List F → F
    early_mean hist =
        let n = floor (div (lit 5 0) w.sim.dt) in div (sum (take n hist)) (of_ℕ (max 1 n))

    unfoldable pub next_baseline : F → List F → Option F → Option F
    unfolding early_mean
    next_baseline t hist (some b) = some b
    next_baseline t hist none = if lt (lit 5 0) t then some (early_mean hist) else none

    -- the extractor's gate; an onset at 0.0 counts as none
    abbrev pub gate : Option F → Option F
    gate none = none
    gate (some onset) = if truthy onset then some onset else none

    unfoldable pub note_onset : Option F → State F S A X → State F S A X
    note_onset fresh s = elim s.onset_t [
      | some _ ↦ s
      | none ↦ elim fresh [
        | none ↦ s
        | some onset ↦ record s {
          onset_t = some onset;
          log = record (s.log) { attack_onset_t = some onset };
        }
      ]
    ]

    unfoldable pub observe : State F S A X → Seen × State F S A X
    unfolding budget_view link_mean next_baseline note_onset
    observe s =
        let t = w.sim.now s.sim in
        let budget = budget_view s in
        let (obs, sim') = w.sim.step budget s.sim in
        let (feats, ex') = w.extractor.update obs s.extractor in
        let pdr = link_mean obs.links in
        let hist = s.pdr_hist ++ (pdr ∷ []) in
        let s' : State F S A X = record s {
          sim = sim';
          extractor = ex';
          pdr_hist = hist;
          offered_total = add s.offered_total (lit 1 0);
          delivered_total = add s.delivered_total pdr;
          baseline_pdr = next_baseline t hist s.baseline_pdr;
          no_link_for = if lt (lit 2 1) pdr then lit 0 0 else add s.no_link_for w.sim.dt;
        } in
        (
          record { t = t; pdr = pdr; obs = obs; features = feats; budget = budget },
          note_onset (gate (w.extractor.onset_t ex')) s',
        )

    abbrev pub decision_every : ℕ
    decision_every = max 1 (round_int (div (div (lit 1 0) w.decision_hz) w.sim.dt))

    -- the three `continue` lines of the loop
    unfoldable pub may_decide : ℕ → F → State F S A X → Bool
    may_decide i pdr s =
        not s.declared
        && not (is_some s.log.recovery_t && lt (lit 6 1) pdr)
        && is_some s.onset_t
        && (i % decision_every == 0)

    unfoldable pub context : Seen → State F S A X → Context F
    context o s = record {
      t = o.t;
      channel = w.sim.channel s.sim;
      n_channels = w.n_channels;
      peers = map (λ l. l.0) o.obs.links;
      budget = o.budget;
      available = available w s o.t;
      last_scan = s.last_scan;
      tests_run = map (λ r. r.test) s.log.tests_run;
      actions_taken = map (λ r. r.fn) s.log.actions;
      hypothesis_history = map (λ r. r.top) s.log.classification_trace;
      lora_available = w.lora_available;
    }

    abbrev pub trace_row : F → Decision F → TraceRow F
    trace_row t d = record {
      t = round t 2;
      top = top d.belief;
      p = round (top_p d.belief) 3;
      declared = d.declared;
      abstained = d.abstained;
      belief = map (λ e. (e.0, round e.1 3)) d.belief;
      unrecoverable = round d.unrecoverable 3;
    }

    abbrev pub claims_jamming : Decision F → Bool
    claims_jamming d =
        not d.abstained && is_attacker (top d.belief) && le act_confidence (top_p d.belief)

    -- The row of the trace, and a row of `tests_run` or of `actions`.
    unfoldable pub log_decision : F → Decision F → State F S A X → State F S A X
    unfolding log_call
    log_decision t d s =
        let traced : EpisodeLog F = record (s.log) {
          classification_trace = s.log.classification_trace ++ (trace_row t d ∷ []);
          declared_jamming = s.log.declared_jamming || claims_jamming d;
        } in
        record s {
          log = log_call (round t 2) d.call (sub_ℕ max_costly_actions s.used.costly) traced;
        }

    abbrev pub default_reason : EndReason → EndReason → EndReason
    default_reason running r = r
    default_reason r _ = r

    unfoldable pub note_declared : F → Decision F → State F S A X → State F S A X
    note_declared t d s =
        if call_eq d.call declare_link_lost
        then record s {
          log = record (s.log) {
            declared_lost_t = some (round t 2);
            end_reason = default_reason s.log.end_reason EndReason.agent_declared;
          };
        }
        else s

    -- delivery is back at the required fraction of a baseline that is not 0.0
    abbrev pub is_back : F → Option F → Bool
    is_back pdr none = false
    is_back pdr (some base) = truthy base && le (mul recovery_pdr_frac_of_baseline base) pdr

    unfoldable pub verify_recovery : F → F → State F S A X → State F S A X
    verify_recovery t pdr s =
        if is_back pdr s.baseline_pdr
        then elim s.recovery_hold_start [
          | none ↦ record s { recovery_hold_start = some t }
          | some since ↦
              if le recovery_hold_s (sub t since) && not (is_some s.log.recovery_t)
              then record s { log = record (s.log) { recovery_t = some (round t 2) } }
              else s
        ]
        else record s { recovery_hold_start = none }

    unfoldable pub decide : Seen → State F S A X → State F S A X
    decide o s =
        let (d, s₁) = choose w (failsafe_triggered w s o.t) o.features (context o s) s in
        verify_recovery o.t o.pdr (note_declared o.t d (apply w d o.t (log_decision o.t d s₁)))

    unfoldable pub tick : ℕ → State F S A X → State F S A X
    tick i s = let (o, s') = observe s in if may_decide i o.pdr s' then decide o s' else s'

    -- the loop, with `n` ticks left and `i` made
    unfoldable pub ticks : ℕ → ℕ → State F S A X → State F S A X
    ticks zero i s = s
    ticks (suc n) i s = ticks n (i + 1) (tick i s)

    abbrev pub closing_reason : Option F → EndReason
    closing_reason none = EndReason.episode_end
    closing_reason (some _) = EndReason.recovered

    unfoldable pub finish : State F S A X → EpisodeLog F
    unfolding series_from
    finish s = record (s.log) {
      actions_consumed = s.used.costly;
      hops_consumed = s.used.hops;
      packets_lost = round (sub s.offered_total s.delivered_total) 1;
      pdr_series = series_from w.sim.dt 0 s.pdr_hist;
      has_recovered = is_some s.log.recovery_t;
      end_reason = default_reason s.log.end_reason (closing_reason s.log.recovery_t);
    }

    unfoldable pub run : State F S A X → EpisodeLog F
    unfolding ticks finish
    run s = finish (ticks (floor (div w.duration_s w.sim.dt)) 0 s)
