-- ===== src/Agents/Oracle.antt =====
-- `OracleLabeller` of capstone/agent/teacher.py: the expert that is told the true cause.
pub mod Guards
mod Tests
use tactical_radio_jamming_s.Base.{
  ℕ, ◌+◌, ◌%◌, ltb, Bool, true, false, not, ◌&&◌, ◌||◌, Option, none, some, List, [], ◌∷◌, find,
  map, get_elem?, or_else, if◌then◌else◌, Number, lit,
}
use tactical_radio_jamming_s.Base.Int.{pos}
use tactical_radio_jamming_s.Api.{
  Cause, causes, barrage, spot, reactive, sweep, fading, node_loss, congestion, hidden_term,
  unknown, Call, spectrum_scan, neighbor_probe, silent_listen, load_test, mobility_test, no_op,
  set_tx_power, reroute, change_tdma_slot, hop_channel, move, declare_link_lost, contains, Args,
  Value, Decision, decision, Context, playbook,
}
use tactical_radio_jamming_s.Api.Beliefs.{normalise, assign}
use tactical_radio_jamming_s.Agents.Baseline.{at, best_channel}

pub record Oracle : Type 0 where
  pub true_cause : Cause
  pub recoverable : Bool
  pub confirm : Bool
  pub tests : ℕ

-- `CONFIRMING_TEST`
abbrev pub confirming_test : Cause → Option Call
confirming_test barrage = some spectrum_scan
confirming_test spot = some spectrum_scan
confirming_test sweep = some spectrum_scan
confirming_test reactive = some silent_listen
confirming_test node_loss = some neighbor_probe
confirming_test congestion = some load_test
confirming_test hidden_term = some load_test
confirming_test fading = some mobility_test
confirming_test unknown = none

-- `reset`
unfoldable pub reset : Oracle → Oracle
reset o = record o { tests = 0 }

-- the calls to fall back to
abbrev fallbacks : List Call
fallbacks = set_tx_power ∷ reroute ∷ change_tdma_slot ∷ no_op ∷ []

-- the playbook's call, or the first fallback that the mask allows
unfoldable pub allowed_call : Call → List Call → Call
allowed_call c available =
    if contains c available then c else or_else (find (λ a. contains a available) fallbacks) c

module _ {F : Type 0} ⦃num : Number F⦄ where
  open num use {lt, le, neg}

  -- `_belief`
  unfoldable pub belief : Oracle → List (Cause × F)
  belief o = normalise (assign o.true_cause (lit 9 1) (map (λ c. (c, lit 2 2)) causes))

  abbrev is_fresh : List F → Bool
  is_fresh f = lt (at f 30) (lit 35 2)

  -- `_evidence_sufficient`
  unfoldable pub is_evident : Cause → List F → Bool
  is_evident barrage f = is_fresh f && lt (lit 0 0) (at f 31) && lt (at f 32) (lit 25 2)
  is_evident spot f = is_fresh f && le (lit 25 2) (at f 32)
  is_evident sweep f = is_fresh f && lt (lit 3 1) (at f 35)
  is_evident reactive f = lt (lit 35 2) (at f 22)
  is_evident node_loss f = lt (lit 3 1) (at f 5) && lt (lit 4 1) (at f 43)
  is_evident congestion f = lt (lit 25 2) (at f 29) && lt (lit 2 1) (at f 28)
  is_evident hidden_term f = lt (lit 1 1) (at f 24) && lt (at f 28) (lit 2 1)
  is_evident fading f =
      lt (at f 17) (lit 15 2) && (lt (at f 0) (neg (lit 3 1)) || lt (lit 35 2) (at f 12))
  is_evident unknown f = true

  abbrev displaced : Args F
  displaced =
      ("dx", Value.num (lit 30 0)) ∷ ("dy", Value.num (lit 0 0)) ∷ ("dz", Value.num (lit 0 0)) ∷ []

  -- `_test_args`
  abbrev test_args : Call → Args F
  test_args spectrum_scan = ("dwell_ms", Value.int (pos 20)) ∷ []
  test_args silent_listen = ("duration_ms", Value.int (pos 200)) ∷ []
  test_args neighbor_probe = ("peer", Value.str "P0") ∷ []
  test_args load_test = ("factor", Value.num (lit 5 1)) ∷ []
  test_args mobility_test = displaced
  test_args _ = []

  -- `_act_args`; the channel is chosen as the baseline does
  abbrev act_args : Call → Context F → Args F
  act_args hop_channel ctx = ("channel", Value.int (pos (best_channel ctx))) ∷ []
  act_args set_tx_power ctx = ("dbm", Value.int (pos 20)) ∷ []
  act_args change_tdma_slot ctx = ("slot", Value.int (pos 3)) ∷ []
  act_args reroute ctx = ("via", Value.null) ∷ []
  act_args move ctx = displaced
  act_args mobility_test ctx = displaced
  act_args _ ctx = []

  -- every channel jammed as far as a recent scan tells, or no delivery at all
  abbrev is_hopeless : List F → Bool
  is_hopeless f = (lt (at f 30) (lit 5 1) && lt (lit 3 1) (at f 31)) || lt (at f 0) (neg (lit 8 1))

  -- what an expert does first about an episode that cannot be recovered
  unfoldable pub refuse : Oracle → List F → Context F → Option (Decision F)
  refuse o f ctx =
      if o.recoverable
      then none
      else if is_hopeless f && contains declare_link_lost ctx.available
      then some (record (decision (belief o) declare_link_lost [] (lit 95 2)) {
        unrecoverable = lit 95 2;
      })
      else if contains spectrum_scan ctx.available && le (lit 35 2) (at f 30)
      then some (decision (belief o) spectrum_scan (test_args spectrum_scan) (lit 5 1))
      else none

  -- the confirming test, if the evidence is missing and the mask allows it
  unfoldable pub next_test : Oracle → List F → Context F → Option Call
  next_test o f ctx =
      if o.confirm && not (is_evident o.true_cause f) && ltb o.tests 3
      then elim (confirming_test o.true_cause) [
        | none ↦ none
        | some c ↦ if contains c ctx.available then some c else none
      ]
      else none

  -- `PLAYBOOK[self.true]` raises a `KeyError` on a cause that it lacks: that is `none`.
  unfoldable pub recover : Oracle → Context F → Option (Decision F × Oracle)
  recover o ctx = elim (playbook o.true_cause) [
    | none ↦ none
    | some c ↦
        let c' = allowed_call c ctx.available in
        some (decision (belief o) c' (act_args c' ctx) (lit 9 1), o)
  ]

  -- `decide`
  unfoldable pub decide : Oracle → List F → Context F → Option (Decision F × Oracle)
  decide o f ctx = elim (refuse o f ctx) [
    | some d ↦ some (d, o)
    | none ↦ elim (next_test o f ctx) [
      | some c ↦
          some (decision (belief o) c (test_args c) (lit 5 1), record o { tests = o.tests + 1 })
      | none ↦ recover o ctx
    ]
  ]
