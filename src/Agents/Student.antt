-- ===== src/Agents/Student.antt =====
-- capstone/agent/student.py: the agent that runs the distilled network. The two networks and the
-- functions of numpy are parameters; a class of the first network is a cause. `none` is an IndexError.
pub mod Guards
mod Tests
use text.Mathlib.Text.{◌==◌ as str_eq}
use tactical_radio_jamming_s.Base.{
  ℕ, zero, suc, ◌+◌, ◌%◌, Bool, true, false, ◌||◌, Option, none, some, List, [], ◌∷◌, map, length,
  get_elem?, set, replicate, any, Number, lit, if◌then◌else◌,
}
use tactical_radio_jamming_s.Base.Int.{pos}
use tactical_radio_jamming_s.Percept.Observation.{ChannelObs, ScanResult, off_channel, quietest}
use tactical_radio_jamming_s.Api.{
  Cause, causes, cause_eq, Call, Value, Args, Decision, decision, Context, contains, spectrum_scan,
  neighbor_probe, silent_listen, load_test, channel_hop_probe, mobility_test, no_op, set_tx_power,
  reroute, change_tdma_slot, hop_channel, move,
}
use tactical_radio_jamming_s.Api.Beliefs.{assign, normalise}

-- `_Net`: the names of the outputs, and the forward pass
pub record Net (F C : Type 0) : Type 0 where
  pub classes : List C
  pub run : List F → List F

-- `np.argmax`, `np.argmin`, `np.argsort`, and the product with `self.COST`
pub record Numpy (F : Type 0) : Type 0 where
  pub argmax : List F → ℕ
  pub argmin : List F → ℕ
  pub argsort : List F → List ℕ
  pub expected_cost : List F → List F

-- What `__init__` reads from the bundle.
pub record Student (F : Type 0) : Type 0 where
  pub cause : Net F Cause
  pub call : Net F Call
  pub cost_order : List Cause
  pub abstain : F
  pub use_cost_rule : Bool

-- `xs.index(c)`
abbrev pub index_of : Cause → List Cause → Option ℕ
index_of c [] = none
index_of c (d ∷ ds) =
    let later = index_of c ds in
    if cause_eq d c then some 0 else elim later [ none ↦ none | some i ↦ some (suc i) ]

-- The first class, in the order of the scores, that the mask allows; `no_op` if there is none.
unfoldable pub pick : List Call → List Call → List ℕ → Option Call
pick classes available [] = some no_op
pick classes available (i ∷ order) =
    let rest = pick classes available order in
    elim (get_elem? classes i) [
      | none ↦ none
      | some c ↦ if contains c available then some c else rest
    ]

module _ {F : Type 0} ⦃num : Number F⦄ where
  open num use {neg, lt}

  -- the zeros, and the probabilities that have a name in the belief
  abbrev zeros : List (Cause × F)
  zeros = map (λ c. (c, lit 0 0)) causes

  abbrev filled_in : List Cause → List F → List (Cause × F) → List (Cause × F)
  filled_in [] p b = b
  filled_in (c ∷ cs) [] b = b
  filled_in (c ∷ cs) (v ∷ p) b =
      filled_in cs p (if any (λ e. cause_eq e.0 c) b then assign c v b else b)

  -- `_belief`
  unfoldable pub belief_of : Student F → List F → List (Cause × F)
  belief_of st p = normalise (filled_in st.cause.classes p zeros)

  abbrev put_at : Option ℕ → F → List F → List F
  put_at none v p = p
  put_at (some i) v p = set p i v

  -- the probabilities in the order of the costs
  abbrev pub reordered : List Cause → List Cause → List F → List F → List F
  reordered order [] p acc = acc
  reordered order (c ∷ cs) [] acc = acc
  reordered order (c ∷ cs) (v ∷ p) acc = reordered order cs p (put_at (index_of c order) v acc)

  abbrev pub costed : Student F → List F → List F
  costed st p =
      reordered st.cost_order st.cause.classes p (replicate (length st.cost_order) (lit 0 0))

  abbrev pub both : Option Cause → Option F → Option (Cause × F)
  both (some c) (some v) = some (c, v)
  both _ _ = none

  -- `_declare`: the least expected cost, or the most probable
  unfoldable pub declare : Numpy F → Student F → List F → Option (Cause × F)
  declare np st p =
      let ps = costed st p in
      let i = if st.use_cost_rule then np.argmin (np.expected_cost ps) else np.argmax ps in
      both (get_elem? st.cost_order i) (get_elem? ps i)

  abbrev pub after : Context F → ℕ
  after ctx = ctx.channel % ctx.n_channels + 1

  abbrev pub best_of : Context F → List (ChannelObs F) → ℕ
  best_of ctx [] = after ctx
  best_of ctx (c ∷ cs) = (quietest c cs).ch

  abbrev pub hop_target : Context F → Option (ScanResult F) → ℕ
  hop_target ctx none = after ctx
  hop_target ctx (some scan) = best_of ctx (off_channel ctx.channel scan.channels)

  abbrev hop_args : Context F → Args F
  hop_args ctx = ("channel", Value.int (pos (hop_target ctx ctx.last_scan))) ∷ []

  abbrev shift : Args F
  shift =
      ("dx", Value.num (lit 30 0)) ∷ ("dy", Value.num (lit 0 0)) ∷ ("dz", Value.num (lit 0 0)) ∷ []

  -- `_args`
  unfoldable pub args_for : Call → Context F → Args F
  args_for hop_channel ctx = hop_args ctx
  args_for channel_hop_probe ctx = hop_args ctx
  args_for set_tx_power ctx = ("dbm", Value.int (pos 20)) ∷ []
  args_for change_tdma_slot ctx = ("slot", Value.int (pos 3)) ∷ []
  args_for reroute ctx = ("via", Value.null) ∷ []
  args_for spectrum_scan ctx = ("dwell_ms", Value.int (pos 20)) ∷ []
  args_for silent_listen ctx = ("duration_ms", Value.int (pos 200)) ∷ []
  args_for load_test ctx = ("factor", Value.num (lit 5 1)) ∷ []
  args_for neighbor_probe ctx = ("peer", Value.str "P0") ∷ []
  args_for mobility_test ctx = shift
  args_for move ctx = shift
  args_for _ ctx = []

  abbrev pub abstention : List (Cause × F) → F → Decision F
  abstention b conf = record (decision b no_op [] conf) { abstained = true }

  abbrev pub played : List (Cause × F) → Cause → F → Context F → Call → Decision F
  played b top conf ctx c = record (decision b c (args_for c ctx) conf) { declared = some top }

  abbrev pub chosen : List (Cause × F) → Cause → F → Context F → Option Call → Option (Decision F)
  chosen b top conf ctx none = none
  chosen b top conf ctx (some c) = some (played b top conf ctx c)

  abbrev pub answered :
      Numpy F → Student F → List F → Context F → Option (Cause × F) → Option (Decision F)
  answered np st x ctx none = none
  answered np st x ctx (some (top, conf)) =
      let b = belief_of st (st.cause.run x) in
      let order = np.argsort (map neg (st.call.run x)) in
      if lt conf st.abstain
      then some (abstention b conf)
      else chosen b top conf ctx (pick st.call.classes ctx.available order)

  -- `decide`
  unfoldable pub decide : Numpy F → Student F → List F → Context F → Option (Decision F)
  decide np st x ctx = answered np st x ctx (declare np st (st.cause.run x))
