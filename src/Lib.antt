-- ===== src/Lib.antt =====
-- TacticalRadioJammingSurvival: an agent on a drone's radio that has to tell a jammer from fading,
-- from a lost node and from congestion, and to keep the link alive within a budget.
--
-- The parts modelled, and how they interact. The controller (capstone/agent/controller.py) steps a
-- simulated world, hands each observation to the feature extractor, and at every decision tick asks
-- an agent what to do. The agent's call passes the repeat suppressor and the action mask, or is
-- replaced by the dead-man rule; it is then logged and applied. The log of the episode goes to the
-- verifier (capstone/verify/verifier.py), which alone knows the ground truth.
--
--   Base        lists, options, integers and the interface `Number` of Python's floats
--   Percept     capstone/percept: the observation types of features.py, and ring.py, where
--               `class Ring` is the record `Ring` with `push`, `values`, `mean`, `std`, `slope_per_s`,
--               and Trackers has `Ewma`, `Cusum`, `RunLength` and `pearson`;
--               Norm has `clamp`, `nz` and `unit` of norm.py; Scans has `note_scan` of features.py.
--               Features is `FeatureExtractor` with `__init__`; its `update` is cut where the code's
--               comments cut it: Links (delivery, signal and the neighbours' reports), Gate (the
--               baselines and the anomaly gate), Spectrum (the last scan), Advance (the rest of the
--               state) and Vector (the 56 features); the other files prove things about these
--   Api         capstone/agent/api.py and policy_table.py: causes, calls, decisions, contexts,
--               beliefs (association lists in the dictionary's order) and the playbook
--   Controller  capstone/agent/controller.py: State (`reset` and the episode's log), Mask
--               (`_available`), Failsafe (`_failsafe_triggered`), Apply (`_apply`), Choose and Run
--               (`run`: `observe` is the first half of its loop body, `decide` the second, `finish`
--               the lines after the loop); the other files prove things about these
--   Agents      capstone/agent/baseline.py: Baseline (`_belief`, `_cheapest_test`, `_act`, `decide`);
--               Oracle is teacher.py (`_evidence_sufficient`, `decide`); Rules is
--               capstone/harness/policy.py (`validate_rule`, `matches`, `suggest`) with rule_agent.py;
--               Hybrid is hybrid.py (`decide`), whose network is any `Agent`; Student is student.py
--               (`_belief`, `_declare`, `_args`, `decide`), with numpy and the networks as parameters
--   Harness     capstone/harness: Loop is `HarnessAgent` of loop.py (`_should_ask`, `decide`, `reset`)
--               with `validate` of registry.py; the language model and the parser of its replies
--               are one parameter, an operation that may fail. Parser is parser.py
--               (`_first_object`, `_repair`, `parse_decision`), Mutate is `mutate` of mutate.py
--   Scenario    capstone/scenario/schema.py: the records, `agent_node`, `node`, `adjacency`; Checks has
--               `validate`; Split is split.py of that folder
--   Sim         capstone/sim/refsim.py: Radio has the decibels, the path loss and `_Fader`; State is
--               `RefSim` with `__post_init__` and `_neighbors`; World has `_apply_events` and
--               `_move`, Jamming the jammers' power and `_update_reactive`; Link is `_link_state`; Step is `scan` and
--               `step`; Actions are the calls of the controller; the other files prove things about
--               these
--   Episode     capstone/run_episode.py, `run_one`: the controller with the reference simulator and the
--               extractor in place of its parameters; Silent and Early prove things about the whole
--   Bridge      capstone/sim/bridge_server.py: Observe is `state_to_obs`; the loop of `run` is cut into
--               Mask (`avail`), Books (the lines once a second and the dead-man rule), Answer (from the
--               decision to the reply) and Loop (a turn, and the session); the other files prove things
--               about these
--   Gateway     capstone/gateway/provider.py: `ClaudeCliProvider.complete` and `_complete_once`, with the
--               program, the hash of a key, the JSON and the text of an error as parameters
--   Corpus      capstone/scenario/corpus.py: `validate` and `build`, with the generator `make` and the
--               hash of a name as parameters; Verdicts, Search and Splits prove things about them
--   Verifier    capstone/verify/verifier.py: Score (`_cost`, `score_episode`), Aggregate (`_median`,
--               `aggregate`, `confusion`, `gates`); the other files prove things about these
--
-- For the controller, the simulator, the agent and the extractor are parameters: records of
-- operations on a state of their own (`Sim`, `Agent`, `Extractor`), about which no law is assumed.
-- A simulator that lacks an optional method is one whose operation changes nothing. Silence states
-- laws of such a simulator, which the theorems of Episode fill for the reference simulator. There a
-- state is a pair with the proof that it is sound, so that its ticks return; what `int` and `float`
-- make of the arguments of a call is a parameter (`Reads`), and arguments that they refuse are left
-- out.
--
-- A float is an element of any type with the operations of `Number`. Theorems that assume laws of
-- it name them: on the refusal gate, on the features' bounds, and on the events of a tick. The
-- concrete numbers of the examples are integers in millionths; NaN is not modelled. Counters are
-- natural numbers, as Python's integers do not overflow. The loop over the ticks is a recursion on
-- the number of ticks left, of which `run` gives duration / dt: no fuel is involved. The reference
-- simulator takes Python's `math` and `random.Random` as parameters, with the generator's state
-- passed on; where a link is looked up that may be missing, it returns an Option. The simulator and
-- the extractor take `math` and the power `**` as total functions: the OverflowError of `exp` and
-- `**` on extreme arguments, and the ValueError of a square root or of a logarithm out of its
-- domain, are not modelled. The search for the corpus runs on fuel, of which it is given as much as
-- there are seeds below its limit.
--
-- Not modelled: the prompts, the prose of a decision (`why`, `expect`), the identifiers of an
-- episode, the rows kept for distillation, the reading and writing of scenario files, the gateway's
-- waiting and its stub, and of the repository the bridge's process, socket and viewers, the other
-- bridges, the model teacher, the rest of the harness, training, the dashboard and the firmware.
pub mod Base
pub mod Percept
pub mod Api
pub mod Controller
pub mod Agents
pub mod Harness
pub mod Verifier
pub mod Scenario
pub mod Sim
pub mod Episode
pub mod Bridge
pub mod Gateway
pub mod Corpus
