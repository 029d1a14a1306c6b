-- ===== src/Sim/State.antt =====
-- The state of `RefSim`: the attributes of the object, and `__post_init__`.
use text.Mathlib.Text.{◌==◌ as str_eq}
use tactical_radio_jamming_s.Base.{
  ℕ, String, Bool, false, Option, none, some, List, [], ◌∷◌, ◌++◌, map, take, store, same_key,
  Number, lit, if◌then◌else◌,
}
use tactical_radio_jamming_s.Api.{Cause}
use tactical_radio_jamming_s.Scenario.{
  Point, Node, Event, Jammer, Mobility, Scenario, agent_node, peers, adjacency,
}
use tactical_radio_jamming_s.Sim.Radio.{Maths, Random, Fader, new_fader, minus}

pub record TruthRow (F : Type 0) : Type 0 where
  pub t : F
  pub cause : Cause
  pub jammer_on : Bool
  pub jammer_channels : List ℕ
  pub peers_alive : List (Option String)
  pub true_pdr : List (String × F)

-- What a peer said of the agent, and when.
pub record Report (F : Type 0) : Type 0 where
  pub rssi : F
  pub pdr : F
  pub t : F

pub record State (F R : Type 0) : Type 0 where
  pub rng : R
  pub t : F
  pub channel : ℕ
  pub tx_power : F
  pub pos : Point F
  pub vel : Point F
  -- an event without a target stores the key None
  pub alive : List (Option String × Bool)
  pub jammer_on : List (String × Bool)
  pub fade_extra_db : F
  pub load_factor : F
  pub hidden : Bool
  pub lora_active : Bool
  pub declared_lost : Bool
  pub tdma_slot : ℕ
  pub faders : List (String × Fader F)
  pub neighbors : List String
  pub heartbeat_age : List (String × F)
  pub last_rssi : List (String × F)
  pub own_tx_active : Bool
  pub consec_fail : ℕ
  pub peer_reports : List (String × Report F)
  pub truth : List (TruthRow F)
  pub events : List (Event F)
  pub ev_i : ℕ
  pub pending_reactive_until : F
  pub wp_i : ℕ
  pub probe_results : List (Option String × Bool)
  pub probes_run : ℕ

-- The attributes that never change: `self.scenario`, `self.dt`, `self.agent`, `self.jammers` and
-- `self._mobility`.
pub record Setup (F : Type 0) : Type 0 where
  pub scenario : Scenario F
  pub dt : F
  pub agent : Node F
  pub jammers : List (String × Jammer F)
  pub mobility : List (String × Mobility F)

-- `{key(x): value(x) for x in xs}`, onto a dictionary
abbrev pub filled {ℓ} :
    {K : Type 0} {A V : Type ℓ}
    → (K → K → Bool)
    → (A → K)
    → (A → V)
    → List A
    → List (K × V)
    → List (K × V)
filled eq key value [] d = d
filled eq key value (x ∷ xs) d = filled eq key value xs (store eq (key x) (value x) d)

-- the other end of a link of `a`
abbrev pub other_end : String → String × String → List String
other_end a (x, y) = if str_eq x a then y ∷ [] else if str_eq y a then x ∷ [] else []

abbrev pub ends_at : String → List (String × String) → List String
ends_at a [] = []
ends_at a (link ∷ links) = other_end a link ++ ends_at a links

abbrev pub or_peers : {F : Type 0} → Scenario F → List String → List String
or_peers sc [] = map (λ p. p.id) (take 2 (peers sc))
or_peers sc (p ∷ ps) = p ∷ ps

module _ {F : Type 0} ⦃num : Number F⦄ (maths : Maths F) where
  open num use {lt}

  -- `_neighbors`
  unfoldable pub neighbors_of : Scenario F → Node F → List String
  neighbors_of sc a = or_peers sc (ends_at a.id (adjacency maths.dist sc))

  -- `sorted(events, key=lambda e: e.t)`, by insertion: an event goes behind those of its own time
  abbrev pub insert_event : Event F → List (Event F) → List (Event F)
  insert_event e [] = e ∷ []
  insert_event e (f ∷ fs) =
      let rest = insert_event e fs in if lt e.t f.t then e ∷ f ∷ fs else f ∷ rest

  abbrev pub sort_onto : List (Event F) → List (Event F) → List (Event F)
  sort_onto done [] = done
  sort_onto done (e ∷ es) = sort_onto (insert_event e done) es

  unfoldable pub sort_events : List (Event F) → List (Event F)
  sort_events = sort_onto []

  module _ {R : Type 0} (rand : Random F R) where
    -- one fader for every peer
    unfoldable pub new_faders :
        Scenario F → F → List (Node F) → List (String × Fader F) → R → List (String × Fader F) × R
    new_faders sc dt [] faders r = (faders, r)
    new_faders sc dt (p ∷ ps) faders r =
        let (f, r') =
          new_fader maths rand sc.channel_model.doppler_hz sc.channel_model.nakagami_m dt r in
        new_faders sc dt ps (store str_eq p.id f faders) r'

    abbrev pub setup_of : Scenario F → F → Node F → Setup F
    setup_of sc dt a = record {
      scenario = sc;
      dt = dt;
      agent = a;
      jammers = filled str_eq (λ j. j.id) (λ j. j) sc.jammers [];
      mobility = filled str_eq (λ m. m.node) (λ m. m) sc.mobility [];
    }

    -- the attributes at first, around the faders and the state that the generator is left in
    abbrev pub initial : Scenario F → Node F → List (String × Fader F) × R → State F R
    initial sc a (faders, r) = record {
      rng = r;
      t = lit 0 0;
      channel = sc.channel;
      tx_power = a.tx_power_dbm;
      pos = a.pos;
      vel = (lit 0 0, lit 0 0, lit 0 0);
      alive = filled same_key (λ n. some n.id) (λ n. n.alive) sc.nodes [];
      jammer_on = filled str_eq (λ j. j.id) (λ j. false) sc.jammers [];
      fade_extra_db = lit 0 0;
      load_factor = lit 1 0;
      hidden = false;
      lora_active = false;
      declared_lost = false;
      tdma_slot = 0;
      faders = faders;
      neighbors = neighbors_of sc a;
      heartbeat_age = filled str_eq (λ p. p) (λ p. lit 0 0) (neighbors_of sc a) [];
      last_rssi = filled str_eq (λ p. p) (λ p. minus 60 0) (neighbors_of sc a) [];
      own_tx_active = false;
      consec_fail = 0;
      peer_reports = [];
      truth = [];
      events = sort_events sc.events;
      ev_i = 0;
      pending_reactive_until = minus 1 0;
      wp_i = 0;
      probe_results = [];
      probes_run = 0;
    }

    abbrev started : Scenario F → F → Option (Node F) → Option (Setup F × State F R)
    started sc dt none = none
    started sc dt (some a) =
        some (setup_of sc dt a, initial sc a (new_faders sc dt (peers sc) [] (rand.seeded sc.seed)))

    -- `__post_init__`; `none` is the ValueError of a scenario without an agent
    unfoldable pub start : Scenario F → F → Option (Setup F × State F R)
    start sc dt = started sc dt (agent_node sc)
