-- ===== src/Scenario.antt =====
-- capstone/scenario/schema.py: the description of an episode. A position is a triple. Left out are the
-- fields that the Python simulator never reads: `name`, `routing`, `meta`, `notes`, `bounds`,
-- `sweep_order` and the type of a flow.
pub mod Checks
pub mod Runnable
pub mod Sample
pub mod Split
mod Tests
use text.Mathlib.Text.{◌==◌ as str_eq}
use tactical_radio_jamming_s.Base.{
  ℕ, String, Bool, true, false, ◌&&◌, ◌||◌, not, Option, none, some, List, [], ◌∷◌, ◌++◌, map, keep,
  find, any, Number, if◌then◌else◌,
}
use tactical_radio_jamming_s.Verifier.Score.{Truth}

abbrev pub Point : Type 0 → Type 0
Point F = F × F × F

pub data Role : Type 0 where
  agent peer interferer : Role
  another : String → Role

pub record Node (F : Type 0) : Type 0 where
  pub id : String
  pub pos : Point F
  pub role : Role
  pub tx_power_dbm : F
  pub alive : Bool

pub data Motion : Type 0 where
  still constant_velocity waypoint random_walk : Motion

pub record Mobility (F : Type 0) : Type 0 where
  pub node : String
  pub type : Motion
  pub velocity : Point F
  pub waypoints : List (Point F)
  pub speed : F

pub record Flow (F : Type 0) : Type 0 where
  pub src : String
  pub dst : String
  pub rate_kbps : F
  pub packet_bytes : ℕ
  pub start_s : F
  pub stop_s : Option F

-- `JAMMER_TYPES`; `silent` is "none"
pub data JammerType : Type 0 where
  barrage spot sweep reactive silent : JammerType

pub record Jammer (F : Type 0) : Type 0 where
  pub id : String
  pub type : JammerType
  pub pos : Point F
  pub eirp_dbm : F
  pub channels : List ℕ
  pub duty : F
  pub dwell_ms : F
  pub threshold_dbm : F
  pub delay_us : F
  pub burst_ms : F
  pub p_fire : F

pub data PathLoss : Type 0 where
  friis log_distance : PathLoss

pub data Fading : Type 0 where
  unfaded nakagami rayleigh : Fading

pub record ChannelModel (F : Type 0) : Type 0 where
  pub path_loss : PathLoss
  pub exponent : F
  pub ref_loss_db : F
  pub fading : Fading
  pub nakagami_m : F
  pub doppler_hz : F
  pub shadowing_db : F
  pub noise_floor_dbm : F

-- The parameters that the simulator reads from `params`.
pub record Params (F : Type 0) : Type 0 where
  pub depth_db : Option F
  pub nakagami_m : Option F
  pub factor : Option F
  pub hidden : Option Bool

pub data EventType : Type 0 where
  jammer_on jammer_off node_down node_up load_spike fade_enter fade_exit : EventType
  unheard_of : String → EventType

pub record Event (F : Type 0) : Type 0 where
  pub t : F
  pub type : EventType
  pub target : Option String
  pub params : Params F

-- `auto` (range-based) or explicit pairs
pub data Links : Type 0 where
  auto : Links
  pairs : List (String × String) → Links

pub record Scenario (F : Type 0) : Type 0 where
  pub family : String
  pub truth : Truth F
  pub nodes : List (Node F)
  pub seed : ℕ
  pub duration_s : F
  pub n_channels : ℕ
  pub channel : ℕ
  pub lora_available : Bool
  pub lora_jammed : Bool
  pub mobility : List (Mobility F)
  pub traffic : List (Flow F)
  pub jammers : List (Jammer F)
  pub events : List (Event F)
  pub channel_model : ChannelModel F
  pub links : Links
  pub comm_range_m : F

module _ {F : Type 0} where
  abbrev pub is_agent : Node F → Bool
  is_agent n = elim n.role [ agent ↦ true | _ ↦ false ]

  abbrev pub is_peer : Node F → Bool
  is_peer n = elim n.role [ peer ↦ true | _ ↦ false ]

  -- `agent_node`; `none` is the ValueError
  abbrev pub agent_node : Scenario F → Option (Node F)
  agent_node sc = find is_agent sc.nodes

  abbrev pub peers : Scenario F → List (Node F)
  peers sc = keep is_peer sc.nodes

  -- `node`; `none` is the KeyError
  abbrev pub node : String → Scenario F → Option (Node F)
  node nid sc = find (λ n. str_eq n.id nid) sc.nodes

module _ {F : Type 0} ⦃num : Number F⦄ (dist : Point F → Point F → F) where
  open num use {le}

  -- the nodes of `rest` that `a` reaches
  abbrev pub reached : F → Node F → List (Node F) → List (String × String)
  reached range a [] = []
  reached range a (b ∷ rest) =
      let out = reached range a rest in
      if le (dist a.pos b.pos) range then (a.id, b.id) ∷ out else out

  abbrev pub in_range : F → List (Node F) → List (String × String)
  in_range range [] = []
  in_range range (a ∷ rest) = reached range a rest ++ in_range range rest

  abbrev adjacency_by : Links → Scenario F → List (String × String)
  adjacency_by (pairs links) sc = links
  adjacency_by auto sc = in_range sc.comm_range_m (keep (λ n. is_agent n || is_peer n) sc.nodes)

  -- `adjacency`
  unfoldable pub adjacency : Scenario F → List (String × String)
  adjacency sc = adjacency_by sc.links sc
