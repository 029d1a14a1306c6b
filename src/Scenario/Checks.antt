-- ===== src/Scenario/Checks.antt =====
-- `validate` of capstone/scenario/schema.py. A problem is a value in place of its text.
use text.Mathlib.Text.{◌==◌ as str_eq}
use tactical_radio_jamming_s.Base.{
  ℕ, String, Bool, true, false, ◌&&◌, ◌||◌, not, Option, none, some, List, [], ◌∷◌, ◌++◌, map, any,
  leb, Number, if◌then◌else◌,
}
use tactical_radio_jamming_s.Scenario.{Point, Node, Event, Scenario, agent_node, adjacency}

pub data Problem (F : Type 0) : Type 0 where
  duplicate_ids no_agent : Problem F
  channel_outside : ℕ → Problem F
  jammer_channel : String → ℕ → Problem F
  flow_node : String → Problem F
  mobility_node : String → Problem F
  event_target : F → String → Problem F
  late_onset : Problem F
  no_links : String → Problem F

abbrev pub among : String → List String → Bool
among s = any (str_eq s)

-- `len(ids) != len(set(ids))`
abbrev pub has_duplicates : List String → Bool
has_duplicates [] = false
has_duplicates (s ∷ rest) = among s rest || has_duplicates rest

-- `1 <= ch <= n`
abbrev pub is_channel : ℕ → ℕ → Bool
is_channel n ch = leb 1 ch && leb ch n

-- one problem for every member that a test refuses
abbrev pub refused {ℓ} : {A : Type ℓ} {P : Type 0} → (A → Bool) → (A → P) → List A → List P
refused ok p [] = []
refused ok p (x ∷ xs) = let rest = refused ok p xs in if ok x then rest else p x ∷ rest

abbrev pub collect {ℓ} : {A : Type ℓ} {P : Type 0} → (A → List P) → List A → List P
collect f [] = []
collect f (x ∷ xs) = f x ++ collect f xs

abbrev pub joined : {P : Type 0} → List (List P) → List P
joined [] = []
joined (xs ∷ xss) = xs ++ joined xss

-- A problem unless the test holds.
abbrev pub unless : {P : Type 0} → Bool → P → List P
unless ok p = if ok then [] else p ∷ []

abbrev pub touches : String → String × String → Bool
touches a (x, y) = str_eq a x || str_eq a y

module _ {F : Type 0} where
  abbrev pub is_missing : Problem F → Bool
  is_missing p = elim p [ Problem.no_agent ↦ true | _ ↦ false ]

  abbrev pub ids : Scenario F → List String
  ids sc = map (λ n. n.id) sc.nodes

  abbrev pub is_known : List String → Event F → Bool
  is_known names e = elim e.target [ none ↦ true | some s ↦ str_eq s "" || among s names ]

  abbrev pub event_problem : Event F → Problem F
  event_problem e = elim e.target [
    | none ↦ Problem.event_target e.t ""
    | some s ↦ Problem.event_target e.t s
  ]

  abbrev pub has_agent : Scenario F → Bool
  has_agent sc = elim (agent_node sc) [ none ↦ false | some _ ↦ true ]

module _ {F : Type 0} ⦃num : Number F⦄ (dist : Point F → Point F → F) where
  open num use {le}

  -- the problems that each test finds, before the last one
  unfoldable pub problems : Scenario F → List (List (Problem F))
  problems sc =
      (unless (not (has_duplicates (ids sc))) Problem.duplicate_ids
        ∷ unless (has_agent sc) Problem.no_agent
        ∷ unless (is_channel sc.n_channels sc.channel) (Problem.channel_outside sc.channel)
        ∷ collect (λ j. refused (is_channel sc.n_channels) (Problem.jammer_channel j.id) j.channels)
            sc.jammers
        ∷ collect (λ f. refused (λ s. among s (ids sc)) Problem.flow_node (f.src ∷ f.dst ∷ []))
            sc.traffic
        ∷ refused (λ m. among m.node (ids sc)) (λ m. Problem.mobility_node m.node) sc.mobility
        ∷ refused (is_known (ids sc ++ map (λ j. j.id) sc.jammers)) event_problem sc.events
        ∷ unless (not (le sc.duration_s sc.truth.onset_t)) Problem.late_onset
        ∷ [])

  abbrev linked : Scenario F → Option (Node F) → Option (List (Problem F))
  linked sc none = none
  linked sc (some a) = some (
      joined (problems sc)
      ++ unless (any (touches a.id) (adjacency dist sc)) (Problem.no_links a.id))

  -- `validate`; `none` is the ValueError of its last lines
  unfoldable pub validate : Scenario F → Option (List (Problem F))
  validate sc = linked sc (agent_node sc)
