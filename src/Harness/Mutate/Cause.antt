-- ===== src/Harness/Mutate/Cause.antt =====
-- What a mutation of a scenario leaves alone.
use mathlib.Core.Path.{subst}
use tactical_radio_jamming_s.Base.{
  ℕ, ◌≡◌, refl, ap, Bool, true, false, Option, none, some, List, [], ◌∷◌, map, any, find, Number,
  Bool-cases, inl, inr,
}
use tactical_radio_jamming_s.Scenario.{Node, Scenario, is_agent, agent_node}
use tactical_radio_jamming_s.Scenario.Checks.{ids}
use tactical_radio_jamming_s.Harness.Mutate.{
  Axis, power, onset, geometry, duty, load, channel, severity, unheard, jitter, jitter_all, deform,
  reseeded, kept, screened, mutate, drop_rng, unless_empty, has_channels, is_touched,
}

module _ {F : Type 0} where
  -- What no axis may change: the cause, whether it can be recovered from, the family, the band with the
  -- agent's channel, the setting `links`, the names of the nodes, and the agent itself.
  pub record SameCase (sc m : Scenario F) : Type 0 where
    pub cause : m.truth.cause ≡ sc.truth.cause
    pub recoverable : m.truth.recoverable ≡ sc.truth.recoverable
    pub family : m.family ≡ sc.family
    pub band : m.n_channels ≡ sc.n_channels
    pub tuned : m.channel ≡ sc.channel
    pub links : m.links ≡ sc.links
    pub named : ids m ≡ ids sc
    pub observer : agent_node m ≡ agent_node sc

  same :
      {sc m : Scenario F}
      → m.truth.cause ≡ sc.truth.cause
      → m.truth.recoverable ≡ sc.truth.recoverable
      → m.family ≡ sc.family
      → m.n_channels ≡ sc.n_channels
      → m.channel ≡ sc.channel
      → m.links ≡ sc.links
      → m.nodes ≡ sc.nodes
      → SameCase sc m
  same c r f n t l ns = record {
    cause = c;
    recoverable = r;
    family = f;
    band = n;
    tuned = t;
    links = l;
    named = ap (map (λ n. n.id)) ns;
    observer = ap (find is_agent) ns;
  }

module _ {F R : Type 0} ⦃num : Number F⦄ (uniform : F → F → R → F × R) where
  jittered :
      (mag : F) (ns : List (Node F)) (r : R)
      → (map (λ n. n.id) (jitter_all uniform mag ns r).0 ≡ map (λ n. n.id) ns)
        × (find is_agent (jitter_all uniform mag ns r).0 ≡ find is_agent ns)
  unfolding jitter_all
  jittered mag [] r = (refl, refl)
  jittered mag (n ∷ ns) r = elim (Bool-cases (is_agent n)) [
    | inl e ↦ rw e (ap (n.id ∷◌) (jittered mag ns r).0, rw e refl)
    | inr e ↦
        let rest = jittered mag ns (jitter uniform mag n r).1 in
        rw e (ap (n.id ∷◌) rest.0, rw e rest.1)
  ]

  -- A result that, if it is a scenario, is the same case and passes a test.
  abbrev Fine : (Scenario F → Type 0) → Scenario F → Option (Option (Scenario F) × R) → Type 0
  Fine P sc none = Unit {0}
  Fine P sc (some (none, r)) = Unit {0}
  Fine P sc (some (some m, r)) = SameCase sc m × P m

  abbrev Anything : Scenario F → Type 0
  Anything m = Unit {0}

  unless_empty-Fine :
      {A : Type 0} (xs : List A) (sc m : Scenario F) (r : R)
      → SameCase sc m
      → Fine Anything sc (drop_rng uniform (unless_empty xs m) r)
  unless_empty-Fine [] sc m r h = tt
  unless_empty-Fine (x ∷ xs) sc m r h = (h, tt)

  deform-Fine :
      (axis : Axis) (mag : F) (sc : Scenario F) (r : R)
      → Fine Anything sc (deform uniform axis mag sc r)
  unfolding deform
  deform-Fine power mag sc r =
      unless_empty-Fine sc.jammers sc _ r (same refl refl refl refl refl refl refl)
  deform-Fine onset mag sc r = (same refl refl refl refl refl refl refl, tt)
  deform-Fine geometry mag sc r = (
    record {
      cause = refl;
      recoverable = refl;
      family = refl;
      band = refl;
      tuned = refl;
      links = refl;
      named = (jittered mag sc.nodes r).0;
      observer = (jittered mag sc.nodes r).1;
    },
    tt,
  )
  deform-Fine duty mag sc r =
      unless_empty-Fine sc.jammers sc _ r (same refl refl refl refl refl refl refl)
  deform-Fine load mag sc r =
      unless_empty-Fine sc.traffic sc _ r (same refl refl refl refl refl refl refl)
  deform-Fine channel mag sc r = elim (Bool-cases (any has_channels sc.jammers)) [
    | inl e ↦ rw e (same refl refl refl refl refl refl refl, tt)
    | inr e ↦ rw e tt
  ]
  deform-Fine severity mag sc r = elim (Bool-cases (any is_touched sc.events)) [
    | inl e ↦ rw e (same refl refl refl refl refl refl refl, tt)
    | inr e ↦ rw e (same refl refl refl refl refl refl refl, tt)
  ]
  deform-Fine (unheard s) mag sc r = tt

  module _ (check : Scenario F → Option Bool) (salt : Axis → ℕ) where
    abbrev Passing : Scenario F → Type 0
    Passing m = check m ≡ some true

    kept-Fine :
        (sc m : Scenario F) (r : R) (ok : Option Bool)
        → check m ≡ ok
        → SameCase sc m
        → Fine Passing sc (kept uniform check salt m r ok)
    kept-Fine sc m r none e h = tt
    kept-Fine sc m r (some true) e h = (h, e)
    kept-Fine sc m r (some false) e h = tt

    screened-Fine :
        (sc : Scenario F) (o : Option (Option (Scenario F) × R))
        → Fine Anything sc o
        → Fine Passing sc (screened uniform check salt o)
    screened-Fine sc none h = tt
    screened-Fine sc (some (none, r)) h = tt
    screened-Fine sc (some (some m, r)) h = kept-Fine sc m r (check m) refl h.0

    -- A mutation keeps the cause, whether it can be recovered from, the family, the band with the
    -- agent's channel, the setting `links` (which may leave the topology to the ranges), the names of
    -- the nodes and the agent, and it passes the check.
    pub mutate-SameCase :
        (axis : Axis) (mag : F) (sc : Scenario F) (r : R) (m : Scenario F) (r' : R)
        → mutate uniform check salt axis mag sc r ≡ some (some m, r')
        → SameCase sc m × (check m ≡ some true)
    unfolding mutate
    mutate-SameCase axis mag sc r m r' e =
        let seeded = reseeded uniform (salt axis) sc in
        let (h, ok) =
          subst (Fine Passing seeded) e (screened-Fine _ _ (deform-Fine axis mag seeded r)) in
        (unseeded sc h, ok)
      where
        unseeded : (sc : Scenario F) → SameCase (reseeded uniform (salt axis) sc) m → SameCase sc m
        unseeded sc h = record {
          cause = h.cause;
          recoverable = h.recoverable;
          family = h.family;
          band = h.band;
          tuned = h.tuned;
          links = h.links;
          named = h.named;
          observer = h.observer;
        }
