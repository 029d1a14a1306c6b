-- ===== src/Harness/Mutate.antt =====
-- capstone/harness/mutate.py: `mutate`, which deforms a scenario along one axis. The hash of an axis
-- (modulo 1000), `rng.uniform` and the check of the result are parameters; a shift of channels is not
-- negative, as in `LEVELS`. `none` is an exception, `some none` the None of the code.
pub mod Cause
mod Tests
use mathlib.Core.Option.{map as map_option}
use Prim.Native.Nat.{max, min}
use tactical_radio_jamming_s.Base.{
  ℕ, ◌+◌, ◌-◌, ◌*◌, ◌%◌, ◌^◌, String, Bool, true, false, ◌||◌, Option, none, some, List, [], ◌∷◌,
  map, any, is_some, Number, lit, max_of, min_of, if◌then◌else◌,
}
use tactical_radio_jamming_s.Scenario.{
  Point, Node, Flow, Jammer, Event, EventType, fade_enter, load_spike, Params, Scenario, is_agent,
}

-- `AXES`, and any other text
pub data Axis : Type 0 where
  power onset geometry duty load channel severity : Axis
  unheard : String → Axis

-- a channel moved on in a band of `n`
abbrev pub shifted : ℕ → ℕ → ℕ → ℕ
shifted n by c = (c - 1 + by) % n + 1

module _ {F : Type 0} ⦃num : Number F⦄ where
  open num use {neg, add, sub, mul, div, floor}

  -- `min(hi, max(lo, x))`
  abbrev held_in : F → F → F → F
  held_in lo hi x = min_of hi (max_of lo x)

  abbrev latest : Scenario F → F
  latest sc = max_of (lit 6 0) (sub sc.duration_s (lit 10 0))

  abbrev moved_time : F → Scenario F → F → F
  moved_time mag sc t = held_in (lit 5 0) (latest sc) (add t mag)

  abbrev late : F → Scenario F → Event F → Event F
  late mag sc e = record e { t = moved_time mag sc e.t }

  abbrev pub delayed : F → Scenario F → Scenario F
  delayed mag sc = record sc {
    events = map (late mag sc) sc.events;
    truth = record (sc.truth) { onset_t = moved_time mag sc sc.truth.onset_t };
  }

  abbrev pub has_channels : Jammer F → Bool
  has_channels j = elim j.channels [ [] ↦ false | c ∷ cs ↦ true ]

  abbrev pub shift_jammer : ℕ → ℕ → Jammer F → Jammer F
  shift_jammer n by j = record j { channels = map (shifted n by) j.channels }

  -- one event, and whether its intensity was touched
  abbrev deeper : F → Params F → Params F
  deeper mag p = record p {
    depth_db = map_option (λ d. max_of (lit 3 0) (mul d mag)) p.depth_db;
    nakagami_m = map_option (λ m. max_of (lit 6 1) (div m (max_of (lit 3 1) mag))) p.nakagami_m;
  }

  abbrev heavier : F → Params F → Params F
  heavier mag p = record p { factor = map_option (λ f. max_of (lit 12 1) (mul f mag)) p.factor }

  abbrev pub intensify : F → Event F → Event F
  intensify mag e = elim e.type [
    | fade_enter ↦ record e { params = deeper mag e.params }
    | load_spike ↦ record e { params = heavier mag e.params }
    | _ ↦ e
  ]

  abbrev pub is_touched : Event F → Bool
  is_touched e = elim e.type [
    | fade_enter ↦ is_some e.params.depth_db
    | load_spike ↦ is_some e.params.factor
    | _ ↦ false
  ]

  -- the link budget, where no event has an intensity
  abbrev pub steeper : F → Scenario F → Scenario F
  steeper mag sc = record sc {
    channel_model = record (sc.channel_model) {
      exponent = max_of (lit 18 1) (min_of (lit 4 0) (mul sc.channel_model.exponent mag));
    };
  }

  abbrev pub severed : F → Scenario F → Scenario F
  severed mag sc =
      let m = record sc { events = map (intensify mag) sc.events } in
      if any is_touched sc.events then m else steeper mag m

  abbrev pub stronger : F → Jammer F → Jammer F
  stronger mag j = record j { eirp_dbm = add j.eirp_dbm mag }

  abbrev pub pulsed : F → Jammer F → Jammer F
  pulsed mag j = record j { duty = mag }

  abbrev pub busier : F → Flow F → Flow F
  busier mag f = record f { rate_kbps = max_of (lit 10 0) (mul f.rate_kbps mag) }

  abbrev pub unless_empty : {A : Type 0} → List A → Scenario F → Option (Scenario F)
  unless_empty [] m = none
  unless_empty (x ∷ xs) m = some m

  module _ {R : Type 0} (uniform : F → F → R → F × R) where
    -- a node that is not the agent is moved by three draws
    abbrev pub jitter : F → Node F → R → Node F × R
    jitter mag n r =
        let (x, y, z) = n.pos in
        let (dx, r1) = uniform (neg mag) mag r in
        let (dy, r2) = uniform (neg mag) mag r1 in
        let (dz, r3) = uniform (div (neg mag) (lit 4 0)) (div mag (lit 4 0)) r2 in
        (record n { pos = (add x dx, add y dy, max_of (lit 5 0) (add z dz)) }, r3)

    unfoldable pub jitter_all : F → List (Node F) → R → List (Node F) × R
    jitter_all mag [] r = ([], r)
    jitter_all mag (n ∷ ns) r =
        let (n', r1) = if is_agent n then (n, r) else jitter mag n r in
        let (ns', r2) = jitter_all mag ns r1 in (n' ∷ ns', r2)

    abbrev pub drop_rng : Option (Scenario F) → R → Option (Option (Scenario F) × R)
    drop_rng m r = some (m, r)

    -- the deformed scenario, before it is checked
    unfoldable pub deform : Axis → F → Scenario F → R → Option (Option (Scenario F) × R)
    deform power mag m r =
        drop_rng (unless_empty m.jammers (record m { jammers = map (stronger mag) m.jammers })) r
    deform onset mag m r = drop_rng (some (delayed mag m)) r
    deform geometry mag m r =
        let (ns, r') = jitter_all mag m.nodes r in drop_rng (some (record m { nodes = ns })) r'
    deform duty mag m r =
        drop_rng (unless_empty m.jammers (record m { jammers = map (pulsed mag) m.jammers })) r
    deform load mag m r =
        drop_rng (unless_empty m.traffic (record m { traffic = map (busier mag) m.traffic })) r
    deform channel mag m r =
        drop_rng
          (if any has_channels m.jammers
            then some (record m { jammers = map (shift_jammer m.n_channels (floor mag)) m.jammers })
            else none)
          r
    deform severity mag m r = drop_rng (some (severed mag m)) r
    deform (unheard s) mag m r = none

    abbrev pub reseeded : ℕ → Scenario F → Scenario F
    reseeded salt sc = record sc { seed = (sc.seed * 7919 + salt) % 2 ^ 31 }

    module _ (check : Scenario F → Option Bool) (salt : Axis → ℕ) where
      abbrev pub kept : Scenario F → R → Option Bool → Option (Option (Scenario F) × R)
      kept m r none = none
      kept m r (some true) = some (some m, r)
      kept m r (some false) = some (none, r)

      abbrev pub screened : Option (Option (Scenario F) × R) → Option (Option (Scenario F) × R)
      screened none = none
      screened (some (none, r)) = some (none, r)
      screened (some (some m, r)) = kept m r (check m)

      -- `mutate`, with the state of the generator
      unfoldable pub mutate : Axis → F → Scenario F → R → Option (Option (Scenario F) × R)
      mutate axis mag sc r = screened (deform axis mag (reseeded (salt axis) sc) r)
