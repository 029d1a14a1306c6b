-- ===== src/Percept/Features/Links.antt =====
-- The first part of `FeatureExtractor.update`: what one observation says of the links, taken together,
-- and what the neighbours report of hearing the agent.
use tactical_radio_jamming_s.Base.{
  ℕ, ◌+◌, ltb, true, none, some, List, [], ◌∷◌, map, keep, count, length, String, if◌then◌else◌,
  Number, lit, of_ℕ, sum, max_of, min_of,
}
use tactical_radio_jamming_s.Percept.Observation.{LinkObs, RawObs}
use tactical_radio_jamming_s.Percept.Ring.{fold_with, square}
use tactical_radio_jamming_s.Percept.Features.{FeatureMath}
use tactical_radio_jamming_s.Verifier.Aggregate.{present}

-- The local variables of `update` that the links determine.
pub record Summary (F : Type 0) : Type 0 where
  pub links : List (LinkObs F)
  pub pdr_mean : F
  pub pdr_worst : F
  pub pdr_spread : F
  pub degraded : F
  pub rssi_mean : F
  pub frames_rx : ℕ
  pub sinr : F
  pub retry_mean : F
  pub hb_now : F

-- What the neighbours that can be believed say.
pub record Reciprocal (F : Type 0) : Type 0 where
  pub rssi_rev : F
  pub pdr_rev : F
  pub asym_mean : F
  pub frac_bad_rep : F

-- `xs or ys`
abbrev pub or_list {ℓ} : {A : Type ℓ} → List A → List A → List A
or_list [] ys = ys
or_list (x ∷ xs) ys = x ∷ xs

module _ {F : Type 0} ⦃num : Number F⦄ where
  open num use {neg, sub, div, mul, lt}

  -- `LinkObs()`
  abbrev pub default_link : LinkObs F
  default_link = record {
    pdr = lit 1 0;
    rssi_dbm = neg (lit 60 0);
    retry_rate = lit 0 0;
    frames_rx = 0;
    heartbeat_age_s = lit 0 0;
    reachable = true;
    rssi_reverse_dbm = none;
    pdr_reverse = none;
    report_age_s = lit 999 0;
  }

  abbrev links_of : List (String × LinkObs F) → List (LinkObs F)
  links_of links = or_list (map (λ (l : String × LinkObs F). l.1) links) (default_link ∷ [])

  -- `sum(xs) / len(xs)`
  abbrev pub average : List F → F
  average xs = div (sum xs) (of_ℕ (length xs))

  -- `math.sqrt(sum((x - m) ** 2 for x in xs) / len(xs))`
  abbrev pub deviation : FeatureMath F → F → List F → F
  deviation math m xs = math.sqrt (average (map (λ x. square (sub x m)) xs))

  abbrev rssi_of : List (LinkObs F) → List F
  rssi_of links =
      or_list (map (λ l. l.rssi_dbm) (keep (λ l. ltb 0 l.frames_rx) links))
        (map (λ l. l.rssi_dbm) links)

  abbrev frames_of : List (LinkObs F) → ℕ
  frames_of [] = 0
  frames_of (l ∷ ls) = l.frames_rx + frames_of ls

  unfoldable pub summary : FeatureMath F → RawObs F → Summary F
  summary math o =
      let links = links_of o.links in
      let pdrs = map (λ (l : LinkObs F). l.pdr) links in
      let mean = average pdrs in
      let rssi = average (rssi_of links) in
      record {
        links = links;
        pdr_mean = mean;
        pdr_worst = fold_with min_of (lit 0 0) pdrs;
        pdr_spread = if ltb 1 (length links) then deviation math mean pdrs else lit 0 0;
        degraded = div (of_ℕ (count (λ p. lt p (lit 6 1)) pdrs)) (of_ℕ (length links));
        rssi_mean = rssi;
        frames_rx = frames_of links;
        sinr = sub rssi o.noise_dbm;
        retry_mean = average (map (λ (l : LinkObs F). l.retry_rate) links);
        hb_now = fold_with max_of (lit 0 0) (map (λ (l : LinkObs F). l.heartbeat_age_s) links);
      }

  -- the reports that are there and at most eight seconds old, with their delivery
  abbrev believed : List (LinkObs F) → List (F × LinkObs F)
  believed [] = []
  believed (l ∷ ls) =
      let rest = believed ls in
      elim l.pdr_reverse [
        | none ↦ rest
        | some p ↦ if lt (lit 8 0) l.report_age_s then rest else (p, l) ∷ rest
      ]

  -- `sum(xs) / len(xs) if xs else d`
  abbrev average_or : F → List F → F
  average_or d [] = d
  average_or d (x ∷ xs) = average (x ∷ xs)

  unfoldable pub reciprocal : List (LinkObs F) → Reciprocal F
  reciprocal links =
      let reps = believed links in
      let rev_p = map (λ (r : F × LinkObs F). r.0) reps in
      record {
        rssi_rev =
            fold_with min_of (neg (lit 120 0))
              (present (map (λ (r : F × LinkObs F). r.1.rssi_reverse_dbm) reps));
        pdr_rev = average_or (lit 1 0) rev_p;
        asym_mean = average_or (lit 0 0) (map (λ (r : F × LinkObs F). sub r.1.pdr r.0) reps);
        frac_bad_rep =
            if ltb 0 (length reps)
            then div (of_ℕ (count (λ p. lt p (lit 6 1)) rev_p)) (of_ℕ (length reps))
            else lit 0 0;
      }
