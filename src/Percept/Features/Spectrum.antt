-- ===== src/Percept/Features/Spectrum.antt =====
-- The spectral memory of `FeatureExtractor.update`: how the last scan looks from the current channel.
use tactical_radio_jamming_s.Base.{
  ℕ, ◌+◌, ◌-◌, ◌==◌, ltb, ◌&&◌, Option, none, some, List, [], ◌∷◌, map, count, length,
  if◌then◌else◌, Number, lit, of_ℕ, min_of,
}
use Prim.Native.Nat.{max}
use tactical_radio_jamming_s.Percept.Observation.{
  RawObs, ChannelObs, ScanResult, at_channel, off_channel, quietest,
}
use tactical_radio_jamming_s.Percept.Features.{FeatureMath, FeatureExtractor}
use tactical_radio_jamming_s.Percept.Features.Links.{average, deviation}
use tactical_radio_jamming_s.Verifier.Aggregate.{sorted}

-- `bad`, `spread`, `rank` and `margin`
pub record Spectrum (F : Type 0) : Type 0 where
  pub bad : F
  pub spread : F
  pub rank : F
  pub margin : F

-- how often two neighbours of a list differ
abbrev pub changes : List ℕ → ℕ
changes [] = 0
changes (a ∷ []) = 0
changes (a ∷ b ∷ h) = (if b == a then 0 else 1) + changes (b ∷ h)

module _ {F : Type 0} ⦃num : Number F⦄ where
  open num use {neg, sub, div, add, le}

  -- `xs.index(x)` of a list that holds `x`
  abbrev pub index_of : F → List F → ℕ
  index_of x [] = 0
  index_of x (y ∷ ys) = if le x y && le y x then 0 else index_of x ys + 1

  -- the levels of the channels
  abbrev levels : List (ChannelObs F) → List F
  levels chs = map (λ c. c.noise_dbm) chs

  -- `JAM_ENERGY_DBM`, `NOMINAL_NOISE_DBM` and `HOT_MARGIN_DB`
  abbrev hot_dbm : FeatureExtractor F → F
  hot_dbm x =
      min_of (neg (lit 80 0))
        (add (if x.noise_base.init then x.noise_base.v else neg (lit 96 0)) (lit 8 0))

  abbrev rank_of : List (ChannelObs F) → Option (ChannelObs F) → F
  rank_of chs none = lit 5 1
  rank_of chs (some cur) =
      div (of_ℕ (index_of cur.noise_dbm (sorted (levels chs)))) (of_ℕ (max 1 (length chs - 1)))

  -- the current channel against the best of the others
  abbrev margin_of : Option (ChannelObs F) → List (ChannelObs F) → F
  margin_of (some cur) (c ∷ alts) = sub cur.noise_dbm (quietest c alts).noise_dbm
  margin_of _ _ = lit 0 0

  abbrev spectrum_of : FeatureMath F → ℕ → FeatureExtractor F → List (ChannelObs F) → Spectrum F
  spectrum_of math ch x [] = record {
    bad = lit 0 0;
    spread = lit 0 0;
    rank = lit 0 0;
    margin = lit 0 0;
  }
  spectrum_of math ch x (c ∷ cs) =
      let chs = c ∷ cs in
      let cur = at_channel ch chs in
      record {
        bad =
            div (of_ℕ (count (λ (d : ChannelObs F). le (hot_dbm x) d.noise_dbm) chs))
              (of_ℕ (length chs));
        spread = deviation math (average (levels chs)) (levels chs);
        rank = rank_of chs cur;
        margin = margin_of cur (off_channel ch chs);
      }

  abbrev channels_of : Option (ScanResult F) → List (ChannelObs F)
  channels_of none = []
  channels_of (some scan) = scan.channels

  unfoldable pub spectrum : FeatureMath F → RawObs F → FeatureExtractor F → Spectrum F
  spectrum math o x = spectrum_of math o.channel x (channels_of x.scans.last_scan)

  unfoldable pub scan_age : RawObs F → FeatureExtractor F → F
  scan_age o x = elim x.scans.last_scan [ none ↦ lit 999 0 | some scan ↦ sub o.t scan.t ]

  -- does the hot channel keep moving between scans?
  unfoldable pub periodicity : List ℕ → F
  periodicity h =
      if ltb 1 (length h) then div (of_ℕ (changes h)) (of_ℕ (max 1 (length h - 1))) else lit 0 0
