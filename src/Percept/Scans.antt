-- ===== src/Percept/Scans.antt =====
-- `FeatureExtractor.note_scan` of capstone/percept/features.py: the memory of hot channels.
use tactical_radio_jamming_s.Base.{
  ℕ, ◌-◌, ◌/◌, ◌≤◌, ◌≡◌, refl, ltb, List, [], ◌∷◌, ◌++◌, length, drop, map, get_elem?, or_else,
  if◌then◌else◌, Number, lit, arith, length-append, Option, some,
}
use tactical_radio_jamming_s.Percept.Observation.{ChannelObs, ScanResult}
use tactical_radio_jamming_s.Verifier.Aggregate.{sorted}

pub record Scans (F : Type 0) : Type 0 where
  pub last_scan : Option (ScanResult F)
  pub hot_channel_hist : List ℕ

-- the oldest of more than twelve goes
unfoldable pub trimmed : List ℕ → List ℕ
trimmed h = if ltb 12 (length h) then drop 1 h else h

length-drop_first : (h : List ℕ) → length (drop 1 h) ≡ length h - 1
length-drop_first [] = refl
length-drop_first (x ∷ h) = omega arith

length-trimmed : (h : List ℕ) → length h ≤ 13 → length (trimmed h) ≤ 12
unfolding trimmed
length-trimmed h p = ground (arith, length-drop_first h)

module _ {F : Type 0} ⦃num : Number F⦄ where
  open num use {lt, le, sub}

  -- `max(channels, key=...)`: the first channel that no later one exceeds
  pub hottest : ChannelObs F → List (ChannelObs F) → ChannelObs F
  hottest best [] = best
  hottest best (c ∷ cs) = hottest (if lt best.noise_dbm c.noise_dbm then c else best) cs

  -- the level in the middle
  pub mid_level : ChannelObs F → List (ChannelObs F) → F
  mid_level c cs =
      let lv = sorted (map (λ x. x.noise_dbm) (c ∷ cs)) in
      or_else (get_elem? lv (length lv / 2)) c.noise_dbm

  unfoldable pub note_hot : ChannelObs F → List (ChannelObs F) → List ℕ → List ℕ
  note_hot c cs h =
      let hot = hottest c cs in
      trimmed (if le (lit 3 0) (sub hot.noise_dbm (mid_level c cs)) then h ++ (hot.ch ∷ []) else h)

  abbrev pub note_channels : List (ChannelObs F) → List ℕ → List ℕ
  note_channels [] h = h
  note_channels (c ∷ cs) h = note_hot c cs h

  unfoldable pub note_scan : ScanResult F → Scans F → Scans F
  note_scan scan s = record s {
    last_scan = some scan;
    hot_channel_hist = note_channels scan.channels s.hot_channel_hist;
  }

  length-note_hot :
      (c : ChannelObs F) (cs : List (ChannelObs F)) (h : List ℕ)
      → length h ≤ 12
      → length (note_hot c cs h) ≤ 12
  unfolding note_hot
  length-note_hot c cs h p =
      length-trimmed _ (ground (arith, length-append h ((hottest c cs).ch ∷ [])))

  length-note_channels :
      (cs : List (ChannelObs F)) (h : List ℕ) → length h ≤ 12 → length (note_channels cs h) ≤ 12
  length-note_channels [] h p = p
  length-note_channels (c ∷ cs) h p = length-note_hot c cs h p

  -- Noting a scan never lets the memory of hot channels hold more than twelve.
  pub length-note_scan :
      (scan : ScanResult F) (s : Scans F)
      → length s.hot_channel_hist ≤ 12
      → length (note_scan scan s).hot_channel_hist ≤ 12
  unfolding note_scan
  length-note_scan scan s p = length-note_channels scan.channels s.hot_channel_hist p
