-- ===== src/Percept/Observation.antt =====
-- The observation types of capstone/percept/features.py.
use tactical_radio_jamming_s.Base.{
  ℕ, String, Bool, Option, List, ◌==◌, not, find, keep, Number, if◌then◌else◌, [], ◌∷◌,
}

pub record LinkObs (F : Type 0) : Type 0 where
  pub pdr : F
  pub rssi_dbm : F
  pub retry_rate : F
  pub frames_rx : ℕ
  pub heartbeat_age_s : F
  pub reachable : Bool
  -- what this peer said about hearing us
  pub rssi_reverse_dbm : Option F
  pub pdr_reverse : Option F
  pub report_age_s : F

-- One channel of a spectrum scan.
pub record ChannelObs (F : Type 0) : Type 0 where
  pub ch : ℕ
  pub noise_dbm : F
  pub busy_frac : F
  pub decodable_fps : F

pub record ScanResult (F : Type 0) : Type 0 where
  pub t : F
  pub channels : List (ChannelObs F)

-- What is spent of the contract's budgets, and their caps.
pub record Budget : Type 0 where
  pub hops_used : ℕ
  pub scans_used : ℕ
  pub actions_used : ℕ
  pub max_channel_hops : ℕ
  pub max_spectrum_scans : ℕ
  pub max_costly_actions : ℕ

-- One sample of everything the radio can tell. No ground truth.
pub record RawObs (F : Type 0) : Type 0 where
  pub t : F
  pub channel : ℕ
  pub links : List (String × LinkObs F)
  pub noise_dbm : F
  pub cca_busy_frac : F
  pub decodable_fps : F
  pub own_tx_active : Bool
  pub own_tx_duty : F
  pub offered_load_norm : F
  pub queue_occupancy : F
  pub consecutive_tx_fail : ℕ
  pub pos : F × F × F
  pub vel : F × F × F
  pub scan : Option (ScanResult F)
  pub budget : Option Budget
  pub tx_attempts : ℕ
  pub tx_acked : ℕ
  pub tx_retry_depth : F
  pub tx_defer_ms : F
  pub shadow_expected : ℕ
  pub shadow_missed : ℕ
  pub silent_expected : ℕ
  pub silent_missed : ℕ

module _ {F : Type 0} ⦃num : Number F⦄ where
  open num use {lt}

  -- `next((c for c in chans if c.ch == channel), None)`
  abbrev pub at_channel : ℕ → List (ChannelObs F) → Option (ChannelObs F)
  at_channel ch = find (λ c. c.ch == ch)

  -- `[c for c in chans if c.ch != channel]`
  abbrev pub off_channel : ℕ → List (ChannelObs F) → List (ChannelObs F)
  off_channel ch = keep (λ c. not (c.ch == ch))

  -- `min(chans, key=lambda c: c.noise_dbm)`: the first channel that no later one undercuts
  unfoldable pub quietest : ChannelObs F → List (ChannelObs F) → ChannelObs F
  quietest best [] = best
  quietest best (c ∷ cs) = quietest (if lt c.noise_dbm best.noise_dbm then c else best) cs
