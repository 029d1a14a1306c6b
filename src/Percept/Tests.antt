-- ===== src/Percept/Tests.antt =====
-- The run-length tracker, the normalisation and the memory of scans at work.
use tactical_radio_jamming_s.Percept.Observation.{ScanResult}
use tactical_radio_jamming_s.Base.{
  none, length, ◌≤◌, arith, [], ◌∷◌, Fixed, fixed_number, lit, Fixed-IsOrdered, refl,
}
use tactical_radio_jamming_s.Base.Int.{negsuc, ◌-ℤ◌}
use tactical_radio_jamming_s.Percept.Norm.{nz, unit, IsWithin, nz-IsWithin}
use tactical_radio_jamming_s.Percept.Scans.{Scans, note_scan, length-note_scan}
use tactical_radio_jamming_s.Percept.Trackers.{RunLength, follow, IsWindow, follow-IsWindow}

-- three ticks below the threshold, and one remembered run
abbrev tracker : RunLength Fixed
tracker = record { thresh = lit 5 1; cur = 3; runs = lit 2 1 ∷ []; most = 1 }

tracker-IsWindow : IsWindow tracker
tracker-IsWindow = record { runs_le = omega arith }

follows_sample : IsWindow (follow (lit 9 1) (lit 1 1) tracker)
follows_sample = follow-IsWindow (lit 9 1) (lit 1 1) tracker tracker-IsWindow

clamps_high :
    IsWithin (negsuc 999_999) (lit 1 0) (nz (lit 95 0) (lit 2 0) (lit 25 0))
    × IsWithin (negsuc 999_999) (lit 1 0) (unit (lit 95 0))
unfolding ◌-ℤ◌
clamps_high = nz-IsWithin Fixed-IsOrdered (lit 95 0) (lit 2 0) (lit 25 0) refl

abbrev scan : ScanResult Fixed
scan = record {
  t = lit 9 0;
  channels =
      record { ch = 1; noise_dbm = lit 9 0; busy_frac = lit 0 0; decodable_fps = lit 0 0 }
      ∷ record { ch = 6; noise_dbm = lit 2 0; busy_frac = lit 0 0; decodable_fps = lit 0 0 }
      ∷ [];
}

abbrev full : Scans Fixed
full = record {
  last_scan = none;
  hot_channel_hist = 1 ∷ 2 ∷ 3 ∷ 4 ∷ 5 ∷ 6 ∷ 7 ∷ 8 ∷ 9 ∷ 10 ∷ 11 ∷ 1 ∷ [];
}

keeps_twelve : length (note_scan scan full).hot_channel_hist ≤ 12
keeps_twelve = length-note_scan scan full (omega arith)
