-- ===== src/Bridge/Tests.antt =====
-- The bridge on a few messages.
use text.Mathlib.Text.{◌==◌ as str_eq}
use tactical_radio_jamming_s.Base.{
  ℕ, ◌≡◌, refl, true, false, not, ◌||◌, none, some, is_some, inl, List, [], ◌∷◌, lookup, Fixed,
  fixed_number, lit, arith,
}
use tactical_radio_jamming_s.Base.Int.{negsuc}
use tactical_radio_jamming_s.Api.{Call, hop_channel, spectrum_scan, no_op, str, contains, Decision}
use tactical_radio_jamming_s.Controller.State.{World, State, no_use, reset}
use tactical_radio_jamming_s.Controller.Mask.{available}
use tactical_radio_jamming_s.Bridge.Agree.{avail-available}
use tactical_radio_jamming_s.Controller.Toy.{stubborn, eager, caps, ask, world, steady}
use tactical_radio_jamming_s.Bridge.{Message, Line, garbled, state, Bridge, Setup, fresh}
use tactical_radio_jamming_s.Bridge.Mask.{avail}
use tactical_radio_jamming_s.Bridge.Answer.{call_name, screen, reply_of}
use tactical_radio_jamming_s.Bridge.Loop.{turn, session}
use tactical_radio_jamming_s.Bridge.Budget.{screen-contains}
use tactical_radio_jamming_s.Bridge.Session.{
  IsSession, has_band, session-IsSession, turn_returns_iff,
}
use tactical_radio_jamming_s.Bridge.Override.{last_named, reply_of-call}

abbrev message : Fixed → List Fixed → Message Fixed
message t band = record {
  t = some t;
  pdr = lit 9 1 ∷ lit 5 1 ∷ [];
  rssi = negsuc 60_999_999 ∷ [];
  rev_rssi = [];
  rev_pdr = [];
  rev_age = [];
  hb = [];
  band = band;
  retry = none;
  channel = some 2;
  decod_fps = some (lit 8 0);
  tx_duty = none;
  load = none;
  tx_defer_ms = none;
  hops_used = none;
  tx_att = some 1;
  tx_ack = some 1;
  sh_e = none;
  sh_m = none;
  si_e = none;
  si_m = none;
  n_links = some 2;
}

abbrev quiet : List Fixed
quiet = negsuc 95_999_999 ∷ negsuc 94_999_999 ∷ negsuc 95_999_999 ∷ []

abbrev setup : Call → Setup Fixed ℕ ℕ
setup c = record {
  agent = stubborn c;
  extractor = eager;
  contract = caps;
  n_channels = 3;
  lora_available = false;
  peer_name = λ n. "P";
}

abbrev started : Call → Bridge Fixed ℕ ℕ
started c = fresh (setup c) 0 0

abbrev lines : List (Line Fixed)
lines = garbled ∷ state (message (lit 1 0) quiet) ∷ state (message (lit 6 0) quiet) ∷ []

session-IsSession_example :
    IsSession
      (setup spectrum_scan)
      lines
      (session (setup spectrum_scan) lines (started spectrum_scan))
unfolding fresh
session-IsSession_example =
    session-IsSession (setup spectrum_scan) lines (started spectrum_scan) refl (record {
      hops_le = omega arith;
      scans_le = omega arith;
      silent_le = omega arith;
      moves_le = omega arith;
      costly_le = omega arith;
    })

-- a scan was paid for, and the message has no band
abbrev owed : Bridge Fixed ℕ ℕ
owed = record (started no_op) { pending_scan = true }

turn_needs_band :
    is_some (turn (setup no_op) (message (lit 6 0) []) owed)
    ≡ (not owed.pending_scan || has_band (message (lit 6 0) []))
turn_needs_band = turn_returns_iff (setup no_op) (message (lit 6 0) []) owed

screen-contains_example :
    contains
      (screen
        (avail caps (message (lit 6 0) quiet) (lit 6 0) owed)
        (lit 6 0)
        (ask hop_channel)
        []).0.call
      (avail caps (message (lit 6 0) quiet) (lit 6 0) owed)
    ≡ true
screen-contains_example =
    screen-contains caps (message (lit 6 0) quiet) (lit 6 0) owed (ask hop_channel) []

-- a masked hop, in an argument
abbrev sly : Decision Fixed
sly = record (ask no_op) { args = ("call", str "hop_channel") ∷ [] }

hops_anyway : lookup str_eq "call" (reply_of sly) ≡ some (str "hop_channel")
hops_anyway = reply_of-call sly

reply_of-call_example :
    lookup str_eq "call" (reply_of sly)
    ≡ some (last_named "call" (str (call_name sly.call)) sly.args)
reply_of-call_example = reply_of-call sly

-- the controller and the bridge after a scan at the second 3
abbrev one_radio : World Fixed ℕ ℕ ℕ
one_radio = record (world steady no_op) { lora_available = false }

abbrev scanned : State Fixed ℕ ℕ ℕ
scanned = record (reset one_radio 5 0 0) {
  last_scan_t = lit 3 0;
  used = record no_use { scans = 1 };
}

abbrev scanned_too : Bridge Fixed ℕ ℕ
scanned_too = record (started no_op) {
  prev_scan_t = some (lit 3 0);
  used = record no_use { scans = 1 };
}

abbrev nearby : Message Fixed
nearby = record (message (lit 6 0) quiet) { channel = some (one_radio.sim.channel 5) }

avail-available_example :
    avail caps nearby (lit 6 0) scanned_too ≡ available one_radio scanned (lit 6 0)
unfolding reset fresh
avail-available_example =
    avail-available one_radio nearby (lit 6 0) scanned scanned_too
      (record { used_eq = refl; scan_eq = refl; channel_eq = refl; time_eq = inl refl }) refl
