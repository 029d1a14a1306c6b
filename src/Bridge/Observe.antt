-- ===== src/Bridge/Observe.antt =====
-- `state_to_obs` of capstone/sim/bridge_server.py: a message of ns-3 as an observation.
use tactical_radio_jamming_s.Base.{
  ℕ, ◌+◌, ◌-◌, ◌%◌, ◌==◌, ltb, leb, Bool, ◌&&◌, String, true, Option, none, some, List, [], ◌∷◌,
  length, get_elem?, or_else, if◌then◌else◌, Number, lit, of_ℕ, sum, min_of,
}
use tactical_radio_jamming_s.Percept.Observation.{LinkObs, ChannelObs, ScanResult, RawObs}
use tactical_radio_jamming_s.Bridge.{Message, Setup}

module _ {F : Type 0} ⦃num : Number F⦄ where
  open num use {neg, add, sub, mul, div, lt, le, floor, round_int}

  abbrev minus_one : F
  minus_one = neg (lit 1 0)

  -- `rp if rp >= 0 else None`
  abbrev heard_back : F → Option F
  heard_back rp = if le (lit 0 0) rp then some rp else none

  abbrev link_obs : Message F → ℕ → F → LinkObs F
  link_obs st i p = record {
    pdr = p;
    rssi_dbm = or_else (get_elem? st.rssi i) (neg (lit 120 0));
    retry_rate = or_else st.retry (min_of (lit 1 0) (sub (lit 1 0) p));
    frames_rx = round_int (mul p (lit 10 0));
    heartbeat_age_s = or_else (get_elem? st.hb i) (lit 0 0);
    reachable = lt (lit 1 1) p;
    rssi_reverse_dbm = get_elem? st.rev_rssi i;
    pdr_reverse = heard_back (or_else (get_elem? st.rev_pdr i) minus_one);
    report_age_s = or_else (get_elem? st.rev_age i) (lit 999 0);
  }

  -- the links from the index `i` on, by the name of the peer
  unfoldable pub links_from : (ℕ → String) → Message F → ℕ → List F → List (String × LinkObs F)
  links_from name st i [] = []
  links_from name st i (p ∷ ps) = (name i, link_obs st i p) ∷ links_from name st (i + 1) ps

  abbrev pub channel_of : Message F → ℕ
  channel_of st = or_else st.channel 6

  -- `band[ch - 1] if 0 < ch <= len(band) else -96.0`, and once more if the value is no level
  abbrev level_at : Message F → F
  level_at st =
      let ch = channel_of st in
      if ltb 0 ch && leb ch (length st.band)
      then or_else (get_elem? st.band (ch - 1)) (neg (lit 96 0))
      else neg (lit 96 0)

  abbrev pub floor_of : Message F → F
  floor_of st = if lt (level_at st) (neg (lit 199 0)) then neg (lit 96 0) else level_at st

  abbrev pub decod_of : Message F → F
  decod_of st = div (or_else st.decod_fps (lit 0 0)) (lit 8 0)

  abbrev busy_of : Message F → F
  busy_of st = min_of (lit 1 0) (
      add (add (lit 5 2) (if lt (neg (lit 80 0)) (floor_of st) then lit 9 1 else lit 0 0))
        (mul (lit 3 1) (min_of (lit 1 0) (div (decod_of st) (lit 20 0)))))

  -- the channels from the index `i` on
  unfoldable pub channels_from : ℕ → F → ℕ → List F → List (ChannelObs F)
  channels_from ch decod i [] = []
  channels_from ch decod i (level ∷ band) =
      record {
        ch = i + 1;
        noise_dbm = level;
        busy_frac = if lt (neg (lit 80 0)) level then lit 1 0 else lit 5 2;
        decodable_fps = if i + 1 == ch then decod else lit 0 0;
      }
      ∷ channels_from ch decod (i + 1) band

  abbrev is_due : Option F → F → Bool
  is_due none t = true
  is_due (some prev) t = le (lit 2 0) (sub t prev)

  -- the scan that a message holds: none if it has no band
  unfoldable pub scan_of : Message F → Option F → F → Option (ScanResult F)
  scan_of st prev t =
      if ltb 0 (length st.band) && is_due prev t
      then some (record { t = t; channels = channels_from (channel_of st) (decod_of st) 0 st.band })
      else none

  abbrev mean_or_zero : List F → F
  mean_or_zero xs = if ltb 0 (length xs) then div (sum xs) (of_ℕ (length xs)) else lit 0 0

  unfoldable pub state_to_obs :
      {A X : Type 0} → Setup F A X → Message F → Option F → F → RawObs F × Option (ScanResult F)
  state_to_obs w st prev t =
      let scan = scan_of st prev t in
      (
        record {
          t = t;
          channel = channel_of st;
          links = links_from w.peer_name st 0 st.pdr;
          noise_dbm = floor_of st;
          cca_busy_frac = busy_of st;
          decodable_fps = decod_of st;
          own_tx_active = floor t % 2 == 0;
          own_tx_duty = or_else st.tx_duty (lit 35 2);
          offered_load_norm = or_else st.load (lit 4 1);
          queue_occupancy = min_of (lit 1 0) (sub (lit 1 0) (mean_or_zero st.pdr));
          consecutive_tx_fail = 0;
          pos = (lit 0 0, lit 0 0, lit 30 0);
          vel = (lit 0 0, lit 0 0, lit 0 0);
          scan = scan;
          budget = some (record {
            hops_used = or_else st.hops_used 0;
            scans_used = 0;
            actions_used = 0;
            max_channel_hops = w.contract.max_channel_hops;
            max_spectrum_scans = 4;
            max_costly_actions = 6;
          });
          tx_attempts = or_else st.tx_att 0;
          tx_acked = or_else st.tx_ack 0;
          tx_retry_depth = lit 0 0;
          tx_defer_ms = or_else st.tx_defer_ms (lit 0 0);
          shadow_expected = or_else st.sh_e 0;
          shadow_missed = or_else st.sh_m 0;
          silent_expected = or_else st.si_e 0;
          silent_missed = or_else st.si_m 0;
        },
        scan,
      )
