-- ===== src/Percept/Features/Histories.antt =====
-- What the windows of the extractor hold: the last samples, in their order.
use mathlib.Core.List.{map-append, append_assoc, append-nil}
use mathlib.Core.Path.{subst}
use tactical_radio_jamming_s.Base.{
  ℕ, sym, Option, List, [], ◌∷◌, ◌++◌, map, Number, lit, sum, arith,
}
use tactical_radio_jamming_s.Percept.Observation.{RawObs}
use tactical_radio_jamming_s.Percept.Ring.{Ring, push}
use tactical_radio_jamming_s.Percept.Ring.Tail.{HasLatest, push-HasLatest, new-HasLatest}
use tactical_radio_jamming_s.Percept.Features.{FeatureMath, FeatureExtractor, GateReason, extractor}
use tactical_radio_jamming_s.Percept.Features.Links.{summary}
use tactical_radio_jamming_s.Percept.Features.Gate.{before_gate}
use tactical_radio_jamming_s.Percept.Features.Advance.{advance, after_gate}
use tactical_radio_jamming_s.Percept.Features.Vector.{update}
use tactical_radio_jamming_s.Percept.Features.Freeze.{updates}
use tactical_radio_jamming_s.Percept.Features.Windows.{marked, open_gate-marked}

module _ {F : Type 0} ⦃num : Number F⦄ (math : FeatureMath F) where
  open num use {sub, mul}

  -- what an observation puts into the windows
  abbrev pub pdr_of : RawObs F → F
  pdr_of o = (summary math o).pdr_mean

  abbrev pub rssi_of : RawObs F → F
  rssi_of o = (summary math o).rssi_mean

  abbrev pub noise_of : RawObs F → F
  noise_of o = o.noise_dbm

  abbrev pub load_of : RawObs F → F
  load_of o = o.offered_load_norm

  abbrev pub loss_of : RawObs F → F
  loss_of o = sub (lit 1 0) (pdr_of o)

  abbrev pub speed_of : RawObs F → F
  speed_of o = let (a, b, c) = o.vel in math.sqrt (sum (mul a a ∷ mul b b ∷ mul c c ∷ []))

  abbrev pub Window : ℕ → (RawObs F → F) → List (RawObs F) → Ring F → Type 0
  Window cap f os r = HasLatest cap (map f os) r

  -- The windows after some observations.
  pub record HasWindows (os : List (RawObs F)) (x : FeatureExtractor F) : Type 0 where
    pub pdr : Window 50 pdr_of os x.pdr_hist
    pub rssi : Window 50 rssi_of os x.rssi_hist
    pub load : Window 50 load_of os x.load_hist
    pub loss : Window 50 loss_of os x.loss_hist
    pub speed : Window 50 speed_of os x.speed_hist
    pub rssi_short : Window 10 rssi_of os x.rssi_fast
    pub noise_short : Window 10 noise_of os x.noise_fast

  pushed :
      {cap : ℕ} (f : RawObs F → F) (os : List (RawObs F)) (o : RawObs F) (r : Ring F)
      → Window cap f os r
      → Window cap f (os ++ (o ∷ [])) (push (f o) r)
  pushed {cap} f os o r h =
      subst (λ xs. HasLatest cap xs (push (f o) r)) (sym (map-append f os (o ∷ [])))
        (push-HasLatest (f o) r h)

  -- what the rest of `update` makes of any marks
  after_gate-HasWindows :
      (os : List (RawObs F)) (o : RawObs F) (x : FeatureExtractor F) (t : Option F)
      (p : Option (F × F × F)) (r : Option GateReason)
      → HasWindows os x
      → HasWindows (os ++ (o ∷ [])) (
          after_gate math o
            (summary math o)
            (marked math t p r (before_gate math o (summary math o) x)))
  after_gate-HasWindows os o x t p r h = record {
    pdr = pushed pdr_of os o x.pdr_hist h.pdr;
    rssi = pushed rssi_of os o x.rssi_hist h.rssi;
    load = pushed load_of os o x.load_hist h.load;
    loss = pushed loss_of os o x.loss_hist h.loss;
    speed = pushed speed_of os o x.speed_hist h.speed;
    rssi_short = pushed rssi_of os o x.rssi_fast h.rssi_short;
    noise_short = pushed noise_of os o x.noise_fast h.noise_short;
  }

  update-HasWindows :
      (os : List (RawObs F)) (o : RawObs F) (x : FeatureExtractor F)
      → HasWindows os x
      → HasWindows (os ++ (o ∷ [])) (update math o x).1
  unfolding update advance
  update-HasWindows os o x h =
      let (t, p, r, e) =
        open_gate-marked math o (summary math o) (before_gate math o (summary math o) x) in
      rw e (after_gate-HasWindows os o x t p r h)

  updates-HasWindows :
      (seen os : List (RawObs F)) (x : FeatureExtractor F)
      → HasWindows seen x
      → HasWindows (seen ++ os) (updates math os x)
  unfolding updates
  updates-HasWindows seen [] x h = subst (λ l. HasWindows l x) (sym (append-nil seen)) h
  updates-HasWindows seen (o ∷ os) x h =
      subst (λ l. HasWindows l (updates math os (update math o x).1))
        (append_assoc seen (o ∷ []) os)
        (updates-HasWindows (seen ++ (o ∷ [])) os _ (update-HasWindows seen o x h))

  extractor-HasWindows : (n_channels : ℕ) (dt : F) → HasWindows [] (extractor n_channels dt)
  unfolding extractor
  extractor-HasWindows n_channels dt = record {
    pdr = new-HasLatest _ 50 (omega arith);
    rssi = new-HasLatest _ 50 (omega arith);
    load = new-HasLatest _ 50 (omega arith);
    loss = new-HasLatest _ 50 (omega arith);
    speed = new-HasLatest _ 50 (omega arith);
    rssi_short = new-HasLatest _ 10 (omega arith);
    noise_short = new-HasLatest _ 10 (omega arith);
  }

  -- After any observations from the start, the histories of the delivery, of the signal, of the load, of
  -- the loss and of the speed hold the samples of the last fifty observations, the oldest first, or all
  -- of them if there were fewer; and the short windows of the signal and of the noise those of the last
  -- ten.
  pub run-HasWindows :
      (n_channels : ℕ) (dt : F) (os : List (RawObs F))
      → HasWindows os (updates math os (extractor n_channels dt))
  run-HasWindows n_channels dt os = updates-HasWindows [] os _ (extractor-HasWindows n_channels dt)
