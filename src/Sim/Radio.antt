-- ===== src/Sim/Radio.antt =====
-- Decibels, path loss and fading of capstone/sim/refsim.py.
use tactical_radio_jamming_s.Base.{
  ℕ, List, [], ◌∷◌, get_elem?, or_else, ◌-◌, Bool, not, ◌&&◌, Number, lit, max_of, leb,
  if◌then◌else◌,
}
use tactical_radio_jamming_s.Scenario.{Point, PathLoss, friis, log_distance}

-- What the simulator takes from `math`, and the power `**`, as total functions: the OverflowError that
-- `exp` and `**` raise on extreme arguments is not modelled.
pub record Maths (F : Type 0) : Type 0 where
  pub pow : F → F → F
  pub log10 : F → F
  pub exp : F → F
  pub sqrt : F → F
  pub pi : F
  pub dist : Point F → Point F → F

-- `random.Random`, with its state passed on
pub record Random (F R : Type 0) : Type 0 where
  pub seeded : ℕ → R
  pub random : R → F × R
  pub gauss : F → F → R → F × R

-- `_Fader`
pub record Fader (F : Type 0) : Type 0 where
  pub m : F
  pub rho : F
  pub i : F
  pub q : F

module _ {F : Type 0} ⦃num : Number F⦄ where
  open num use {neg, add, sub, mul, div, lt, le}

  abbrev pub minus : ℕ → ℕ → F
  minus n k = neg (lit n k)

  -- `ADJ_LEAK_DB`, by the offset
  abbrev adj_leak_db : List F
  adj_leak_db = lit 0 0 ∷ minus 3 0 ∷ minus 8 0 ∷ minus 15 0 ∷ minus 28 0 ∷ minus 40 0 ∷ []

  -- `_leak_db(c - ch)`
  unfoldable pub leak_db : ℕ → ℕ → F
  leak_db c ch = or_else (get_elem? adj_leak_db (if leb ch c then c - ch else ch - c)) (minus 50 0)

  -- `a != b`
  abbrev differ : F → F → Bool
  differ a b = not (le a b && le b a)

  -- the speed of light and the carrier
  abbrev c_light : F
  c_light = lit 300_000_000 0

  abbrev freq_hz : F
  freq_hz = lit 2_437_000_000 0

  -- `SINR_50` and `SINR_SLOPE`
  abbrev sinr_50 : F
  sinr_50 = lit 8 0

  abbrev sinr_slope : F
  sinr_slope = lit 26 1

  module _ (maths : Maths F) where
    open maths use {pow, log10, exp, sqrt, pi}

    abbrev loss_at : F → PathLoss → F → F → F
    loss_at d friis exponent ref_loss =
        mul (lit 20 0) (log10 (div (mul (mul (mul (lit 4 0) pi) d) freq_hz) c_light))
    loss_at d log_distance exponent ref_loss =
        add ref_loss (mul (mul (lit 10 0) exponent) (log10 d))

    -- `_path_loss_db`
    unfoldable pub path_loss_db : F → PathLoss → F → F → F
    path_loss_db d = loss_at (max_of (lit 1 0) d)

    -- `_lin` and `_db`
    unfoldable pub to_lin : F → F
    to_lin dbm = pow (lit 10 0) (div dbm (lit 10 0))

    unfoldable pub to_db : F → F
    to_db lin = mul (lit 10 0) (log10 (max_of lin (lit 1 20)))

    -- the delivery ratio at a ratio of signal to noise
    unfoldable pub delivery : F → F
    delivery sinr = div (lit 1 0) (add (lit 1 0) (exp (div (neg (sub sinr sinr_50)) sinr_slope)))

    module _ {R : Type 0} (rand : Random F R) where
      open rand use {gauss}

      -- `_Fader.__init__`
      unfoldable pub new_fader : F → F → F → R → Fader F × R
      new_fader doppler_hz m dt r =
          let tau_c =
            if lt (lit 0 0) doppler_hz then div (lit 4 1) doppler_hz else lit 1_000_000_000 0 in
          let (i, r1) = gauss (lit 0 0) (lit 1 0) r in
          let (q, r2) = gauss (lit 0 0) (lit 1 0) r1 in
          (
            record {
              m = max_of (lit 2 1) m;
              rho = if lt tau_c (lit 100_000_000 0) then exp (div (neg dt) tau_c) else lit 1 0;
              i = i;
              q = q;
            },
            r2,
          )

      -- `_Fader.sample_db`
      unfoldable pub sample_db : Fader F → R → F × Fader F × R
      sample_db f r =
          let s = sqrt (max_of (lit 0 0) (sub (lit 1 0) (pow f.rho (lit 2 0)))) in
          let (a, r1) = gauss (lit 0 0) (lit 1 0) r in
          let (b, r2) = gauss (lit 0 0) (lit 1 0) r1 in
          let i = add (mul f.rho f.i) (mul s a) in
          let q = add (mul f.rho f.q) (mul s b) in
          let p = div (add (pow i (lit 2 0)) (pow q (lit 2 0))) (lit 2 0) in
          let shaped = if differ f.m (lit 1 0) then pow p (div (lit 1 0) f.m) else p in
          (to_db (max_of shaped (lit 1 6)), record f { i = i; q = q }, r2)
