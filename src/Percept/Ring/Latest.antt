-- ===== src/Percept/Ring/Latest.antt =====
-- How many samples a ring has that was filled sample by sample.
use Prim.Native.Nat.{min}
use tactical_radio_jamming_s.Base.{
  ℕ, zero, suc, ◌+◌, ◌≤◌, ◌<◌, ◌≡◌, refl, List, [], ◌∷◌, length, take, drop, arith, length-append,
}
use tactical_radio_jamming_s.Percept.Ring.{Ring, new, push, values}
use tactical_radio_jamming_s.Percept.Ring.Queue.{IsValid, new-IsValid, push-IsValid}

-- A window of the last `cap` of `n` samples.
pub record IsLatest {A : Type 0} (cap n : ℕ) (r : Ring A) : Type 0 where
  pub valid : IsValid r
  pub cap_eq : r.cap ≡ cap
  pub n_eq : r.n ≡ min n cap

length-take_le : {A : Type 0} (n : ℕ) (xs : List A) → n ≤ length xs → length (take n xs) ≡ n
length-take_le zero xs h = refl
length-take_le (suc n) [] h = omega (arith, h)
length-take_le (suc n) (x ∷ xs) h = omega (arith, length-take_le n xs (omega (arith, h)))

length-rotated :
    {A : Type 0} (n : ℕ) (xs : List A) → length (drop n xs) + length (take n xs) ≡ length xs
length-rotated zero xs = omega arith
length-rotated (suc n) [] = refl
length-rotated (suc n) (x ∷ xs) = omega (arith, length-rotated n xs)

pub length-values : {A : Type 0} (r : Ring A) → IsValid r → length (values r) ≡ r.n
unfolding values
length-values r h = ground (
  arith,
  h.buf_length,
  h.n_le,
  length-take_le r.n r.buf,
  length-rotated r.head r.buf,
  length-append (drop r.head r.buf) (take r.head r.buf),
)

pub push-IsLatest :
    {A : Type 0} {cap n : ℕ} (v : A) (r : Ring A)
    → IsLatest cap n r
    → IsLatest cap (n + 1) (push v r)
unfolding push
push-IsLatest {A} {cap} {n} v r h = record {
  valid = push-IsValid v r h.valid;
  cap_eq = h.cap_eq;
  n_eq = ground (arith, h.cap_eq, h.n_eq);
}

pub new-IsLatest : {A : Type 0} (fill : A) (cap : ℕ) → 0 < cap → IsLatest cap 0 (new fill cap)
unfolding new
new-IsLatest fill cap h = record {
  valid = new-IsValid fill cap h;
  cap_eq = refl;
  n_eq = ground (arith, h);
}
