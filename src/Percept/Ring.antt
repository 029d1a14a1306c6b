-- ===== src/Percept/Ring.antt =====
-- `class Ring` of capstone/percept/ring.py: a circular buffer of fixed capacity. The statistics over
-- its values are functions of floats; `sqrt` is that of Python's `math`.
pub mod Queue
pub mod Latest
pub mod Tail
mod Tests
use Prim.Native.Nat.{min}
use tactical_radio_jamming_s.Base.{
  ℕ, zero, suc, ◌+◌, ◌-◌, ◌%◌, ◌==◌, ltb, leb, Bool, ◌||◌, ◌&&◌, Option, none, some, List, [], ◌∷◌,
  ◌++◌, map, length, take, drop, set, replicate, get_elem?, or_else, if◌then◌else◌, Number, lit,
  of_ℕ, sum, sum_from, max_of, min_of,
}

pub record Ring (A : Type 0) : Type 0 where
  pub buf : List A
  pub cap : ℕ
  pub n : ℕ
  pub head : ℕ

module _ {A : Type 0} where
  -- `Ring(cap)`, with the value that fills it
  unfoldable pub new : A → ℕ → Ring A
  new fill room = record { buf = replicate room fill; cap = room; n = 0; head = 0 }

  unfoldable pub push : A → Ring A → Ring A
  push v r = record r {
    buf = set r.buf r.head v;
    head = (r.head + 1) % r.cap;
    n = if ltb r.n r.cap then r.n + 1 else r.n;
  }

  unfoldable pub values : Ring A → List A
  values r = if ltb r.n r.cap then take r.n r.buf else drop r.head r.buf ++ take r.head r.buf

  -- `buf[(head - 1) % cap]`; Python's `%` is not negative
  unfoldable pub last : A → Ring A → A
  last default r =
      if r.n == 0 then default else or_else (get_elem? r.buf ((r.head + r.cap - 1) % r.cap)) default

module _ {F : Type 0} ⦃num : Number F⦄ where
  open num use {sub, mul, div, lt, le, add}

  unfoldable pub mean : F → Ring F → F
  unfolding values
  mean default r = if r.n == 0 then default else div (sum (values r)) (of_ℕ r.n)

  abbrev pub square : F → F
  square x = mul x x

  unfoldable pub std : (F → F) → F → Ring F → F
  unfolding values
  std sqrt default r =
      if ltb r.n 2
      then default
      else let v = values r in
        let m = div (sum v) (of_ℕ (length v)) in
        sqrt (max_of (of_ℕ 0) (div (sum (map (λ x. square (sub x m)) v)) (of_ℕ (length v - 1))))

  -- `min(xs)` and `max(xs)` of a list that is not empty, by `min_of` or `max_of`
  abbrev pub fold_from : (F → F → F) → F → List F → F
  fold_from f best [] = best
  fold_from f best (y ∷ ys) = fold_from f (f best y) ys

  abbrev pub fold_with : (F → F → F) → F → List F → F
  fold_with f default [] = default
  fold_with f default (x ∷ xs) = fold_from f x xs

  unfoldable pub lowest : F → Ring F → F
  unfolding values
  lowest default r = if r.n == 0 then default else fold_with min_of default (values r)

  unfoldable pub highest : F → Ring F → F
  unfolding values
  highest default r = if r.n == 0 then default else fold_with max_of default (values r)

  -- the sum of `f i v` over the indexed values
  abbrev sum_indexed : (F → F → F) → ℕ → F → List F → F
  sum_indexed f i acc [] = acc
  sum_indexed f i acc (v ∷ vs) = sum_indexed f (i + 1) (add acc (f (of_ℕ i) v)) vs

  -- the least-squares slope, per second
  unfoldable pub slope_per_s : F → Ring F → F
  unfolding values
  slope_per_s dt r =
      let v = values r in
      let k = length v in
      let xm = div (of_ℕ (k - 1)) (of_ℕ 2) in
      let ym = div (sum v) (of_ℕ k) in
      let num = sum_indexed (λ i x. mul (sub i xm) (sub x ym)) 0 (of_ℕ 0) v in
      let den = sum_indexed (λ i x. square (sub i xm)) 0 (of_ℕ 0) v in
      if ltb k 3 || le dt (of_ℕ 0)
      then of_ℕ 0
      else if le den (of_ℕ 0) && le (of_ℕ 0) den
      then of_ℕ 0
      else div (div num den) dt
