-- ===== src/Percept/Trackers.antt =====
-- `Ewma`, `Cusum`, `RunLength` and `pearson` of capstone/percept/ring.py; `exp` and `sqrt` are those
-- of Python's `math`.
use Prim.Native.Nat.{min}
use tactical_radio_jamming_s.Base.{
  ℕ, ◌+◌, ◌-◌, ◌≤◌, ◌≡◌, refl, ltb, ◌==◌, Bool, true, false, List, [], ◌∷◌, ◌++◌, length, drop,
  if◌then◌else◌, Number, lit, of_ℕ, sum, max_of, min_of, arith, ◌||◌, length-append, or_else,
  get_elem?,
}
use tactical_radio_jamming_s.Verifier.Aggregate.{sorted}

pub record Ewma (F : Type 0) : Type 0 where
  pub tau : F
  pub v : F
  pub init : Bool

pub record Cusum (F : Type 0) : Type 0 where
  pub k : F
  pub h : F
  pub s : F
  pub fired : Bool

pub record RunLength (F : Type 0) : Type 0 where
  pub thresh : F
  pub cur : ℕ
  pub runs : List F
  pub most : ℕ

module _ {F : Type 0} ⦃num : Number F⦄ where
  open num use {lt, le, add, sub, mul, div, neg, floor}

  -- `Ewma.update`
  unfoldable pub smooth : (F → F) → F → F → Ewma F → Ewma F
  smooth exp x dt e =
      if e.init
      then (let a =
            if lt (lit 0 0) e.tau then sub (of_ℕ 1) (exp (div (neg dt) e.tau)) else of_ℕ 1 in
          record e { v = add e.v (mul a (sub x e.v)) })
      else record e { v = x; init = true }

  -- `Cusum.update` and `Cusum.reset`
  unfoldable pub accumulate : F → F → Cusum F → Cusum F
  accumulate x baseline c =
      let s' = max_of (lit 0 0) (add c.s (sub (sub baseline x) c.k)) in
      record c { s = s'; fired = lt c.h s' }

  unfoldable pub calm : Cusum F → Cusum F
  calm c = record c { s = lit 0 0; fired = false }

  -- `RunLength.update`: a run below the threshold ends, and the oldest one goes if there are too many
  unfoldable pub end_run : F → RunLength F → RunLength F
  end_run dt r =
      let runs' = r.runs ++ (mul (of_ℕ r.cur) dt ∷ []) in
      record r { runs = if ltb r.most (length runs') then drop 1 runs' else runs'; cur = 0 }

  unfoldable pub follow : F → F → RunLength F → RunLength F
  unfolding end_run
  follow x dt r =
      if lt x r.thresh
      then record r { cur = r.cur + 1 }
      else if ltb 0 r.cur
      then end_run dt r
      else r

  -- `RunLength.mean` and `RunLength.duty`
  unfoldable pub mean_run : RunLength F → F
  mean_run r = if length r.runs == 0 then lit 0 0 else div (sum r.runs) (of_ℕ (length r.runs))

  -- `RunLength.p95`
  unfoldable pub p95_run : RunLength F → F
  p95_run r =
      let k = length r.runs in
      or_else (get_elem? (sorted r.runs) (min (k - 1) (floor (mul (lit 95 2) (of_ℕ k))))) (lit 0 0)

  unfoldable pub duty : ℕ → RunLength F → F
  duty ticks r =
      if ticks == 0
      then lit 0 0
      else min_of (of_ℕ 1) (div (add (mul (sum r.runs) (lit 10 0)) (of_ℕ r.cur)) (of_ℕ ticks))

  -- the sum of the products of the deviations
  abbrev codeviation : F → F → F → List F → List F → F
  codeviation acc mx my (x ∷ xs) (y ∷ ys) =
      codeviation (add acc (mul (sub x mx) (sub y my))) mx my xs ys
  codeviation acc mx my _ _ = acc

  -- the last `k` of a list
  abbrev latest : ℕ → List F → List F
  latest k xs = drop (length xs - k) xs

  unfoldable pub pearson : (F → F) → List F → List F → F
  pearson sqrt xs ys =
      let k = min (length xs) (length ys) in
      let xs' = latest k xs in
      let ys' = latest k ys in
      let mx = div (sum xs') (of_ℕ k) in
      let my = div (sum ys') (of_ℕ k) in
      let sxx = codeviation (lit 0 0) mx mx xs' xs' in
      let syy = codeviation (lit 0 0) my my ys' ys' in
      if ltb k 4 || le sxx (lit 1 12) || le syy (lit 1 12)
      then lit 0 0
      else div (codeviation (lit 0 0) mx my xs' ys') (sqrt (mul sxx syy))

  -- The window of runs never holds more than its capacity.
  pub record IsWindow (r : RunLength F) : Type 0 where
    pub runs_le : length r.runs ≤ r.most

  length-drop_one : (xs : List F) → length (drop 1 xs) ≡ length xs - 1
  length-drop_one [] = refl
  length-drop_one (x ∷ xs) = omega arith

  -- Following one more sample keeps the number of remembered runs within the capacity.
  pub follow-IsWindow : (x dt : F) (r : RunLength F) → IsWindow r → IsWindow (follow x dt r)
  unfolding follow
  follow-IsWindow x dt r w = ground (
    arith,
    length-append r.runs (mul (of_ℕ r.cur) dt ∷ []),
    length-drop_one (r.runs ++ (mul (of_ℕ r.cur) dt ∷ [])),
  )
