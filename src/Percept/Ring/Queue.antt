-- ===== src/Percept/Ring/Queue.antt =====
-- The ring refines a bounded queue: its values are the last ones pushed, the oldest first.
use mathlib.Core.List.{append-nil, append_assoc}
use native.Mathlib.Numerals.{add-one}
use native.Mathlib.Nat.{mod-lt, mod-eq_of_lt, mod_self}
use tactical_radio_jamming_s.Base.{
  ℕ, zero, suc, ◌+◌, ◌%◌, ◌≤◌, ◌<◌, ◌≡◌, refl, ltb, List, [], ◌∷◌, ◌++◌, length, take, drop, set,
  arith, take-set, drop-set, drop-one, take-all, drop-all, length-set, length-replicate,
  length-append, if◌then◌else◌, ◌∙◌, sym, ap, ◌⊎◌, inl, inr, Bool-cases,
}
use tactical_radio_jamming_s.Percept.Ring.{Ring, new, push, values}

pub Nat-cases : (a b : ℕ) → a ≤ b → (a < b) ⊎ (a ≡ b)
Nat-cases a b h = grind arith

next_place : (h n room : ℕ) → h < room → (n < room → h ≡ n) → n + 1 < room → (h + 1) % room ≡ n + 1
next_place h n room p e q = mod-eq_of_lt (grind arith) ∙ ap (◌+ 1) (e (omega arith))

module _ {A : Type 0} where
  pub record IsValid (r : Ring A) : Type 0 where
    pub has_room : 0 < r.cap
    pub buf_length : length r.buf ≡ r.cap
    pub head_lt : r.head < r.cap
    pub n_le : r.n ≤ r.cap
    -- until the buffer is full the head is the next free place
    pub head_at_n : (r.n < r.cap) → r.head ≡ r.n

  -- A bounded queue: the new value goes behind, and the oldest one drops out of a full one.
  pub enqueue : ℕ → A → List A → List A
  enqueue cap v q = if ltb (length q) cap then q ++ (v ∷ []) else drop 1 q ++ (v ∷ [])

  pub new-IsValid : (fill : A) (room : ℕ) → 0 < room → IsValid (new fill room)
  unfolding new
  new-IsValid fill room h = ground (arith, length-replicate room fill)

  pub push-IsValid : (v : A) (r : Ring A) → IsValid r → IsValid (push v r)
  unfolding push
  push-IsValid v r h = record {
    has_room = h.has_room;
    buf_length = length-set r.buf r.head v ∙ h.buf_length;
    head_lt = mod-lt (r.head + 1) h.has_room;
    n_le = elim (Bool-cases (ltb r.n r.cap)) [
      | inl more ↦ ground (arith, h.n_le)
      | inr full ↦ ground (arith, h.n_le)
    ];
    head_at_n = elim (Bool-cases (ltb r.n r.cap)) [
      | inl more ↦ rw more (next_place r.head r.n r.cap h.head_lt h.head_at_n)
      | inr full ↦ rw full (λ p. absurd (ground arith))
    ];
  }

  -- the buffer read from a place on, and round
  abbrev rotate : ℕ → List A → List A
  rotate h xs = drop h xs ++ take h xs

  rotate-wrap : (xs : List A) (n : ℕ) → length xs ≡ n → rotate n xs ≡ rotate 0 xs
  rotate-wrap xs n e =
      rw (drop-all xs n (omega arith), take-all xs n (omega arith)) (sym (append-nil _))

  rotate-set :
      (xs : List A) (h : ℕ) (v : A)
      → h < length xs
      → rotate (h + 1) (set xs h v) ≡ drop 1 (rotate h xs) ++ (v ∷ [])
  rotate-set xs h v p =
      rw (add-one h, drop-set, take-set xs h v p, drop-one xs (take h xs) h p)
        (sym (append_assoc (drop (suc h) xs) (take h xs) (v ∷ [])))

  length-split : (xs : List A) (h : ℕ) → length (drop h xs) + length (take h xs) ≡ length xs
  length-split [] zero = refl
  length-split [] (suc h) = refl
  length-split (x ∷ xs) zero = omega arith
  length-split (x ∷ xs) (suc h) = omega (arith, length-split xs h)

  length-rotate : (xs : List A) (h : ℕ) → length (rotate h xs) ≡ length xs
  length-rotate xs h = length-append (drop h xs) (take h xs) ∙ length-split xs h

  length-take_part : (xs : List A) (n : ℕ) → n ≤ length xs → length (take n xs) ≡ n
  length-take_part [] zero h = refl
  length-take_part [] (suc n) h = absurd (omega arith)
  length-take_part (x ∷ xs) zero h = refl
  length-take_part (x ∷ xs) (suc n) h = omega (arith, length-take_part xs n (omega arith))

  rotate-next :
      (xs : List A) (h n : ℕ) → length xs ≡ n → h < n → rotate ((h + 1) % n) xs ≡ rotate (h + 1) xs
  rotate-next xs h n e p = elim (Nat-cases (h + 1) n (omega arith)) [
    | inl more ↦ ap (λ i. rotate i xs) (mod-eq_of_lt more)
    | inr last ↦ rw last (ap (λ i. rotate i xs) (mod_self n) ∙ sym (rotate-wrap xs n e))
  ]

  -- the values of a ring with `n` values in a buffer of `room` places
  abbrev seen : (n room h : ℕ) → List A → List A
  seen n room h xs = if ltb n room then take n xs else rotate h xs

  seen_part : (n room h : ℕ) (xs : List A) → n < room → seen n room h xs ≡ take n xs
  seen_part n room h xs p = ground arith

  seen_full : (n room h : ℕ) (xs : List A) → room ≤ n → seen n room h xs ≡ rotate h xs
  seen_full n room h xs p = ground arith

  pub enqueue_more :
      (room : ℕ) (v : A) (q : List A) → length q < room → enqueue room v q ≡ q ++ (v ∷ [])
  unfolding enqueue
  enqueue_more room v q p = ground arith

  pub enqueue_full :
      (room : ℕ) (v : A) (q : List A) → room ≤ length q → enqueue room v q ≡ drop 1 q ++ (v ∷ [])
  unfolding enqueue
  enqueue_full room v q p = ground arith

  -- a ring that is not full yet: the new value is in the place behind the others
  part-push :
      (v : A) (xs : List A) (n room : ℕ)
      → length xs ≡ room
      → n < room
      → seen (n + 1) room ((n + 1) % room) (set xs n v) ≡ take n xs ++ (v ∷ [])
  part-push v xs n room e p = elim (Nat-cases (n + 1) room (omega arith)) [
    | inl more ↦
        seen_part (n + 1) room _ (set xs n v) more
        ∙ ap (λ i. take i (set xs n v)) (add-one n)
        ∙ take-set xs n v (omega arith)
    | inr last ↦
        seen_full (n + 1) room _ (set xs n v) (omega arith)
        ∙ ap (λ i. rotate i (set xs n v)) (ap (◌% room) last ∙ mod_self room)
        ∙ append-nil (set xs n v)
        ∙ sym (take-all (set xs n v) (suc n) (omega (arith, length-set xs n v)))
        ∙ take-set xs n v (omega arith)
  ]

  full-push :
      (v : A) (xs : List A) (h room : ℕ)
      → length xs ≡ room
      → h < room
      → rotate ((h + 1) % room) (set xs h v) ≡ drop 1 (rotate h xs) ++ (v ∷ [])
  full-push v xs h room e p =
      rotate-next (set xs h v) h room (length-set xs h v ∙ e) p ∙ rotate-set xs h v (omega arith)

  -- Pushing on a valid ring is pushing on the queue of its values: the new value comes last, and a
  -- full ring loses its oldest value.
  pub values-push :
      (v : A) (r : Ring A) → IsValid r → values (push v r) ≡ enqueue r.cap v (values r)
  unfolding push values
  values-push v r h = elim (Bool-cases (ltb r.n r.cap)) [
    | inl more ↦
        let p : r.n < r.cap = ground arith in
        rw (more, h.head_at_n p)
          (part-push v r.buf r.n r.cap h.buf_length p
            ∙ sym (
                enqueue_more r.cap v (take r.n r.buf) (
                  omega (arith, length-take_part r.buf r.n (omega (arith, h.n_le, h.buf_length))))))
    | inr full ↦ rw full (
        seen_full r.n r.cap _ (set r.buf r.head v) (ground arith)
        ∙ full-push v r.buf r.head r.cap h.buf_length h.head_lt
        ∙ sym (
            enqueue_full r.cap v (rotate r.head r.buf)
              (omega (arith, length-rotate r.buf r.head, h.buf_length))))
  ]
