-- ===== src/Sim/Peers.antt =====
-- The neighbours of a scenario with range-based links and one agent are its peers.
use text.Mathlib.Text.{◌==◌ as str_eq}
use text.Mathlib.TextEquality.{eq_iff}
use tactical_radio_jamming_s.Base.{
  ℕ, zero, suc, String, ◌≡◌, refl, ◌∙◌, Bool, true, false, not, ◌&&◌, ◌||◌, some, List, [], ◌∷◌,
  ◌++◌, all, any, keep, find, count, Number, arith, Bool-cases, inl, inr, map, take,
}
use tactical_radio_jamming_s.Scenario.{
  Node, Scenario, is_agent, is_peer, agent_node, peers, auto, adjacency, reached, in_range,
}
use tactical_radio_jamming_s.Scenario.Checks.{among, has_duplicates, ids}
use tactical_radio_jamming_s.Sim.State.{neighbors_of, other_end, ends_at, or_peers}
use tactical_radio_jamming_s.Sim.Radio.{Maths}

pub same_text : (s : String) → str_eq s s ≡ true
same_text s = (eq_iff s s).1 refl

not_same : (x y a : String) → str_eq x a ≡ true → str_eq x y ≡ false → str_eq y a ≡ false
not_same x y a h k = ground (arith, eq_iff x a, eq_iff y a, eq_iff x y)

module _ {F : Type 0} where
  abbrev pub comm : Node F → Bool
  comm n = is_agent n || is_peer n

  -- some node of a list has the id and passes a test
  abbrev pub named : (Node F → Bool) → String → List (Node F) → Bool
  named p s ns = any (λ n. p n && str_eq n.id s) ns

  -- A link between two nodes of `ns` with different ids.
  abbrev is_link : List (Node F) → String × String → Bool
  is_link ns (x, y) = named comm x ns && named comm y ns && not (str_eq x y)

module _ {A : Type 0} where
  all-append : (p : A → Bool) (xs ys : List A) → all p (xs ++ ys) ≡ (all p xs && all p ys)
  all-append p [] ys = refl
  all-append p (x ∷ xs) ys = ground (arith, all-append p xs ys)

  pub all_weaken :
      (p q : A → Bool)
      → ((x : A) → p x ≡ true → q x ≡ true)
      → (xs : List A) → all p xs ≡ true
      → all q xs ≡ true
  all_weaken p q f [] h = refl
  all_weaken p q f (x ∷ xs) h = ground (arith, f x, all_weaken p q f xs)

  pub all-take : (p : A → Bool) (n : ℕ) (xs : List A) → all p xs ≡ true → all p (take n xs) ≡ true
  all-take p zero xs h = refl
  all-take p (suc n) [] h = refl
  all-take p (suc n) (x ∷ xs) h = ground (arith, all-take p n xs)

  pub all-map :
      {B : Type 0} (p : B → Bool) (f : A → B) (xs : List A)
      → all p (map f xs) ≡ all (λ x. p (f x)) xs
  all-map p f [] = refl
  all-map p f (x ∷ xs) = ground (arith, all-map p f xs)

module _ {F : Type 0} where
  pub keep-named :
      (p : Node F → Bool) (ns : List (Node F)) → all (λ b. named p b.id ns) (keep p ns) ≡ true
  keep-named p [] = refl
  keep-named p (n ∷ ns) = ground (
    arith,
    same_text n.id,
    all_weaken (λ b. named p b.id ns) (λ b. named p b.id (n ∷ ns)) (λ b h. ground arith) (keep p ns)
        (keep-named p ns),
  )

  among-keep :
      (s : String) (p : Node F → Bool) (ns : List (Node F))
      → among s (map (λ b. b.id) ns) ≡ false
      → among s (map (λ b. b.id) (keep p ns)) ≡ false
  among-keep s p [] h = refl
  among-keep s p (n ∷ ns) h = ground (arith, among-keep s p ns)

  pub keep_distinct :
      (p : Node F → Bool) (ns : List (Node F))
      → has_duplicates (map (λ b. b.id) ns) ≡ false
      → has_duplicates (map (λ b. b.id) (keep p ns)) ≡ false
  keep_distinct p [] h = refl
  keep_distinct p (n ∷ ns) h = ground (arith, among-keep n.id p ns, keep_distinct p ns)

  -- The other end of a link of `a` is a node of another name.
  abbrev pub is_far : String → List (Node F) → String → Bool
  is_far a ns q = named comm q ns && not (str_eq q a)

  pub ends_far :
      (a : String) (ns : List (Node F)) (links : List (String × String))
      → all (is_link ns) links ≡ true
      → all (is_far a ns) (ends_at a links) ≡ true
  ends_far a ns [] h = refl
  ends_far a ns ((x, y) ∷ links) h = ground (
    arith,
    ends_far a ns links,
    all-append (is_far a ns) (other_end a (x, y)) (ends_at a links),
    not_same x y a,
  )

  pub far_peer :
      (a q : String) (ns : List (Node F))
      → all (λ n. not (is_agent n) || str_eq n.id a) ns ≡ true
      → is_far a ns q ≡ true
      → named is_peer q ns ≡ true
  far_peer a q [] h k = k
  far_peer a q (n ∷ ns) h k =
      ground (arith, far_peer a q ns, eq_iff n.id a, eq_iff n.id q, eq_iff q a)

  -- With one agent, every other node is none.
  none_left :
      (a : String) (ns : List (Node F))
      → count is_agent ns ≡ 0
      → all (λ n. not (is_agent n) || str_eq n.id a) ns ≡ true
  none_left a [] h = refl
  none_left a (n ∷ ns) h = ground (arith, none_left a ns)

  pub one_agent :
      (a : Node F) (ns : List (Node F))
      → find is_agent ns ≡ some a
      → count is_agent ns ≡ 1
      → all (λ n. not (is_agent n) || str_eq n.id a.id) ns ≡ true
  one_agent a [] e h = refl
  one_agent a (n ∷ ns) e h = elim (Bool-cases (is_agent n)) [
    | inl i ↦ ground (arith, none_left a.id ns, first_id i)
    | inr i ↦ ground (arith, one_agent a ns)
  ]
    where
      same_id : (m : Node F) → some m ≡ some a → str_eq m.id a.id ≡ true
      same_id m k = ground (arith, same_text m.id)

      first_id : is_agent n ≡ true → str_eq n.id a.id ≡ true
      first_id i = same_id n (ground arith)

module _ {F : Type 0} ⦃num : Number F⦄ (maths : Maths F) where
  open maths use {dist}

  reached_linked :
      (ns : List (Node F)) (range : F) (a : Node F) (rest : List (Node F))
      → named comm a.id ns ≡ true
      → all (λ b. named comm b.id ns) rest ≡ true
      → among a.id (map (λ b. b.id) rest) ≡ false
      → all (is_link ns) (reached dist range a rest) ≡ true
  reached_linked ns range a [] h k d = refl
  reached_linked ns range a (b ∷ rest) h k d = ground (arith, reached_linked ns range a rest)

  pub in_range_linked :
      (ns : List (Node F)) (range : F) (cs : List (Node F))
      → all (λ b. named comm b.id ns) cs ≡ true
      → has_duplicates (map (λ b. b.id) cs) ≡ false
      → all (is_link ns) (in_range dist range cs) ≡ true
  in_range_linked ns range [] k d = refl
  in_range_linked ns range (a ∷ rest) k d = ground (
    arith,
    all-append (is_link ns) (reached dist range a rest) (in_range dist range rest),
    reached_linked ns range a rest,
    in_range_linked ns range rest,
  )

  -- Every neighbour that a checked scenario gives the agent is one of its peers.
  pub neighbors_of_peers :
      (sc : Scenario F) (a : Node F)
      → sc.links ≡ auto
      → has_duplicates (ids sc) ≡ false
      → agent_node sc ≡ some a
      → count is_agent sc.nodes ≡ 1
      → all (λ q. named is_peer q sc.nodes) (neighbors_of maths sc a) ≡ true
  unfolding neighbors_of adjacency
  neighbors_of_peers sc a auto_links distinct e one =
      let links = in_range maths.dist sc.comm_range_m (keep comm sc.nodes) in
      let linked : all (is_link sc.nodes) links ≡ true =
        in_range_linked sc.nodes sc.comm_range_m (keep comm sc.nodes) (keep-named comm sc.nodes)
          (keep_distinct comm sc.nodes distinct) in
      let far = ends_far a.id sc.nodes links linked in
      let near =
        all_weaken (is_far a.id sc.nodes) (λ q. named is_peer q sc.nodes)
          (λ q. far_peer a.id q sc.nodes (one_agent a sc.nodes e one)) (ends_at a.id links) far in
      rw auto_links (or_peers_named (ends_at a.id links) near)
    where
      or_peers_named :
          (ps : List String)
          → all (λ q. named is_peer q sc.nodes) ps ≡ true
          → all (λ q. named is_peer q sc.nodes) (or_peers sc ps) ≡ true
      or_peers_named (p ∷ ps) h = h
      or_peers_named [] h =
          all-map (λ q. named is_peer q sc.nodes) (λ p. p.id) (take 2 (peers sc))
          ∙ all-take (λ b. named is_peer b.id sc.nodes) 2 (peers sc) (keep-named is_peer sc.nodes)
