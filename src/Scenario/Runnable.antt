-- ===== src/Scenario/Runnable.antt =====
-- A scenario in which no problem is found is one that the engine can run, and conversely.
use tactical_radio_jamming_s.Base.{
  String, ◌≡◌, refl, ap, Bool, true, false, not, ◌&&◌, ◌↔◌, none, some, List, [], ◌∷◌, ◌++◌, map,
  any, all, All, any-append, Number, arith, Option-cases, inl, inr,
}
use tactical_radio_jamming_s.Scenario.{Point, Node, Scenario, agent_node, adjacency}
use tactical_radio_jamming_s.Scenario.Checks.{
  Problem, among, has_duplicates, is_channel, refused, collect, joined, unless, touches, ids,
  is_known, has_agent, is_missing, problems, validate,
}

append-nil : {P : Type 0} (xs ys : List P) → (xs ++ ys ≡ []) ↔ ((xs ≡ []) × (ys ≡ []))
append-nil [] ys = (λ h. (refl, h), λ h. h.1)
append-nil (x ∷ xs) ys = (λ h. absurd (ground arith), λ h. absurd (ground arith))

joined-nil : {P : Type 0} (xss : List (List P)) → (joined xss ≡ []) ↔ All (λ xs. xs ≡ []) xss
joined-nil [] = (λ h. tt, λ h. refl)
joined-nil (xs ∷ xss) = (
  λ h. let (p, q) = (append-nil xs (joined xss)).0 h in (p, (joined-nil xss).0 q),
  λ h. (append-nil xs (joined xss)).1 (h.0, (joined-nil xss).1 h.1),
)

module _ {ℓ} {A : Type ℓ} where
  refused-nil :
      {P : Type 0} (ok : A → Bool) (p : A → P) (xs : List A)
      → (refused ok p xs ≡ []) ↔ (all ok xs ≡ true)
  refused-nil ok p [] = (λ h. refl, λ h. refl)
  refused-nil ok p (x ∷ xs) =
      (λ h. ground (arith, refused-nil ok p xs), λ h. ground (arith, refused-nil ok p xs))

  collect-nil :
      {P : Type 0} (f : A → List P) (ok : A → Bool)
      → ((x : A) → (f x ≡ []) ↔ (ok x ≡ true))
      → (xs : List A) → (collect f xs ≡ []) ↔ (all ok xs ≡ true)
  collect-nil f ok each [] = (λ h. refl, λ h. refl)
  collect-nil f ok each (x ∷ xs) = (
    λ h. ground (arith, each x, append-nil (f x) (collect f xs), collect-nil f ok each xs),
    λ h. ground (arith, each x, append-nil (f x) (collect f xs), collect-nil f ok each xs),
  )

unless-nil : {P : Type 0} (ok : Bool) (p : P) → (unless ok p ≡ []) ↔ (ok ≡ true)
unless-nil true p = (λ h. refl, λ h. refl)
unless-nil false p = (λ h. absurd (ground arith), λ h. absurd (ground arith))

missing_found :
    {F : Type 0} (xs ys : List (Problem F)) (b : Bool)
    → b ≡ false
    → any is_missing (xs ++ (unless b Problem.no_agent ++ ys)) ≡ true
missing_found xs ys b h = ground (arith, any-append is_missing xs (unless b Problem.no_agent ++ ys))

not-true : (b : Bool) → not b ≡ true → b ≡ false
not-true b h = ground arith

-- What the engine needs of a scenario.
module _ {F : Type 0} ⦃num : Number F⦄ (dist : Point F → Point F → F) (sc : Scenario F) where
  abbrev names : List String
  names = ids sc ++ map (λ j. j.id) sc.jammers

  pub record IsRunnable : Type 0 where
    pub ids_differ : has_duplicates (ids sc) ≡ false
    pub channel_exists : is_channel sc.n_channels sc.channel ≡ true
    pub jammed_exist : all (λ j. all (is_channel sc.n_channels) j.channels) sc.jammers ≡ true
    pub flows_known : all (λ f. among f.src (ids sc) && among f.dst (ids sc)) sc.traffic ≡ true
    pub movers_known : all (λ m. among m.node (ids sc)) sc.mobility ≡ true
    pub targets_known : all (is_known names) sc.events ≡ true
    pub onset_inside : num.le sc.duration_s sc.truth.onset_t ≡ false
    pub agent_linked :
        (a : Node F) × (agent_node sc ≡ some a) × (any (touches a.id) (adjacency dist sc) ≡ true)

  jammers-nil :
      (collect
          (λ j.
            refused {P = Problem F}
              (is_channel sc.n_channels)
              (Problem.jammer_channel j.id)
              j.channels)
          sc.jammers
        ≡ [])
      ↔ (all (λ j. all (is_channel sc.n_channels) j.channels) sc.jammers ≡ true)
  jammers-nil = collect-nil _ _ (λ j. refused-nil _ _ j.channels) sc.jammers

  flows-nil :
      (collect
          (λ f.
            refused {P = Problem F} (λ s. among s (ids sc)) Problem.flow_node (f.src ∷ f.dst ∷ []))
          sc.traffic
        ≡ [])
      ↔ (all (λ f. among f.src (ids sc) && among f.dst (ids sc)) sc.traffic ≡ true)
  flows-nil = collect-nil _ _ (λ f. (λ h. ground arith, λ h. ground arith)) sc.traffic

  -- No problem is found exactly in the scenarios that have an agent with a link, different ids, channels
  -- in the band, known nodes and targets, and an onset before the end.
  pub validate-IsRunnable : (validate dist sc ≡ some []) ↔ IsRunnable
  unfolding validate problems
  validate-IsRunnable = (sound, complete)
    where
      sound : validate dist sc ≡ some [] → IsRunnable
      sound h = elim (Option-cases (agent_node sc)) [
        | inl e ↦ absurd (ground arith)
        | inr (a, e) ↦
            let (found, at_end) =
              (append-nil (joined (problems dist sc))
                  (unless (any (touches a.id) (adjacency dist sc)) (Problem.no_links a.id))).0
                (ground arith) in
            let (p1, (p2, (p3, (p4, (p5, (p6, (p7, (p8, end)))))))) =
              (joined-nil (problems dist sc)).0 found in
            record {
              ids_differ = not-true _ ((unless-nil _ _).0 p1);
              channel_exists = (unless-nil _ _).0 p3;
              jammed_exist = jammers-nil.0 p4;
              flows_known = flows-nil.0 p5;
              movers_known = (refused-nil _ _ sc.mobility).0 p6;
              targets_known = (refused-nil _ _ sc.events).0 p7;
              onset_inside = not-true _ ((unless-nil _ _).0 p8);
              agent_linked = (a, e, (unless-nil _ _).0 at_end);
            }
      ]

      complete : IsRunnable → validate dist sc ≡ some []
      complete r =
          let (a, e, l) = r.agent_linked in
          let none_found : joined (problems dist sc) ≡ [] = (joined-nil (problems dist sc)).1 (
            (unless-nil _ _).1 (ground arith),
            (
              (unless-nil (has_agent sc) Problem.no_agent).1 (ground arith),
              (
                (unless-nil _ _).1 r.channel_exists,
                (
                  jammers-nil.1 r.jammed_exist,
                  (
                    flows-nil.1 r.flows_known,
                    (
                      (refused-nil _ _ sc.mobility).1 r.movers_known,
                      (
                        (refused-nil _ _ sc.events).1 r.targets_known,
                        ((unless-nil _ _).1 (ground arith), tt),
                      ),
                    ),
                  ),
                ),
              ),
            ),
          ) in
          rw e (
            ap some
              ((append-nil (joined (problems dist sc)) _).1 (none_found, (unless-nil _ _).1 l)))

  pub validate_raises :
      ((validate dist sc ≡ none) ↔ (agent_node sc ≡ none))
      × (agent_node sc ≡ none → any is_missing (joined (problems dist sc)) ≡ true)
  unfolding validate problems
  validate_raises = (
    (λ h. ground arith, λ h. rw h refl),
    λ h.
        missing_found (unless (not (has_duplicates (ids sc))) Problem.duplicate_ids) _
          (has_agent sc) (ground arith),
  )
