-- ===== src/Sim/Ready.antt =====
-- The simulator starts in a sound state: every neighbour of a scenario that was checked is one of its
-- peers, with a heartbeat and a fader.
use text.Mathlib.Text.{◌==◌ as str_eq}
use text.Mathlib.TextEquality.{eq_iff}
use tactical_radio_jamming_s.Base.{
  String, ◌≡◌, refl, ◌∙◌, Bool, true, ◌&&◌, some, List, [], ◌∷◌, all, any, find, count, is_some,
  store, has_key, has_key-store, Number, arith, Bool-cases, inl, inr, any-keep, lit,
}
use tactical_radio_jamming_s.Scenario.{
  Node, Scenario, is_agent, is_peer, peers, auto, Fading, unfaded, nakagami, rayleigh,
}
use tactical_radio_jamming_s.Scenario.Runnable.{IsRunnable}
use tactical_radio_jamming_s.Sim.Total.{has_fader}
use tactical_radio_jamming_s.Sim.Safe.{IsSound}
use tactical_radio_jamming_s.Sim.Peers.{same_text, named, all_weaken, neighbors_of_peers}
use tactical_radio_jamming_s.Sim.State.{
  filled, new_faders, Setup, State, start, setup_of, initial, neighbors_of,
}
use tactical_radio_jamming_s.Sim.Radio.{Maths, Random, Fader}

and_parts : {a b : Bool} → (a && b) ≡ true → (a ≡ true) × (b ≡ true)
and_parts {a} {b} h = (ground arith, ground arith)

and_three : {a b c : Bool} → a ≡ true → b ≡ true → c ≡ true → (a && b && c) ≡ true
and_three h k l = ground arith

all_and :
    {A : Type 0} (p q : A → Bool) (xs : List A)
    → all p xs ≡ true
    → all q xs ≡ true
    → all (λ x. p x && q x) xs ≡ true
all_and p q [] h k = refl
all_and p q (x ∷ xs) h k = ground (arith, all_and p q xs)

has_key_stored :
    {V : Type 0} (k : String) (a : V) (d : List (String × V))
    → has_key str_eq k (store str_eq k a d) ≡ true
has_key_stored k a [] = ground (arith, same_text k)
has_key_stored k a ((j, b) ∷ d) = ground (arith, has_key_stored k a d)

stored_as :
    {V : Type 0} (j k : String) (a : V) (d : List (String × V))
    → str_eq j k ≡ true
    → has_key str_eq k (store str_eq j a d) ≡ true
stored_as j k a d h = ground (arith, has_key_stored k a d, eq_iff j k)

filled_keeps :
    {V : Type 0} (v : String → V) (k : String) (ps : List String) (d : List (String × V))
    → has_key str_eq k d ≡ true
    → has_key str_eq k (filled str_eq (λ p. p) v ps d) ≡ true
filled_keeps v k [] d h = h
filled_keeps v k (p ∷ ps) d h =
    filled_keeps v k ps (store str_eq p (v p) d) (has_key-store str_eq k p (v p) d h)

filled-all :
    {V : Type 0} (v : String → V) (ps : List String) (d : List (String × V))
    → all (λ p. has_key str_eq p (filled str_eq (λ p. p) v ps d)) ps ≡ true
filled-all v [] d = refl
filled-all v (p ∷ ps) d = ground (
  arith,
  filled_keeps v p ps (store str_eq p (v p) d) (has_key_stored p (v p) d),
  filled-all v ps (store str_eq p (v p) d),
)

module _ {F R : Type 0} ⦃num : Number F⦄ (maths : Maths F) (rand : Random F R) where
  faders_keep :
      (sc : Scenario F) (dt : F) (q : String) (ps : List (Node F)) (fs : List (String × Fader F))
      (r : R)
      → has_key str_eq q fs ≡ true
      → has_key str_eq q (new_faders maths rand sc dt ps fs r).0 ≡ true
  unfolding new_faders
  faders_keep sc dt q [] fs r h = h
  faders_keep sc dt q (p ∷ ps) fs r h =
      faders_keep sc dt q ps _ _ (has_key-store str_eq q p.id _ fs h)

  faders_of :
      (sc : Scenario F) (dt : F) (q : String) (ps : List (Node F)) (fs : List (String × Fader F))
      (r : R)
      → any (λ n. str_eq n.id q) ps ≡ true
      → has_key str_eq q (new_faders maths rand sc dt ps fs r).0 ≡ true
  unfolding new_faders
  faders_of sc dt q [] fs r h = absurd (ground arith)
  faders_of sc dt q (p ∷ ps) fs r h = elim (Bool-cases (str_eq p.id q)) [
    | inl e ↦ faders_keep sc dt q ps _ _ (stored_as p.id q _ fs e)
    | inr e ↦ faders_of sc dt q ps _ _ (ground arith)
  ]

  known :
      (q : String) (ns : List (Node F))
      → named is_peer q ns ≡ true
      → is_some (find (λ n. str_eq n.id q) ns) ≡ true
  known q [] h = absurd (ground arith)
  known q (n ∷ ns) h = ground (arith, known q ns)

  faders_ready :
      (k : Fading) (sc : Scenario F) (dt : F) (q : String) (r : R)
      → named is_peer q sc.nodes ≡ true
      → has_fader k q (new_faders maths rand sc dt (peers sc) [] r).0 ≡ true
  faders_ready unfaded sc dt q r h = refl
  faders_ready nakagami sc dt q r h =
      faders_of sc dt q (peers sc) [] r (any-keep (λ n. str_eq n.id q) is_peer sc.nodes ∙ h)
  faders_ready rayleigh sc dt q r h =
      faders_of sc dt q (peers sc) [] r (any-keep (λ n. str_eq n.id q) is_peer sc.nodes ∙ h)

  -- The simulator of a scenario that was checked, with range-based links and one agent, starts in a
  -- sound state.
  pub start-IsSound :
      (sc : Scenario F) (dt : F)
      → IsRunnable maths.dist sc
      → sc.links ≡ auto
      → count is_agent sc.nodes ≡ 1
      → (setup : Setup F) × (s : State F R) × (start maths rand sc dt ≡ some (setup, s))
        × IsSound maths rand setup s
  unfolding start
  start-IsSound sc dt ok auto_links one =
      let (a, e, l) = ok.agent_linked in
      (
        setup_of maths rand sc dt a,
        initial maths rand sc a (new_faders maths rand sc dt (peers sc) [] (rand.seeded sc.seed)),
        rw e refl,
        record {
          tuned = ok.channel_exists;
          slotted = omega arith;
          ready =
              all_weaken
                (λ q.
                  named is_peer q sc.nodes
                  && has_key str_eq q
                      (filled {V = F} str_eq (λ p. p) (λ p. lit 0 0) (neighbors_of maths sc a) []))
                _
                (λ q h.
                  let parts = and_parts {a = named is_peer q sc.nodes} h in
                  and_three (known q sc.nodes parts.0) parts.1
                    (faders_ready sc.channel_model.fading sc dt q (rand.seeded sc.seed) parts.0))
                (neighbors_of maths sc a)
                (all_and _ _ (neighbors_of maths sc a)
                  (neighbors_of_peers maths sc a auto_links ok.ids_differ e one)
                  (filled-all {V = F} (λ p. lit 0 0) (neighbors_of maths sc a) []));
        },
      )
