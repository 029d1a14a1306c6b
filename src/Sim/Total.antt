-- ===== src/Sim/Total.antt =====
-- The observation of a neighbour raises nothing, if the scenario knows the neighbour, its heartbeat is
-- kept, and it has a fader wherever the channel fades.
use mathlib.Core.Option.{map as map_option}
use text.Mathlib.Text.{◌==◌ as str_eq}
use tactical_radio_jamming_s.Base.{
  String, ◌≡◌, refl, Bool, true, false, ◌&&◌, Option, some, List, lookup, has_key, has_key-store,
  lookup-has_key, is_some, ltb, Number, arith, Bool-cases, Option-cases, inl, inr, lit, ℕ,
}
use tactical_radio_jamming_s.Scenario.{Fading, unfaded, nakagami, rayleigh, Node, node}
use tactical_radio_jamming_s.Sim.Radio.{Maths, Random, Fader}
use tactical_radio_jamming_s.Sim.State.{Setup, State}
use tactical_radio_jamming_s.Sim.Link.{
  is_alive, older, fade_of, shadow, received, beat, seen_rssi, live_link, seen, link_state,
}
use tactical_radio_jamming_s.Sim.Frame.{Keeps, Keeps-refl, Keeps-trans, stored}

module _ {F R : Type 0} where
  -- A result with a state that keeps what `s` has.
  abbrev pub Gives : {B : Type 0} → State F R → Option (B × State F R) → Type 0
  Gives {B} s o = (r : B × State F R) × (o ≡ some r) × Keeps s r.1

  pub Gives-map_option :
      {B C : Type 0} (f : B × State F R → C × State F R)
      → ((r : B × State F R) → Keeps r.1 (f r).1)
      → (s : State F R) (o : Option (B × State F R)) → Gives s o
      → Gives s (map_option f o)
  Gives-map_option f keep s o (r, e, k) = (f r, rw e refl, Keeps-trans k (keep r))

  pub Gives-after :
      {B : Type 0} {s t : State F R} (o : Option (B × State F R))
      → Keeps s t
      → Gives t o
      → Gives s o
  Gives-after o k (r, e, k') = (r, e, Keeps-trans k k')

module _ {F : Type 0} where
  -- a fader, where the channel needs one
  abbrev pub has_fader : Fading → String → List (String × Fader F) → Bool
  has_fader unfaded p faders = true
  has_fader _ p faders = has_key str_eq p faders

module _ {F R : Type 0} ⦃num : Number F⦄ (maths : Maths F) (rand : Random F R)
    (setup : Setup F) where
  -- what the observation of a neighbour looks up
  abbrev pub is_ready : String → State F R → Bool
  is_ready p s =
      is_some (node p setup.scenario)
      && has_key str_eq p s.heartbeat_age
      && has_fader setup.scenario.channel_model.fading p s.faders

  older_total :
      (p : String) (s : State F R)
      → has_key str_eq p s.heartbeat_age ≡ true
      → Gives s (older maths rand setup p (lookup str_eq p s.heartbeat_age) s)
  older_total p s h =
      let (age, e) = lookup-has_key str_eq p s.heartbeat_age h in
      rw e (
        _,
        refl,
        stored refl refl refl refl refl (λ q k. has_key-store str_eq q p _ s.heartbeat_age k)
            (λ q k. k),
      )

  beat_total :
      (p : String) (got : Bool) (s : State F R)
      → has_key str_eq p s.heartbeat_age ≡ true
      → Gives s (beat maths rand setup p (got, s))
  beat_total p true s h = (
    _,
    refl,
    stored refl refl refl refl refl (λ q k. has_key-store str_eq q p _ s.heartbeat_age k)
        (λ q k. k),
  )
  beat_total p false s h = older_total p s h

  fade_of_total :
      (k : Fading) (p : String) (s : State F R)
      → has_fader k p s.faders ≡ true
      → Gives s (fade_of maths rand setup k p s)
  fade_of_total unfaded p s h = (_, refl, Keeps-refl s)
  fade_of_total nakagami p s h =
      let (f, e) = lookup-has_key str_eq p s.faders h in
      rw e (
        _,
        refl,
        stored refl refl refl refl refl (λ q k. k) (λ q k. has_key-store str_eq q p _ s.faders k),
      )
  fade_of_total rayleigh p s h =
      let (f, e) = lookup-has_key str_eq p s.faders h in
      rw e (
        _,
        refl,
        stored refl refl refl refl refl (λ q k. k) (λ q k. has_key-store str_eq q p _ s.faders k),
      )

  shadow-Keeps : (s : State F R) → Keeps s (shadow maths rand setup s).1
  shadow-Keeps s = elim (Bool-cases (num.lt (lit 0 0) setup.scenario.channel_model.shadowing_db)) [
    | inl e ↦ rw e (stored refl refl refl refl refl (λ q k. k) (λ q k. k))
    | inr e ↦ rw e (Keeps-refl s)
  ]

  received-Keeps : (pdr : F) (s : State F R) → Keeps s (received maths rand setup pdr s).1
  received-Keeps pdr s = elim (Bool-cases (num.lt (lit 5 2) pdr)) [
    | inl e ↦ rw e (stored refl refl refl refl refl (λ q k. k) (λ q k. k))
    | inr e ↦ rw e (Keeps-refl s)
  ]

  seen_rssi-Keeps :
      (n : ℕ) (fade rssi : F) (p : String) (s : State F R)
      → Keeps s (seen_rssi maths rand setup n fade rssi p s).1
  seen_rssi-Keeps n fade rssi p s = elim (Bool-cases (ltb 0 n)) [
    | inl e ↦ rw e (stored refl refl refl refl refl (λ q k. k) (λ q k. k))
    | inr e ↦ rw e (Keeps-refl s)
  ]

  live_link_total :
      (p : String) (peer : Node F) (fade : F) (s : State F R)
      → has_key str_eq p s.heartbeat_age ≡ true
      → Gives s (live_link maths rand setup p peer (fade, s))
  live_link_total p peer fade s h =
      let s1 = (shadow maths rand setup s).1 in
      Gives-map_option _ (λ r. seen_rssi-Keeps _ _ _ p r.1) s _
        (Gives-after _ (Keeps-trans (shadow-Keeps s) (received-Keeps _ s1)) (
          beat_total p _ _
            ((received-Keeps _ s1).holds.beats p ((shadow-Keeps s).holds.beats p h))))

  -- A ready neighbour is observed without an error.
  pub link_state_total :
      (p : String) (s : State F R) → is_ready p s ≡ true → Gives s (link_state maths rand setup p s)
  unfolding link_state
  link_state_total p s h = elim (Bool-cases (is_alive p s)) [
    | inr e ↦ rw e (Gives-map_option _ (λ r. Keeps-refl r.1) s _ (older_total p s (ground arith)))
    | inl e ↦ elim (Option-cases (node p setup.scenario)) [
      | inl e' ↦ absurd (ground arith)
      | inr (peer, e') ↦ rw (e, e') (seen_total peer)
    ]
  ]
    where
      seen_total :
          (peer : Node F)
          → Gives s (
              seen maths rand setup p peer
                (fade_of maths rand setup setup.scenario.channel_model.fading p s))
      seen_total peer =
          let (r, f, k) = fade_of_total setup.scenario.channel_model.fading p s (ground arith) in
          rw f (Gives-after _ k (live_link_total p peer r.0 r.1 (k.holds.beats p (ground arith))))
