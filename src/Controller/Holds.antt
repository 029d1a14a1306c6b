-- ===== src/Controller/Holds.antt =====
-- How a recovery time comes about in an episode of `Controller.run`.
use tactical_radio_jamming_s.Base.{
  ℕ, zero, suc, ◌+◌, ◌≤◌, ◌<◌, ◌≡◌, refl, sym, ap, ◌∙◌, Bool, true, false, some, Number, arith,
  Bool-cases, Option-cases, inl, inr,
}
use mathlib.Core.Path.{subst}
use tactical_radio_jamming_s.Percept.Ring.Queue.{Nat-cases}
use tactical_radio_jamming_s.Controller.State.{World, State, reset}
use tactical_radio_jamming_s.Controller.Run.{
  Seen, observe, may_decide, is_back, verify_recovery, decide, tick, ticks,
}
use tactical_radio_jamming_s.Controller.Recovery.{
  acted, acted-SameRecovery, observe-recovery, verify_recovery-lost, verify_recovery-begun,
  verify_recovery-IsLonger, observe-hold, ticks-last,
}

some_same : {A : Type 0} {x y : A} → some x ≡ some y → x ≡ y
some_same h = cc

module _ {F S A X : Type 0} ⦃num : Number F⦄ (w : World F S A X) where
  open num use {le, sub, round}

  module _ (start : State F S A X) where
    -- what the tick with a number has seen, and the state that it found
    abbrev pub at_tick : ℕ → Seen w × State F S A X
    at_tick i = observe w (ticks w i 0 start)

    abbrev pub time : ℕ → F
    time i = (at_tick i).0.t

    -- at this tick a decision is due, and with it a check of the recovery
    abbrev pub is_due : ℕ → Bool
    is_due i = may_decide w i (at_tick i).0.pdr (at_tick i).1

    -- the delivery of this tick is back at the required fraction of the baseline
    abbrev pub is_good : ℕ → Bool
    is_good i = is_back w (at_tick i).0.pdr (at_tick i).1.baseline_pdr

    -- Before the tick `n`, delivery has been back at every check since the one at the time `since`.
    pub record IsHeld (n : ℕ) (since : F) : Type 0 where
      pub first : ℕ
      pub earlier : first < n
      pub due : is_due first ≡ true
      pub since_eq : since ≡ time first
      pub steady : (i : ℕ) → first ≤ i → i < n → is_due i ≡ true → is_good i ≡ true

    -- Why a recovery time may stand in the log after `n` ticks.
    pub record IsEarned (n : ℕ) (r : F) : Type 0 where
      pub first : ℕ
      pub last : ℕ
      pub ordered : first < last
      pub past : last < n
      pub both_due : (is_due first ≡ true) × (is_due last ≡ true)
      pub steady : (i : ℕ) → first ≤ i → i ≤ last → is_due i ≡ true → is_good i ≡ true
      pub held_long : le w.contract.recovery_hold_s (sub (time last) (time first)) ≡ true
      pub written : r ≡ round (time last) 2

    record Recovers (n : ℕ) (s : State F S A X) : Type 0 where
      held : (since : F) → s.recovery_hold_start ≡ some since → IsHeld n since
      earned : (r : F) → s.log.recovery_t ≡ some r → IsEarned n r

    later-IsEarned : (n : ℕ) (r : F) → IsEarned n r → IsEarned (suc n) r
    later-IsEarned n r h = record {
      first = h.first;
      last = h.last;
      ordered = h.ordered;
      past = omega (arith, h.past);
      both_due = h.both_due;
      steady = h.steady;
      held_long = h.held_long;
      written = h.written;
    }

    later-IsHeld :
        (n : ℕ) (since : F)
        → (is_due n ≡ true → is_good n ≡ true)
        → IsHeld n since
        → IsHeld (suc n) since
    later-IsHeld n since now h = record {
      first = h.first;
      earlier = omega (arith, h.earlier);
      due = h.due;
      since_eq = h.since_eq;
      steady = λ i from to is. elim (Nat-cases i n (omega (arith, to))) [
        | inl before ↦ h.steady i from before is
        | inr here ↦ subst (λ k. is_good k ≡ true) (sym here) (now (ap is_due (sym here) ∙ is))
      ];
    }

    begun-IsHeld : (n : ℕ) → is_due n ≡ true → is_good n ≡ true → IsHeld (suc n) (time n)
    begun-IsHeld n due good = record {
      first = n;
      earlier = omega arith;
      due = due;
      since_eq = refl;
      steady = λ i from to is.
          let same : n ≡ i = omega (arith, from, to) in subst (λ k. is_good k ≡ true) same good;
    }

    -- a check at a tick where the delivery is back
    good-Recovers :
        (n : ℕ) (s s' : State F S A X)
        → is_due n ≡ true
        → is_good n ≡ true
        → s.baseline_pdr ≡ (at_tick n).1.baseline_pdr
        → s' ≡ verify_recovery w (time n) (at_tick n).0.pdr s
        → Recovers n s
        → Recovers (suc n) s'
    unfolding later-IsHeld
    good-Recovers n s s' due good base is h =
        let back : is_back w (at_tick n).0.pdr s.baseline_pdr ≡ true =
          ap (is_back w (at_tick n).0.pdr) base ∙ good in
        elim (Option-cases s.recovery_hold_start) [
          | inl none_yet ↦
              let v = verify_recovery-begun w (time n) (at_tick n).0.pdr s back none_yet in
              record {
                held = λ since e.
                    let now : time n ≡ since =
                      some_same (sym (v.0) ∙ ap (λ z. z.recovery_hold_start) (sym is) ∙ e) in
                    subst (IsHeld (suc n)) now (begun-IsHeld n due good);
                earned = λ r e.
                    later-IsEarned n r
                      (h.earned r (sym (v.1) ∙ ap (λ z. z.log.recovery_t) (sym is) ∙ e));
              }
          | inr (since, on) ↦
              let v = verify_recovery-IsLonger w (time n) (at_tick n).0.pdr since s back on in
              let old = h.held since on in
              record {
                held = λ u e.
                    let same : since ≡ u =
                      some_same (sym (v.hold_eq) ∙ ap (λ z. z.recovery_hold_start) (sym is) ∙ e) in
                    subst (IsHeld (suc n)) same (later-IsHeld n since (λ d. good) old);
                earned = λ r e. elim (v.written r (ap (λ z. z.log.recovery_t) (sym is) ∙ e)) [
                  | inl before ↦ later-IsEarned n r (h.earned r before)
                  | inr (long, at) ↦ record {
                    first = old.first;
                    last = n;
                    ordered = old.earlier;
                    past = omega arith;
                    both_due = (old.due, due);
                    steady = λ i from to is_due_i.
                        (later-IsHeld n since (λ d. good) old).steady i from (omega (arith, to))
                          is_due_i;
                    held_long =
                        subst (λ z. le w.contract.recovery_hold_s (sub (time n) z) ≡ true)
                          old.since_eq long;
                    written = at;
                  }
                ];
              }
        ]

    -- a check at a tick where it is not
    lost-Recovers :
        (n : ℕ) (s s' : State F S A X)
        → is_good n ≡ false
        → s.baseline_pdr ≡ (at_tick n).1.baseline_pdr
        → s' ≡ verify_recovery w (time n) (at_tick n).0.pdr s
        → Recovers n s
        → Recovers (suc n) s'
    lost-Recovers n s s' bad base is h =
        let v =
          verify_recovery-lost w (time n) (at_tick n).0.pdr s
            (ap (is_back w (at_tick n).0.pdr) base ∙ bad) in
        let none_now = ap (λ z. z.recovery_hold_start) is ∙ v.0 in
        record {
          held = λ since e. absurd (cc);
          earned = λ r e.
              later-IsEarned n r (h.earned r (sym (v.1) ∙ ap (λ z. z.log.recovery_t) (sym is) ∙ e));
        }

    same-Recovers :
        (n : ℕ) (s s' : State F S A X)
        → s'.recovery_hold_start ≡ s.recovery_hold_start
        → s'.log.recovery_t ≡ s.log.recovery_t
        → Recovers n s
        → Recovers n s'
    same-Recovers n s s' hold rec h = record {
      held = λ since e. h.held since (sym hold ∙ e);
      earned = λ r e. h.earned r (sym rec ∙ e);
    }

    idle-Recovers :
        (n : ℕ) (s : State F S A X) → is_due n ≡ false → Recovers n s → Recovers (suc n) s
    idle-Recovers n s idle h = record {
      held = λ since e. later-IsHeld n since (λ due. absurd (cc)) (h.held since e);
      earned = λ r e. later-IsEarned n r (h.earned r e);
    }

    tick-Recovers :
        (n : ℕ) → Recovers n (ticks w n 0 start) → Recovers (suc n) (tick w n (ticks w n 0 start))
    unfolding tick decide
    tick-Recovers n h =
        let s = ticks w n 0 start in
        let (o, s') = observe w s in
        let h' = same-Recovers n s s' (observe-hold w s) (observe-recovery w s) h in
        elim (Bool-cases (is_due n)) [
          | inr idle ↦ rw idle (idle-Recovers n s' idle h')
          | inl due ↦ rw due (
              let a = acted w o s' in
              let same = acted-SameRecovery w o s' in
              let ha = same-Recovers n s' a same.1 same.0 h' in
              elim (Bool-cases (is_good n)) [
                | inl good ↦ good-Recovers n a _ due good same.2 refl ha
                | inr bad ↦ lost-Recovers n a _ bad same.2 refl ha
              ])
        ]

    ticks-Recovers : (n : ℕ) → Recovers 0 start → Recovers n (ticks w n 0 start)
    unfolding ticks
    ticks-Recovers zero h = h
    ticks-Recovers (suc n) h =
        let here : 0 + n ≡ n = omega arith in
        let one_more = ticks-last w n 0 start ∙ ap (λ k. tick w k (ticks w n 0 start)) here in
        subst (Recovers (suc n)) (sym one_more) (tick-Recovers n (ticks-Recovers n h))

  -- In an episode from a reset, a recovery time in the log is that of a tick, rounded, at which a check
  -- was due, and at least `recovery_hold_s` after an earlier such tick; at both and at every check in
  -- between, delivery was back at the required fraction of a baseline that was known and not zero.
  pub recovery-IsEarned :
      (n : ℕ) (sim : S) (agent : A) (ex : X) {r : F}
      → let start = reset w sim agent ex in
        (ticks w n 0 start).log.recovery_t ≡ some r → IsEarned start n r
  unfolding reset
  recovery-IsEarned n sim agent ex {r} h =
      let start = reset w sim agent ex in
      (ticks-Recovers start n
          (record { held = λ since e. absurd (cc); earned = λ r e. absurd (cc) })).earned
        r h
