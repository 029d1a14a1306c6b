-- ===== src/Bridge/Books.antt =====
-- The lines of the bridge's loop that keep the books once a second: delivery, recovery and the onset,
-- the dead-man rule, and the outcome of the last remedy.
use Prim.Native.Nat.{max}
use tactical_radio_jamming_s.Base.{
  ◌&&◌, Bool, false, not, Option, none, some, is_some, List, [], ◌∷◌, ◌++◌, map, keep, length, leb,
  if◌then◌else◌, Number, lit, of_ℕ, sum, truthy, max_of,
}
use tactical_radio_jamming_s.Controller.State.{
  Contract, Reason, no_usable_link_timeout, recovery_timeout, budget_exhausted,
}
use tactical_radio_jamming_s.Bridge.{
  Message, Bridge, Setup, Effect, Verdict, helped, no_change, made_it_worse,
}

module _ {F : Type 0} ⦃num : Number F⦄ where
  open num use {neg, add, sub, mul, div, lt, le, round}

  abbrev pub pdr_now : Message F → F
  pdr_now st = div (sum st.pdr) (of_ℕ (max 1 (length st.pdr)))

  abbrev mean_or_none : List F → Option F
  mean_or_none [] = none
  mean_or_none (x ∷ xs) = some (div (sum (x ∷ xs)) (of_ℕ (length (x ∷ xs))))

  -- the samples of the first five seconds
  abbrev early : List (F × F) → List F
  early series = map (λ r. r.1) (keep (λ r. le r.0 (lit 5 0)) series)

  unfoldable pub next_baseline : F → List (F × F) → Option F → Option F
  next_baseline t series (some b) = some b
  next_baseline t series none = if lt (lit 5 0) t then mean_or_none (early series) else none

  -- delivery is back at the required fraction of a baseline that is not 0.0
  abbrev is_back : Contract F → F → Option F → Bool
  is_back k p none = false
  is_back k p (some base) = truthy base && le (mul k.recovery_pdr_frac_of_baseline base) p

  abbrev held : Contract F → F → Option F → Bool
  held k t none = false
  held k t (some since) = le k.recovery_hold_s (sub t since)

  abbrev begun : F → Option F → Option F
  begun t none = some t
  begun t (some since) = some since

  unfoldable pub recover : {A X : Type 0} → Contract F → F → F → Bridge F A X → Bridge F A X
  recover k t p s =
      if is_back k p s.baseline_pdr
      then record s {
        recovery_hold_start = begun t s.recovery_hold_start;
        recovery_t =
            if held k t s.recovery_hold_start && not (is_some s.recovery_t)
            then some (round t 2)
            else s.recovery_t;
      }
      else record s { recovery_hold_start = none }

  abbrev pub first_onset : Option F → Option F → Option F
  first_onset (some onset) gate = some onset
  first_onset none gate = gate

  -- `w.extractor.onset_t` is the gate's onset
  unfoldable pub book : {A X : Type 0} → Setup F A X → Message F → F → Bridge F A X → Bridge F A X
  book {A} {X} w st t s =
      let p = pdr_now st in
      let series = s.pdr_series ++ ((round t 1, round p 3) ∷ []) in
      let counted : Bridge F A X = record s {
        last_t = t;
        no_link_for =
            if lt (lit 2 1) p
            then lit 0 0
            else add s.no_link_for (max_of (lit 0 0) (sub t s.last_t));
        pdr_series = series;
        baseline_pdr = next_baseline t series s.baseline_pdr;
      } in
      let recovered = recover w.contract t p counted in
      record recovered {
        onset_t = first_onset recovered.onset_t (w.extractor.onset_t recovered.extractor);
      }

  abbrev overdue : Contract F → Option F → F → Bool
  overdue k none t = false
  overdue k (some onset) t = le k.recovery_timeout_s (sub t onset)

  -- the dead-man rule
  unfoldable pub reason_of : {A X : Type 0} → Contract F → F → Bridge F A X → Option Reason
  reason_of k t s =
      if le k.no_link_declare_s s.no_link_for
      then some no_usable_link_timeout
      else if overdue k s.onset_t t
      then some recovery_timeout
      else if leb k.max_costly_actions s.used.costly && lt (lit 3 0) s.no_link_for
      then some budget_exhausted
      else none

  abbrev verdict_of : F → Verdict
  verdict_of gain =
      if le (lit 15 2) gain
      then helped
      else if lt (neg (lit 15 2)) gain
      then no_change
      else made_it_worse

  abbrev judged : {A X : Type 0} → F → F → Effect F → Bridge F A X → Bridge F A X
  judged t after e s =
      let gain = sub after e.pdr_before in
      if le (add e.t (lit 2 0)) t
      then record s {
        recovery_attempts =
            s.recovery_attempts
            ++ (record {
              effect = e;
              outcome = verdict_of gain;
              delta_pct = round (mul gain (lit 50 0)) 1;
            }
                ∷ []);
        pending_effect = none;
      }
      else s

  -- the outcome of the last remedy, two seconds after it
  unfoldable pub judge_effect : {A X : Type 0} → F → F → Bridge F A X → Bridge F A X
  judge_effect t after s = elim s.pending_effect [ none ↦ s | some e ↦ judged t after e s ]
