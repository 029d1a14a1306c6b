-- ===== src/Verifier/Claims.antt =====
-- Which claim the verifier scores.
use tactical_radio_jamming_s.Base.{
  ◌≡◌, refl, ◌∙◌, sym, Bool, true, false, ◌&&◌, ◌||◌, Option, none, some, List, [], ◌∷◌, Number,
  arith, any, keep, last?, any-keep, any-last?, or_else, keep-last?, any-and_self, any-last?-keep,
  last?-none, Option-cases, Bool-cases, inl, inr,
}
use mathlib.Core.Path.{subst}
use mathlib.Core.List.{reverse}
use tactical_radio_jamming_s.Api.{Cause, cause_eq_refl}
use tactical_radio_jamming_s.Controller.State.{Contract, EpisodeLog, TraceRow, ActionRow}
use tactical_radio_jamming_s.Verifier.Score.{
  claim, with_next, same_claim, is_confident, confident, anchored, holds_on, is_causal, last_claim,
  declared_cause,
}

module _ {F : Type 0} ⦃num : Number F⦄ (k : Contract F) where
  abbrev pub claims : Cause → TraceRow F → Bool
  claims c r = is_confident k r && same_claim (claim r) (some c)

  -- What the declared cause says of the trace.
  abbrev pub IsDeclared : List (TraceRow F) → Option Cause → Type 0
  IsDeclared trace none = any (is_confident k) trace ≡ false
  IsDeclared trace (some c) = any (claims c) trace ≡ true

  same_claim_refl : (o : Option Cause) → same_claim o o ≡ true
  same_claim_refl none = refl
  same_claim_refl (some c) = cause_eq_refl c

  any-with_next :
      (p : TraceRow F → Bool) (trace : List (TraceRow F))
      → any (λ e. p e.0) (with_next trace) ≡ any p trace
  unfolding with_next
  any-with_next p [] = refl
  any-with_next p (r ∷ []) = refl
  any-with_next p (r ∷ r' ∷ rs) = ground (arith, any-with_next p (r' ∷ rs))

  any-confident :
      (p : TraceRow F → Bool) (trace : List (TraceRow F))
      → any (λ e. p e.0) (confident k trace) ≡ any (λ r. is_confident k r && p r) trace
  unfolding confident
  any-confident p trace =
      any-keep (λ e. p e.0) (λ e. is_confident k e.0) (with_next trace)
      ∙ any-with_next (λ r. is_confident k r && p r) trace

  -- the claim that an action embodies is that of a confident row
  anchored-any :
      (conf : List (TraceRow F × Option (TraceRow F))) (causal : Bool) (acts : List (ActionRow F))
      {c : Cause}
      → anchored k conf causal acts ≡ some c
      → any (λ e. same_claim (claim e.0) (some c)) conf ≡ true
  unfolding anchored
  anchored-any conf causal [] h = cc
  anchored-any conf causal (a ∷ acts) {c} h =
      elim (Option-cases (last? (keep (λ e. num.le (e.0).t a.t) conf))) [
        | inl e ↦ anchored-any conf false acts (rw (e, anchored) at h)
        | inr ((row, next), e) ↦ elim (Bool-cases (holds_on row next || causal)) [
          | inl held ↦
              any-last?-keep _ _ conf e
                (rw (rw (e, held, anchored) at h) (same_claim_refl (some c)))
          | inr dropped ↦ anchored-any conf false acts (rw (e, dropped, anchored) at h)
        ]
      ]

  any-claims :
      (c : Cause) (trace : List (TraceRow F))
      → any (λ e. same_claim (claim e.0) (some c)) (confident k trace) ≡ true
      → any (claims c) trace ≡ true
  any-claims c trace h = sym (any-confident (λ r. same_claim (claim r) (some c)) trace) ∙ h

  claim-some : (row : TraceRow F) → is_confident k row ≡ true → (c : Cause) × (claim row ≡ some c)
  unfolding claim is_confident
  claim-some row h = (or_else row.declared row.top, ground arith)

  confident-last? :
      (trace : List (TraceRow F)) {e : TraceRow F × Option (TraceRow F)}
      → last? (confident k trace) ≡ some e
      → is_confident k e.0 ≡ true
  unfolding confident
  confident-last? trace h = keep-last? (λ e. is_confident k e.0) (with_next trace) h

  last_claim-none :
      (conf : List (TraceRow F × Option (TraceRow F))) → last? conf ≡ none → last_claim conf ≡ none
  last_claim-none conf e = ground arith

  last_claim-some :
      (conf : List (TraceRow F × Option (TraceRow F))) {e : TraceRow F × Option (TraceRow F)}
      → last? conf ≡ some e
      → last_claim conf ≡ claim e.0
  last_claim-some conf e = ground arith

  last_claim-IsDeclared :
      (trace : List (TraceRow F)) → IsDeclared trace (last_claim (confident k trace))
  last_claim-IsDeclared trace = elim (Option-cases (last? (confident k trace))) [
    | inl e ↦ subst (IsDeclared trace) (sym (last_claim-none (confident k trace) e)) (
        sym (any-and_self (is_confident k) trace)
        ∙ sym (any-confident (is_confident k) trace)
        ∙ last?-none (confident k trace) (λ e. is_confident k e.0) e)
    | inr (row, e) ↦
        let (c, claimed) = claim-some row.0 (confident-last? trace e) in
        subst (IsDeclared trace) (sym (last_claim-some (confident k trace) e ∙ claimed)) (
          any-claims c trace (
            any-last? (λ e. same_claim (claim e.0) (some c)) (confident k trace) e
              (rw claimed (same_claim_refl (some c)))))
  ]

  -- The declared cause is the claim of some row of the trace that is confident and not an abstention;
  -- it is missing exactly if the trace has no such row.
  pub declared_cause-IsDeclared :
      (log : EpisodeLog F) → IsDeclared log.classification_trace (declared_cause k log)
  unfolding declared_cause
  declared_cause-IsDeclared log =
      let trace = log.classification_trace in
      let causal = is_causal log.recovery_t log.actions in
      elim (Option-cases (anchored k (confident k trace) causal (reverse log.actions))) [
        | inl e ↦
            let same : declared_cause k log ≡ last_claim (confident k trace) = ground arith in
            subst (IsDeclared trace) (sym same) (last_claim-IsDeclared trace)
        | inr (c, e) ↦
            let same : declared_cause k log ≡ some c = ground arith in
            subst (IsDeclared trace) (sym same)
              (any-claims c trace (anchored-any (confident k trace) causal (reverse log.actions) e))
      ]
