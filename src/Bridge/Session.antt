-- ===== src/Bridge/Session.antt =====
-- A whole session of the bridge: it returns, every message gets one reply, and the budget is kept.
use mathlib.Core.Path.{subst}
use tactical_radio_jamming_s.Base.{
  ◌≤◌, ◌≡◌, ◌⊎◌, refl, ap, sym, ◌∙◌, Bool, true, false, not, ◌||◌, Option, none, some, is_some,
  List, [], ◌∷◌, ◌++◌, length, count, all, Number, Bool-cases, inl, inr, if◌then◌else◌, arith, ltb,
  last?,
}
use tactical_radio_jamming_s.Percept.Observation.{ScanResult, RawObs}
use tactical_radio_jamming_s.Api.{Call, Args, Decision, call_eq, declare_link_lost, call_eq→eq}
use tactical_radio_jamming_s.Controller.Budget.{WithinBudget}
use tactical_radio_jamming_s.Bridge.{Message, Line, garbled, state, Bridge, Setup, Action}
use tactical_radio_jamming_s.Bridge.Observe.{state_to_obs, scan_of}
use tactical_radio_jamming_s.Bridge.Answer.{enter, log_action, screen, first, context}
use tactical_radio_jamming_s.Bridge.Books.{book, judge_effect}
use tactical_radio_jamming_s.Bridge.Loop.{
  Turn, consult, decide, noted, percept, perceived, time_of, turn, sent, session,
}
use tactical_radio_jamming_s.Bridge.Protocol.{decide-cases}
use tactical_radio_jamming_s.Bridge.Budget.{decide-WithinBudget}

abbrev pub has_band : {F : Type 0} → Message F → Bool
has_band st = ltb 0 (length st.band)

abbrev pub is_state : {F : Type 0} → Line F → Bool
is_state garbled = false
is_state (state st) = true

-- no message lacks the band
abbrev pub is_whole : {F : Type 0} → Line F → Bool
is_whole garbled = true
is_whole (state st) = has_band st

-- the last action is the declaration of the loss
abbrev pub is_declared : {F : Type 0} → Option (Action F) → Bool
is_declared none = false
is_declared (some a) = call_eq a.fn declare_link_lost

last?-append : {A : Type 0} (xs : List A) (a : A) → last? (xs ++ (a ∷ [])) ≡ some a
last?-append [] a = refl
last?-append (x ∷ []) a = refl
last?-append (x ∷ y ∷ xs) a = last?-append (y ∷ xs) a

module _ {F A X : Type 0} ⦃num : Number F⦄ (w : Setup F A X) where
  open num use {round}

  scan_of-some : (st : Message F) (t : F) → is_some (scan_of st none t) ≡ has_band st
  unfolding scan_of
  scan_of-some st t = ground arith

  noted-some :
      (pending : Bool) (scan : Option (ScanResult F)) (s : Bridge F A X)
      → is_some (noted w pending scan s) ≡ (not pending || is_some scan)
  noted-some false scan s = refl
  noted-some true none s = refl
  noted-some true (some scan) s = refl

  perceived-some :
      (st : Message F) (o : RawObs F) (s : Option (Bridge F A X))
      → is_some (perceived w st o s) ≡ is_some s
  perceived-some st o none = refl
  perceived-some st o (some s) = refl

  -- Where the extractor and the agent return, as the model takes them to, a turn raises exactly if a scan
  -- that was paid for is due and the message has no band.
  pub turn_returns_iff :
      (st : Message F) (s : Bridge F A X)
      → is_some (turn w st s) ≡ (not s.pending_scan || has_band st)
  unfolding turn state_to_obs
  turn_returns_iff st s =
      perceived-some st (state_to_obs w st none (time_of st)).0
        (noted w s.pending_scan (scan_of st none (time_of st)) s)
      ∙ noted-some s.pending_scan (scan_of st none (time_of st)) s
      ∙ ap (λ b. not s.pending_scan || b) (scan_of-some st (time_of st))

  -- A turn that stops has logged the declaration last.
  abbrev Stops : Turn F A X → Type 0
  Stops r = r.stop ≡ true → is_declared (last? r.next.actions) ≡ true

  actions-enter :
      (feats : List F) (av : List Call) (t : F) (d : Decision F) (s : Bridge F A X)
      → (enter feats av t d s).actions ≡ log_action t d none s.actions
  unfolding enter
  actions-enter feats av t d s = ground arith

  log_action-ends :
      (t : F) (d : Decision F) (rows : List (Action F))
      → call_eq d.call declare_link_lost ≡ true
      → is_declared (last? (log_action t d none rows)) ≡ true
  log_action-ends t d rows h =
      rw (call_eq→eq d.call declare_link_lost h) (ap is_declared (last?-append rows _))

  consult-Stops :
      (st : Message F) (t : F) (feats : List F) (av : List Call) (s : Bridge F A X)
      → Stops (consult w st t feats av s)
  unfolding consult
  consult-Stops st t feats av s h =
      let judged = judge_effect t (first feats) s in
      let asked = (w.agent.decide feats (context w st t av judged) judged.agent).0 in
      let d = (screen av t asked judged.tried).0 in
      ap (λ rows. is_declared (last? rows)) (actions-enter feats av t d _)
      ∙ log_action-ends t d judged.actions h

  decide-Stops :
      (st : Message F) (t : F) (feats : List F) (s : Bridge F A X) → Stops (decide w st t feats s)
  decide-Stops st t feats s =
      decide-cases w Stops st t feats s (λ h. absurd (ground arith)) (λ h. absurd (ground arith))
        (λ why h. ap is_declared (
          last?-append (book w st t s).actions
            (record { t = round t 2; fn = declare_link_lost; args = []; forced = some why })))
        (consult-Stops st t feats _ _)

  noted-same :
      (pending : Bool) (scan : Option (ScanResult F)) (s : Bridge F A X)
      → is_some scan ≡ true
      → (s' : Bridge F A X) × (noted w pending scan s ≡ some s') × (s'.used ≡ s.used)
  noted-same false scan s h = (s, refl, refl)
  noted-same true none s h = absurd (ground arith)
  noted-same true (some scan) s h = (_, refl, refl)

  -- a turn of a whole message
  record IsTurn (s : Bridge F A X) (o : Option (Turn F A X)) : Type 0 where
    result : Turn F A X
    returns : o ≡ some result
    within : WithinBudget w.contract result.next.used
    stops : Stops result

  turn-IsTurn :
      (st : Message F) (s : Bridge F A X)
      → has_band st ≡ true
      → WithinBudget w.contract s.used
      → IsTurn s (turn w st s)
  unfolding turn state_to_obs
  turn-IsTurn st s h b =
      let t = time_of st in
      let o = (state_to_obs w st none t).0 in
      let (s', e, same) = noted-same s.pending_scan (scan_of st none t) s (scan_of-some st t ∙ h) in
      let (feats, s2) = percept w o s' in
      record {
        result = decide w st t feats s2;
        returns = ap (perceived w st o) e;
        within = decide-WithinBudget w st t feats s2 (subst (WithinBudget w.contract) (sym same) b);
        stops = decide-Stops st t feats s2;
      }

  -- What a session is to be: it returns, keeps the budget, and has sent one reply for every message, or
  -- else it ended with the declaration of the loss.
  pub record IsSession (lines : List (Line F)) (o : Option (List (Args F) × Bridge F A X))
      : Type 0 where
    pub replies : List (Args F)
    pub final : Bridge F A X
    pub returns : o ≡ some (replies, final)
    pub within : WithinBudget w.contract final.used
    pub length_le : length replies ≤ count is_state lines
    pub answered :
        (length replies ≡ count is_state lines) ⊎ (is_declared (last? final.actions) ≡ true)

  sent-IsSession :
      (st : Message F) (lines : List (Line F)) (r : Turn F A X)
      (rest : Option (List (Args F) × Bridge F A X))
      → WithinBudget w.contract r.next.used
      → Stops r
      → IsSession lines rest
      → IsSession (state st ∷ lines) (sent w r.reply (if r.stop then some ([], r.next) else rest))
  sent-IsSession st lines r rest b stops h = elim (Bool-cases r.stop) [
    | inl e ↦
        let shape : (if r.stop then some ([], r.next) else rest) ≡ some ([], r.next) = rw e refl in
        record {
          replies = r.reply ∷ [];
          final = r.next;
          returns = ap (sent w r.reply) shape;
          within = b;
          length_le = omega arith;
          answered = inr (stops e);
        }
    | inr e ↦
        let shape : (if r.stop then some ([], r.next) else rest) ≡ some (h.replies, h.final) =
          rw e h.returns in
        record {
          replies = r.reply ∷ h.replies;
          final = h.final;
          returns = ap (sent w r.reply) shape;
          within = h.within;
          length_le = omega (arith, h.length_le);
          answered = ground (arith, h.answered);
        }
  ]

  -- If every message has the band, a session from a state within the budget returns: no turn raises.
  -- The budget is kept, garbled lines get no reply, and every message gets exactly one, unless the
  -- session has ended with the declaration of the loss.
  pub session-IsSession :
      (lines : List (Line F)) (s : Bridge F A X)
      → all is_whole lines ≡ true
      → WithinBudget w.contract s.used
      → IsSession lines (session w lines s)
  unfolding session
  session-IsSession [] s h b = record {
    replies = [];
    final = s;
    returns = refl;
    within = b;
    length_le = omega arith;
    answered = inl refl;
  }
  session-IsSession (garbled ∷ lines) s h b =
      let rest = session-IsSession lines s h b in
      record {
        replies = rest.replies;
        final = rest.final;
        returns = rest.returns;
        within = rest.within;
        length_le = omega (arith, rest.length_le);
        answered = ground (arith, rest.answered);
      }
  session-IsSession (state st ∷ lines) s h b =
      let first = turn-IsTurn st s (ground arith) b in
      rw (first.returns, session)
        (sent-IsSession st lines first.result (session w lines first.result.next) first.within
          first.stops (session-IsSession lines first.result.next (ground arith) first.within))
