-- ===== src/Bridge/Loop.antt =====
-- One turn of the bridge's loop, and the session of a whole run. `none` is the AttributeError of noting
-- a scan that is `None`.
use tactical_radio_jamming_s.Base.{
  ◌%◌, ◌==◌, Bool, true, false, not, ◌||◌, Option, none, some, is_some, List, [], ◌∷◌, ◌++◌,
  or_else, if◌then◌else◌, Number, lit,
}
use tactical_radio_jamming_s.Percept.Observation.{RawObs, ScanResult}
use tactical_radio_jamming_s.Api.{Call, call_eq, no_op, declare_link_lost, str, Args}
use tactical_radio_jamming_s.Controller.State.{Reason}
use tactical_radio_jamming_s.Bridge.{Message, Line, garbled, state, Bridge, Setup}
use tactical_radio_jamming_s.Bridge.Observe.{state_to_obs}
use tactical_radio_jamming_s.Bridge.Mask.{avail}
use tactical_radio_jamming_s.Bridge.Books.{book, reason_of, judge_effect}
use tactical_radio_jamming_s.Bridge.Answer.{call_name, context, screen, enter, first, reply_of}

-- What a turn sends, whether the loop ends with it, and the variables after it.
pub record Turn (F A X : Type 0) : Type 0 where
  pub reply : Args F
  pub stop : Bool
  pub next : Bridge F A X

module _ {F : Type 0} ⦃num : Number F⦄ where
  open num use {lt, mul, round, round_int}

  abbrev pub time_of : Message F → F
  time_of st = or_else st.t (lit 0 0)

  -- `{"call": name}`
  abbrev pub bare : Call → Args F
  bare c = ("call", str (call_name c)) ∷ []

module _ {F A X : Type 0} ⦃num : Number F⦄ (w : Setup F A X) where
  open num use {lt, mul, round, round_int}

  -- the scan that was paid for, if one is pending
  abbrev pub noted : Bool → Option (ScanResult F) → Bridge F A X → Option (Bridge F A X)
  noted false scan s = some s
  noted true none s = none
  noted true (some scan) s = some (record s {
    extractor = w.extractor.note_scan scan s.extractor;
    last_scan = some scan;
    pending_scan = false;
  })

  abbrev pub percept : RawObs F → Bridge F A X → List F × Bridge F A X
  percept o s =
      let (feats, x) = w.extractor.update (record o { scan = none }) s.extractor in
      (feats, record s { extractor = x })

  -- the agent's turn
  unfoldable pub consult : Message F → F → List F → List Call → Bridge F A X → Turn F A X
  consult st t feats av s =
      let judged = judge_effect t (first feats) s in
      let (asked, agent') = w.agent.decide feats (context w st t av judged) judged.agent in
      let (d, tried') = screen av t asked judged.tried in
      record {
        reply = reply_of d;
        stop = call_eq d.call declare_link_lost;
        next = enter feats av t d (record judged { agent = agent'; tried = tried' });
      }

  abbrev pub forced : F → Reason → Bridge F A X → Turn F A X
  forced t why s = record {
    reply = bare declare_link_lost;
    stop = true;
    next = record s {
      declared = true;
      actions =
          s.actions
          ++ (record { t = round t 2; fn = declare_link_lost; args = []; forced = some why } ∷ []);
    };
  }

  abbrev pub skipped : Bridge F A X → Turn F A X
  skipped s = record { reply = bare no_op; stop = false; next = s }

  -- the gate: five seconds, and an onset
  abbrev pub is_gated : F → Bridge F A X → Bool
  is_gated t s = lt t (lit 5 0) || not (is_some (w.extractor.onset_t s.extractor))

  abbrev pub after_book :
      Message F → F → List F → List Call → Option Reason → Bridge F A X → Turn F A X
  after_book st t feats av (some why) s =
      if s.declared
      then (if is_gated t s then skipped s else consult st t feats av s)
      else forced t why s
  after_book st t feats av none s = if is_gated t s then skipped s else consult st t feats av s

  -- a turn after the percept layer: decisions once a second
  unfoldable pub decide : Message F → F → List F → Bridge F A X → Turn F A X
  decide st t feats s =
      let av = avail w.contract st t s in
      let s' = book w st t s in
      if round_int (mul t (lit 10 0)) % 10 == 0
      then after_book st t feats av (reason_of w.contract t s') s'
      else skipped s

  -- the percept layer and the decision, if noting the scan has not raised
  abbrev pub perceived : Message F → RawObs F → Option (Bridge F A X) → Option (Turn F A X)
  perceived st o none = none
  perceived st o (some s) = let (feats, s') = percept o s in some (decide st (time_of st) feats s')

  unfoldable pub turn : Message F → Bridge F A X → Option (Turn F A X)
  turn st s =
      let (o, scan) = state_to_obs w st none (time_of st) in
      perceived st o (noted s.pending_scan scan s)

  -- a reply before the replies of the rest
  abbrev pub sent :
      Args F → Option (List (Args F) × Bridge F A X) → Option (List (Args F) × Bridge F A X)
  sent r none = none
  sent r (some (rs, s)) = some (r ∷ rs, s)

  -- the loop over the lines: the replies, and the variables at the end
  unfoldable pub session : List (Line F) → Bridge F A X → Option (List (Args F) × Bridge F A X)
  session [] s = some ([], s)
  session (garbled ∷ lines) s = session lines s
  session (state st ∷ lines) s = elim (turn st s) [
    | none ↦ none
    | some r ↦
        let rest = session lines r.next in sent r.reply (if r.stop then some ([], r.next) else rest)
  ]
