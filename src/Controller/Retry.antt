-- ===== src/Controller/Retry.antt =====
-- The repeat suppressor of `Controller.run` and its memory of what was tried.
use tactical_radio_jamming_s.Base.{
  ◌≡◌, true, false, Bool-cases, inl, inr, List, [], ◌∷◌, some, Number, lit, arith, all, sym, ap,
  ◌||◌, ◌∙◌, refl,
}
use tactical_radio_jamming_s.Api.{
  Cause, Call, Decision, contains, no_op, call_eq, call_eq_refl, cause_eq_refl, cause_eq→eq,
  call_eq→eq,
}
use tactical_radio_jamming_s.Api.Beliefs.{top}
use tactical_radio_jamming_s.Controller.Choose.{
  tried_at, mark_tried, same_key, is_recovery, is_repeat, remember_try, screen,
}

is_recovery-ne-no_op : (c : Call) → is_recovery c ≡ true → call_eq c no_op ≡ false
unfolding is_recovery
is_recovery-ne-no_op c h = ground arith

same_key_refl : (h : Cause) (c : Call) → same_key h c h c ≡ true
unfolding same_key
same_key_refl h c = rw (cause_eq_refl h, call_eq_refl c)

same_key_eq :
    (h : Cause) (c : Call) (h' : Cause) (c' : Call)
    → same_key h c h' c' ≡ true
    → (h ≡ h') × (c ≡ c')
unfolding same_key
same_key_eq h c h' c' e = (cause_eq→eq h h' (ground arith), call_eq→eq c c' (ground arith))

module _ {F : Type 0} ⦃num : Number F⦄ where
  open num use {lt, sub}

  pub tried_at-mark_tried :
      (h : Cause) (c : Call) (t : F) (m : List (Cause × Call × F))
      → tried_at h c (mark_tried h c t m) ≡ some t
  unfolding tried_at mark_tried
  tried_at-mark_tried h c t [] = rw same_key_refl
  tried_at-mark_tried h c t ((h', c', t') ∷ m) = elim (Bool-cases (same_key h c h' c')) [
    | inl same ↦ rw (same, same)
    | inr differs ↦ rw (differs, differs) (tried_at-mark_tried h c t m)
  ]

  screen-repeat :
      (d : Decision F) (t : F) (av : List Call) (tried : List (Cause × Call × F))
      → is_repeat d t tried ≡ true
      → (screen d t av tried).call ≡ no_op
  unfolding screen
  screen-repeat d t av tried h = rw h (ground arith)

  screen-masked :
      (d : Decision F) (t : F) (av : List Call) (tried : List (Cause × Call × F))
      → is_repeat d t tried ≡ false
      → contains d.call av ≡ false
      → (screen d t av tried).call ≡ no_op
  unfolding screen
  screen-masked d t av tried h m = rw (h, m)

  screen-fresh :
      (d : Decision F) (t : F) (av : List Call) (tried : List (Cause × Call × F))
      → is_repeat d t tried ≡ false
      → contains d.call av ≡ true
      → screen d t av tried ≡ d
  unfolding screen
  screen-fresh d t av tried h m = rw (h, m)

  is_repeat_of_tried :
      (d : Decision F) (t t₀ : F) (tried : List (Cause × Call × F))
      → is_recovery d.call ≡ true
      → tried_at (top d.belief) d.call tried ≡ some t₀
      → lt (sub t t₀) (lit 900 0) ≡ true
      → is_repeat d t tried ≡ true
  unfolding is_repeat
  is_repeat_of_tried d t t₀ tried rec e soon = rw (rec, e, soon)

  is_repeat_of_test :
      (d : Decision F) (t : F) (tried : List (Cause × Call × F))
      → is_recovery d.call ≡ false
      → is_repeat d t tried ≡ false
  unfolding is_repeat
  is_repeat_of_test d t tried h = rw h

  tried_at-remember_try :
      (d : Decision F) (t : F) (tried : List (Cause × Call × F))
      → is_recovery d.call ≡ true
      → is_repeat d t tried ≡ false
      → tried_at (top d.belief) d.call (remember_try d t tried) ≡ some t
  unfolding remember_try
  tried_at-remember_try d t tried rec fresh =
      rw (fresh, is_recovery-ne-no_op d.call rec)
        (tried_at-mark_tried (top d.belief) d.call t tried)

  tried_at-other :
      (h : Cause) (c : Call) (h' : Cause) (c' : Call) (t : F) (m : List (Cause × Call × F))
      → same_key h c h' c' ≡ false
      → tried_at h c (mark_tried h' c' t m) ≡ tried_at h c m
  unfolding tried_at mark_tried
  tried_at-other h c h' c' t [] e = rw e refl
  tried_at-other h c h' c' t ((i, b, u) ∷ m) e = elim (Bool-cases (same_key h' c' i b)) [
    | inl same ↦
        let (p, q) = same_key_eq h' c' i b same in
        let e' : same_key h c i b ≡ false =
          sym (ap (same_key h c i) q) ∙ ap (λ z. same_key h c z c') (sym p) ∙ e in
        rw (same, e') refl
    | inr differs ↦ rw (differs, tried_at-other h c h' c' t m e) refl
  ]

  -- what was tried less than 900 s ago is not marked again
  tried_at-kept :
      (h : Cause) (c : Call) (t₀ : F) (d : Decision F) (t : F) (m : List (Cause × Call × F))
      → is_recovery c ≡ true
      → tried_at h c m ≡ some t₀
      → lt (sub t t₀) (lit 900 0) ≡ true
      → tried_at h c (remember_try d t m) ≡ some t₀
  unfolding remember_try
  tried_at-kept h c t₀ d t m rec e soon =
      elim (Bool-cases (is_repeat d t m || call_eq d.call no_op)) [
        | inl still ↦ rw still e
        | inr marked ↦ rw marked (elim (Bool-cases (same_key h c (top d.belief) d.call)) [
          | inl same ↦
              let (p, q) = same_key_eq h c (top d.belief) d.call same in
              let repeat =
                is_repeat_of_tried d t t₀ m (ap is_recovery (sym q) ∙ rec)
                  (ap (λ z. tried_at z d.call m) (sym p) ∙ ap (λ z. tried_at h z m) (sym q) ∙ e)
                  soon in
              absurd (ground (arith, repeat, marked))
          | inr differs ↦ tried_at-other h c (top d.belief) d.call t m differs ∙ e
        ])
      ]

  -- the memory after some decisions, each at its time
  abbrev pub remember_tries :
      List (Decision F × F) → List (Cause × Call × F) → List (Cause × Call × F)
  remember_tries [] tried = tried
  remember_tries ((d, t) ∷ more) tried = remember_tries more (remember_try d t tried)

  tries-kept :
      (h : Cause) (c : Call) (t₀ : F) (ds : List (Decision F × F)) (m : List (Cause × Call × F))
      → is_recovery c ≡ true
      → tried_at h c m ≡ some t₀
      → all (λ e. lt (sub e.1 t₀) (lit 900 0)) ds ≡ true
      → tried_at h c (remember_tries ds m) ≡ some t₀
  tries-kept h c t₀ [] m rec e soon = e
  tries-kept h c t₀ ((d, t) ∷ more) m rec e soon =
      tries-kept h c t₀ more (remember_try d t m) rec
        (tried_at-kept h c t₀ d t m rec e (ground (arith, soon))) (ground (arith, soon))

  -- A recovery call that the mask refuses is remembered as tried, though it is never made: the
  -- decision becomes `no_op`, and whatever is decided and remembered in between, for the next 900 s so
  -- does every decision that asks for the same call under the same leading hypothesis, whatever the
  -- mask then allows.
  pub masked_try_blocks :
      (d d' : Decision F) (t t' : F) (av av' : List Call) (tried : List (Cause × Call × F))
      (between : List (Decision F × F))
      → is_recovery d.call ≡ true
      → contains d.call av ≡ false
      → is_repeat d t tried ≡ false
      → all (λ e. lt (sub e.1 t) (lit 900 0)) between ≡ true
      → d'.call ≡ d.call
      → top d'.belief ≡ top d.belief
      → lt (sub t' t) (lit 900 0) ≡ true
      → ((screen d t av tried).call ≡ no_op)
        × ((screen d' t' av' (remember_tries between (remember_try d t tried))).call ≡ no_op)
  masked_try_blocks d d' t t' av av' tried between rec masked fresh times same_call same_top soon =
      let m = remember_tries between (remember_try d t tried) in
      let kept =
        tries-kept (top d.belief) d.call t between (remember_try d t tried) rec
          (tried_at-remember_try d t tried rec fresh) times in
      (
        screen-masked d t av tried fresh masked,
        screen-repeat d' t' av' m
            (is_repeat_of_tried d' t' t m (rw same_call rec) (rw (same_call, same_top) kept) soon),
      )

  -- A call that was tried for the leading hypothesis less than 900 s ago becomes `no_op` if it is
  -- a recovery. If it is a test, `no_op` or the declaration of a lost link, the suppressor leaves
  -- the decision as it is wherever the mask allows the call.
  pub repeat_is_idle :
      (d : Decision F) (t t₀ : F) (av : List Call) (tried : List (Cause × Call × F))
      → tried_at (top d.belief) d.call tried ≡ some t₀
      → lt (sub t t₀) (lit 900 0) ≡ true
      → (is_recovery d.call ≡ true → (screen d t av tried).call ≡ no_op)
        × (is_recovery d.call ≡ false → contains d.call av ≡ true → screen d t av tried ≡ d)
  repeat_is_idle d t t₀ av tried e soon = (
    λ rec. screen-repeat d t av tried (is_repeat_of_tried d t t₀ tried rec e soon),
    λ test allowed. screen-fresh d t av tried (is_repeat_of_test d t tried test) allowed,
  )
