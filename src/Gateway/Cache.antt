-- ===== src/Gateway/Cache.antt =====
-- What a call of the gateway leaves in the cache.
use text.Mathlib.Text.{◌==◌ as str_eq}
use text.Mathlib.TextEquality.{eq_iff}
use mathlib.Core.Path.{subst}
use tactical_radio_jamming_s.Base.{
  ℕ, zero, suc, ◌+◌, ◌≡◌, refl, sym, ap, ◌∙◌, String, Bool, true, false, Option, none, some, List,
  [], ◌∷◌, lookup, store, Bool-cases, Option-cases, inl, inr, if◌then◌else◌, arith,
}
use tactical_radio_jamming_s.Gateway.{
  Run, timed_out, not_found, exited, Payload, LlmError, Outcome, answered, failed, Outside,
  Provider, accept, read_reply, finish, complete_once, retried, settle, attempts, cached, serve,
  is_transient, is_ok, last_of,
}

lookup-store :
    (k j : String) (v : String) (m : List (String × String))
    → lookup str_eq k (store str_eq j v m) ≡ (if str_eq k j then some v else lookup str_eq k m)
lookup-store k j v [] = refl
lookup-store k j v ((i, b) ∷ m) = elim (Bool-cases (str_eq j i)) [
  | inl e ↦
      let same : i ≡ j = sym ((eq_iff j i).0 e) in
      rw e (
        subst
          (λ x.
            (if str_eq k x then some v else lookup str_eq k m)
            ≡ (if str_eq k j then some v else if str_eq k x then some b else lookup str_eq k m))
          (sym same) (ground arith))
  | inr e ↦ elim (Bool-cases (str_eq k j)) [
    | inl f ↦
        let other = ap (λ x. str_eq x i) ((eq_iff k j).0 f) ∙ e in
        rw (e, f, other) (lookup-store k j v m ∙ rw f refl)
    | inr f ↦
        rw (e, f) (ap (λ o. if str_eq k i then some b else o) (lookup-store k j v m ∙ rw f refl))
  ]
]

-- The cache is as it was, and holds what it held.
pub record Keeps (p q : Provider) : Type 0 where
  pub cache_eq : q.cache ≡ p.cache
  pub kept : (k v : String) → lookup str_eq k p.files ≡ some v → lookup str_eq k q.files ≡ some v

pub Keeps-refl : (p : Provider) → Keeps p p
Keeps-refl p = record { cache_eq = refl; kept = λ k v h. h }

pub Keeps-trans : {p q r : Provider} → Keeps p q → Keeps q r → Keeps p r
Keeps-trans a b = record {
  cache_eq = b.cache_eq ∙ a.cache_eq;
  kept = λ k v h. b.kept k v (a.kept k v h);
}

-- What becomes of a cache that has nothing at the path: a failure writes nothing, an answer is written.
abbrev pub Written : String → Provider → Outcome → Provider → Type 0
Written path p (answered text) q = p.cache ≡ true → lookup str_eq path q.files ≡ some text
Written path p (failed e) q = q.files ≡ p.files

pub record IsSaved (path : String) (p : Provider) (o : Outcome) (q : Provider) : Type 0 where
  pub keeps : Keeps p q
  pub written : Written path p o q

failure-IsSaved :
    {path : String} {p q : Provider} {e : LlmError}
    → q.cache ≡ p.cache
    → q.files ≡ p.files
    → IsSaved path p (failed e) q
failure-IsSaved c f = record {
  keeps = record { cache_eq = c; kept = λ k v h. ap (lookup str_eq k) f ∙ h };
  written = f;
}

-- the counters do not matter
pub rebase-Keeps :
    {p p' q : Provider} → p'.cache ≡ p.cache → p'.files ≡ p.files → Keeps p' q → Keeps p q
rebase-Keeps c f h = record {
  cache_eq = h.cache_eq ∙ c;
  kept = λ k v e. h.kept k v (ap (lookup str_eq k) f ∙ e);
}

rebase-IsSaved :
    {path : String} {p p' : Provider} (o : Outcome) (q : Provider)
    → p'.cache ≡ p.cache
    → p'.files ≡ p.files
    → IsSaved path p' o q
    → IsSaved path p o q
rebase-IsSaved (answered t) q c f h = record {
  keeps = rebase-Keeps c f h.keeps;
  written = λ on. h.written (c ∙ on);
}
rebase-IsSaved (failed e) q c f h = record {
  keeps = rebase-Keeps c f h.keeps;
  written = h.written ∙ f;
}

module _ {W : Type 0} (out : Outside W) where
  accept-kept :
      (path : String) (j : Payload) (p : Provider)
      → lookup str_eq path p.files ≡ none
      → (k v : String) → lookup str_eq k p.files ≡ some v
      → lookup str_eq k (accept out path j p).files ≡ some v
  accept-kept path j p miss k v h = elim (Bool-cases p.cache) [
    | inr off ↦ rw off h
    | inl on ↦ rw on (
        lookup-store k path j.result p.files ∙ elim (Bool-cases (str_eq k path)) [
          | inr other ↦ rw other h
          | inl same ↦
              let found = sym (ap (λ x. lookup str_eq x p.files) ((eq_iff k path).0 same)) ∙ h in
              absurd (cc)
        ])
  ]

  accept-IsSaved :
      (path : String) (j : Payload) (p : Provider)
      → lookup str_eq path p.files ≡ none
      → IsSaved path p (answered j.result) (accept out path j p)
  accept-IsSaved path j p miss = record {
    keeps = record { cache_eq = refl; kept = accept-kept path j p miss };
    written =
        λ on. rw on (lookup-store path path j.result p.files ∙ rw ((eq_iff path path).1 refl) refl);
  }

  read_reply-IsSaved :
      (path : String) (j : Option Payload) (text : String) (p : Provider)
      → lookup str_eq path p.files ≡ none
      → IsSaved path p (read_reply out path j text p).0 (read_reply out path j text p).1
  read_reply-IsSaved path none text p miss = failure-IsSaved refl refl
  read_reply-IsSaved path (some j) text p miss = elim (Bool-cases j.is_error) [
    | inl e ↦ rw e (failure-IsSaved refl refl)
    | inr e ↦ rw e (accept-IsSaved path j p miss)
  ]

  finish-IsSaved :
      (path : String) (r : Run) (p : Provider)
      → lookup str_eq path p.files ≡ none
      → IsSaved path p (finish out path r p).0 (finish out path r p).1
  finish-IsSaved path timed_out p miss = failure-IsSaved refl refl
  finish-IsSaved path not_found p miss = failure-IsSaved refl refl
  finish-IsSaved path (exited code text why) p miss = elim (Bool-cases (is_ok code)) [
    | inl e ↦
        let h =
          read_reply-IsSaved path (out.loads text) text (record p { calls = p.calls + 1 }) miss in
        rw e (rebase-IsSaved _ _ refl refl h)
    | inr e ↦ rw e (failure-IsSaved refl refl)
  ]

  once-IsSaved :
      (prompt path : String) (p : Provider) (w : W)
      → lookup str_eq path p.files ≡ none
      → let r = complete_once out prompt path p w in IsSaved path p r.0 r.1
  unfolding complete_once
  once-IsSaved prompt path p w miss = finish-IsSaved path (out.run p.system prompt w).0 p miss

  settle-IsSaved :
      (path : String) (p : Provider) (once rest : Outcome × Provider × W)
      → IsSaved path p once.0 once.1
      → ((e : LlmError) → once.0 ≡ failed e → IsSaved path p rest.0 rest.1)
      → IsSaved path p (settle out once rest).0 (settle out once rest).1
  settle-IsSaved path p (answered text, q, w) rest h k = h
  settle-IsSaved path p (failed e, q, w) rest h k = elim (Bool-cases (is_transient out e)) [
    | inl t ↦ rw t (k e refl)
    | inr t ↦ rw t h
  ]

  -- what a failure has left
  unwritten :
      {path : String} {p q : Provider} {o : Outcome} {e : LlmError}
      → o ≡ failed e
      → IsSaved path p o q
      → q.files ≡ p.files
  unwritten {path} {p} {q} is h = subst (λ o. Written path p o q) is h.written

  attempts-IsSaved :
      (n : ℕ) (again : Bool) (last : Option LlmError) (prompt path : String) (p : Provider) (w : W)
      → lookup str_eq path p.files ≡ none
      → let r = attempts out n again last prompt path p w in IsSaved path p r.0 r.1
  unfolding attempts
  attempts-IsSaved zero again last prompt path p w miss = failure-IsSaved refl refl
  attempts-IsSaved (suc n) again last prompt path p w miss =
      let p' = retried out again p in
      let once = complete_once out prompt path p' w in
      let h =
        rebase-IsSaved once.0 once.1 (quiet again).0 (quiet again).1
          (once-IsSaved prompt path p' w (ap (lookup str_eq path) (quiet again).1 ∙ miss)) in
      settle-IsSaved path p once
        (attempts out n true (last_of out once.0) prompt path once.1 once.2) h
        (λ e is.
          let same = unwritten is h in
          rebase-IsSaved _ _ h.keeps.cache_eq same (
            attempts-IsSaved n true (last_of out once.0) prompt path once.1 once.2
              (ap (lookup str_eq path) same ∙ miss)))
    where
      quiet : (b : Bool) → ((retried out b p).cache ≡ p.cache) × ((retried out b p).files ≡ p.files)
      quiet true = (refl, refl)
      quiet false = (refl, refl)

  pub serve-IsSaved :
      (prompt path : String) (p : Provider) (w : W)
      → p.cache ≡ true
      → let r = serve out (cached out p.cache path p.files) prompt path p w in
        IsSaved path p r.0 r.1
  serve-IsSaved prompt path p w on = elim (Option-cases (lookup str_eq path p.files)) [
    | inl miss ↦
        subst
          (λ hit.
            IsSaved path p (serve out hit prompt path p w).0 (serve out hit prompt path p w).1)
          (sym (looked_up ∙ miss)) (attempts-IsSaved p.max_attempts false none prompt path p w miss)
    | inr hit ↦
        subst (λ h. IsSaved path p (serve out h prompt path p w).0 (serve out h prompt path p w).1)
          (sym (looked_up ∙ hit.1))
          (record { keeps = record { cache_eq = refl; kept = λ k v h. h }; written = λ e. hit.1 })
  ]
    where
      looked_up : cached out p.cache path p.files ≡ lookup str_eq path p.files
      looked_up = ap (λ b. cached out b path p.files) on
