-- ===== src/Gateway/Replay.antt =====
-- The cache of the gateway over a sequence of prompts.
use text.Mathlib.Text.{◌==◌ as str_eq}
use mathlib.Core.Path.{subst}
use tactical_radio_jamming_s.Base.{
  ◌+◌, ◌≡◌, refl, ap, ◌∙◌, String, true, Option, none, some, List, [], ◌∷◌, lookup,
}
use tactical_radio_jamming_s.Gateway.{answered, Outside, Provider, cached, serve, complete}
use tactical_radio_jamming_s.Gateway.Cache.{
  Keeps, Keeps-refl, Keeps-trans, rebase-Keeps, Written, serve-IsSaved,
}

module _ {W : Type 0} (out : Outside W) where
  complete-Keeps :
      (prompt : String) (system : Option String) (p : Provider) (w : W)
      → p.cache ≡ true
      → Keeps p (complete out prompt system p w).1
  unfolding complete
  complete-Keeps prompt none p w on = (serve-IsSaved out prompt _ p w on).keeps
  complete-Keeps prompt (some s) p w on =
      rebase-Keeps refl refl (serve-IsSaved out prompt _ (record p { system = some s }) w on).keeps

  -- prompts, one after the other
  abbrev pub completes : List (String × Option String) → Provider → W → Provider × W
  completes [] p w = (p, w)
  completes ((prompt, system) ∷ rest) p w =
      let r = complete out prompt system p w in completes rest r.1 r.2

  completes-Keeps :
      (asked : List (String × Option String)) (p : Provider) (w : W)
      → p.cache ≡ true
      → Keeps p (completes asked p w).0
  completes-Keeps [] p w on = Keeps-refl p
  completes-Keeps ((prompt, system) ∷ rest) p w on =
      let first = complete-Keeps prompt system p w on in
      Keeps-trans first (completes-Keeps rest _ _ (first.cache_eq ∙ on))

  answer_written :
      (prompt s : String) (p : Provider) (w : W) {text : String}
      → p.cache ≡ true
      → (complete out prompt (some s) p w).0 ≡ answered text
      → lookup str_eq (out.key (some s) prompt) (complete out prompt (some s) p w).1.files
        ≡ some text
  unfolding complete
  answer_written prompt s p w {text} on is =
      let h =
        serve-IsSaved out prompt (out.key (some s) prompt) (record p { system = some s }) w on in
      subst
        (λ o.
          Written (out.key (some s) prompt) (record p { system = some s }) o
            (complete out prompt (some s) p w).1)
        is h.written on

  -- With the cache on, once a prompt with its system prompt was answered, then whatever else is asked
  -- in between and whatever has become of the world, it is answered by the same text, without a call of
  -- the program: only a hit is counted.
  pub complete_replays :
      (prompt s : String) (p : Provider) (w : W) {text : String}
      → p.cache ≡ true
      → (complete out prompt (some s) p w).0 ≡ answered text
      → (asked : List (String × Option String)) (w₁ w₂ : W)
      → let q = (completes asked (complete out prompt (some s) p w).1 w₁).0 in
        complete out prompt (some s) q w₂
        ≡ (answered text, record q { system = some s; cache_hits = q.cache_hits + 1 }, w₂)
  unfolding complete
  complete_replays prompt s p w {text} on is asked w₁ w₂ =
      let first = complete-Keeps prompt (some s) p w on in
      let on₁ = first.cache_eq ∙ on in
      let rest = completes-Keeps asked (complete out prompt (some s) p w).1 w₁ on₁ in
      hit prompt s (completes asked (complete out prompt (some s) p w).1 w₁).0 w₂
        (rest.cache_eq ∙ on₁) (rest.kept _ _ (answer_written prompt s p w on is))
    where
      hit :
          (prompt s : String) (q : Provider) (w : W)
          → q.cache ≡ true
          → lookup str_eq (out.key (some s) prompt) q.files ≡ some text
          → complete out prompt (some s) q w
            ≡ (answered text, record q { system = some s; cache_hits = q.cache_hits + 1 }, w)
      hit prompt s q w on h =
          ap (λ o. serve out o prompt (out.key (some s) prompt) (record q { system = some s }) w)
            (ap (λ b. cached out b (out.key (some s) prompt) q.files) on ∙ h)
