-- ===== src/Percept/Ring/Tests.antt =====
-- The ring at work.
use tactical_radio_jamming_s.Base.{ℕ, ◌≡◌, refl, arith, [], ◌∷◌}
use tactical_radio_jamming_s.Percept.Ring.{Ring, new, push, values}
use tactical_radio_jamming_s.Percept.Ring.Queue.{
  IsValid, enqueue, new-IsValid, push-IsValid, values-push,
}

-- three pushes on a ring of two places
abbrev pushed : Ring ℕ
pushed = push 7 (push 5 (push 3 (new 0 2)))

values_test : values pushed ≡ 5 ∷ 7 ∷ []
unfolding values push new
values_test = refl

pushed-IsValid : IsValid pushed
pushed-IsValid =
    push-IsValid 7 _ (push-IsValid 5 _ (push-IsValid 3 _ (new-IsValid 0 2 (omega arith))))

pushes_nine : IsValid (push 9 pushed)
pushes_nine = push-IsValid 9 pushed pushed-IsValid

values-push_example : values (push 9 pushed) ≡ enqueue 2 9 (values pushed)
unfolding push new
values-push_example = values-push 9 pushed pushed-IsValid
