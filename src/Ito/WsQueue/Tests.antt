-- ===== src/Ito/WsQueue/Tests.antt =====
-- Runs of a queue of ten slots, and of the theorems on it.
use itoyori.Prelude.{ℕ, ◌≡◌, refl, inl, true, false, List, [], ◌∷◌, some, arith, replicate}
use itoyori.Ito.WsQueue.{Queue, create, push, pop, pop_locked, steal, trypass}
use itoyori.Ito.WsQueue.Contents.{contents, IsValid, Pushed, Passed}
use itoyori.Ito.WsQueue.Steal.{trypass-Passed}
use itoyori.Ito.WsQueue.Push.{push-Pushed}
use itoyori.Ito.WsQueue.Runs.{
  QueueEvent, pushed, popped, stolen, Run, pushes, pops, steals, done, then_step, Deque, Run-Deque,
}

-- Slots 3 to 9 hold 13 to 19, and there is no slot above them.
abbrev slots : List ℕ
slots = 0 ∷ 0 ∷ 0 ∷ 13 ∷ 14 ∷ 15 ∷ 16 ∷ 17 ∷ 18 ∷ 19 ∷ []

abbrev full_above : Queue ℕ
full_above = record {
  enable_pass = true;
  n_entries = 10;
  initial_pos = 5;
  top = 10;
  base = 3;
  entries = slots;
  local_empty = false;
}

full_above-IsValid : IsValid full_above
full_above-IsValid = record {
  ordered = omega arith;
  bounded = omega arith;
  slots = refl;
  start = omega arith;
  known_empty = λ e f. absurd (ground arith);
}

-- The push moves the entries down by two.
push_runs :
    push 20 full_above
    ≡ some (record full_above {
      top = 9;
      base = 1;
      entries = 0 ∷ 13 ∷ 14 ∷ 15 ∷ 16 ∷ 17 ∷ 18 ∷ 19 ∷ 20 ∷ 19 ∷ [];
    })
unfolding push
push_runs = refl

pop_runs : pop true full_above ≡ some (some 19, record full_above { top = 9 })
unfolding pop
pop_runs = refl

steal_runs : steal full_above ≡ (some 13, record full_above { base = 4 })
unfolding steal
steal_runs = refl

-- The base is 0 with most slots free: the pop moves two entries up by four, to other slots.
abbrev low : Queue ℕ
low = record full_above { top = 2; base = 0; entries = 10 ∷ 11 ∷ replicate 8 0 }

low-IsValid : IsValid low
low-IsValid = record {
  ordered = omega arith;
  bounded = omega arith;
  slots = refl;
  start = omega arith;
  known_empty = λ e f. absurd (ground arith);
}

-- Here an element by element move writes over entries that are still to be moved.
abbrev overlapping : Queue ℕ
overlapping = record full_above {
  top = 6;
  base = 0;
  entries = 10 ∷ 11 ∷ 12 ∷ 13 ∷ 14 ∷ 15 ∷ replicate 4 0;
}

overlapping_run :
    (pop true overlapping)
    ≡ some (
      some 11,
      record overlapping {
        top = 7;
        base = 2;
        entries = 10 ∷ 11 ∷ 10 ∷ 11 ∷ 10 ∷ 11 ∷ 10 ∷ 11 ∷ 0 ∷ 0 ∷ [];
      },
    )
unfolding pop
overlapping_run = refl

push-Pushed_example : Pushed 20 full_above (push 20 full_above)
push-Pushed_example = push-Pushed 20 full_above full_above-IsValid

-- One entry is left.
abbrev single : Queue ℕ
single = record full_above { top = 4 }

pop_locked_runs :
    pop_locked single ≡ (some 13, record single { top = 5; base = 5; local_empty = false })
unfolding pop_locked
pop_locked_runs = refl

single-IsValid : IsValid single
single-IsValid = record {
  ordered = omega arith;
  bounded = omega arith;
  slots = refl;
  start = omega arith;
  known_empty = λ e f. absurd (ground arith);
}

trypass-Passed_example : Passed 12 full_above (trypass 12 full_above)
trypass-Passed_example = trypass-Passed 12 full_above refl full_above-IsValid

-- A queue of three slots without passing: two pushes, a theft and a pop.
abbrev fresh : Queue ℕ
fresh = create false (0 ∷ 0 ∷ 0 ∷ []) 3

abbrev some_events : List (QueueEvent ℕ)
some_events = pushed 1 ∷ pushed 2 ∷ stolen (some 1) ∷ popped (some 2) ∷ []

abbrev one_pushed : Queue ℕ
one_pushed = record {
  enable_pass = false;
  n_entries = 3;
  initial_pos = 0;
  top = 1;
  base = 0;
  entries = 1 ∷ 0 ∷ 0 ∷ [];
  local_empty = false;
}

abbrev two_pushed : Queue ℕ
two_pushed = record one_pushed { top = 2; entries = 1 ∷ 2 ∷ 0 ∷ [] }

abbrev one_stolen : Queue ℕ
one_stolen = record two_pushed { base = 1 }

abbrev all_gone : Queue ℕ
all_gone = record two_pushed { top = 1; base = 1 }

some_events-Run : Run fresh some_events all_gone
unfolding create push pop steal
some_events-Run =
    then_step fresh one_pushed all_gone (pushed 1) _ (pushes 1 fresh one_pushed refl) (
      then_step one_pushed two_pushed all_gone (pushed 2) _ (pushes 2 one_pushed two_pushed refl) (
        then_step two_pushed one_stolen all_gone (stolen (some 1)) _
          (steals (some 1) two_pushed one_stolen refl)
          (then_step one_stolen all_gone all_gone (popped (some 2)) []
            (pops true (some 2) one_stolen all_gone (inl refl) refl) (done all_gone))))

Run-Deque_example : IsValid all_gone × Deque [] some_events (contents all_gone)
Run-Deque_example = Run-Deque false (0 ∷ 0 ∷ 0 ∷ []) some_events all_gone some_events-Run
