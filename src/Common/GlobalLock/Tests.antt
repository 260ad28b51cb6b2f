-- ===== src/Common/GlobalLock/Tests.antt =====
-- A lock that one rank holds while the caller of priolock waits, and then gets it.
use itoyori.Prelude.{refl, [], ◌∷◌}
use itoyori.Common.GlobalLock.{
  Lock, outside, waiting, inside, Reachable, start, next, try, prio_add, prio_poll, leave, initial,
  trylock, priolock_add, priolock_poll, unlock,
}
use itoyori.Common.GlobalLock.Exclusion.{Exclusive, Reachable-Exclusive}

abbrev handed_over : Lock
handed_over = record { word = 1; holders = []; owner = inside }

handed_over-Reachable : Reachable handed_over
unfolding trylock priolock_add priolock_poll unlock
handed_over-Reachable =
    next
      (next
        (next
          (next (next start (try 3 initial))
            (prio_add (record { word = 1; holders = 3 ∷ []; owner = outside }) refl))
          (try 4 (record { word = 2; holders = 3 ∷ []; owner = waiting })))
        (leave 3 [] [] (record { word = 2; holders = 3 ∷ []; owner = waiting }) refl))
      (prio_poll (record { word = 1; holders = []; owner = waiting }) refl)

Reachable-Exclusive_example : Exclusive handed_over
Reachable-Exclusive_example = Reachable-Exclusive handed_over handed_over-Reachable
