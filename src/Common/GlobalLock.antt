-- ===== src/Common/GlobalLock.antt =====
-- include/ityr/common/global_lock.hpp: one lock word of a rank, which the ranks change by remote
-- atomic operations. Each atomic operation is one step; the retries of the loops are further steps.
pub mod Exclusion
mod Tests
use itoyori.Prelude.{
  ℕ, ◌+◌, ◌-◌, ◌≡◌, Bool, true, false, List, [], ◌∷◌, ◌++◌, ltb, ◌==◌, if◌then◌else◌,
}

-- `trylock`: compare-and-swap of 0 by 1; whether it succeeded, and the word after it.
unfoldable pub trylock : ℕ → Bool × ℕ
trylock word = if word == 0 then (true, 1) else (false, word)

-- The fetch-and-add of `priolock`; whether the lock is taken at once.
unfoldable pub priolock_add : ℕ → Bool × ℕ
priolock_add word = (word == 0, word + 1)

-- The test of the loop of `priolock`: whether the lock is taken now.
unfoldable pub priolock_poll : ℕ → Bool
priolock_poll word = word == 1

unfoldable pub unlock : ℕ → ℕ
unlock word = word - 1

unfoldable pub is_locked : ℕ → Bool
is_locked word = ltb 0 word

-- Where the one caller of `priolock` is.
pub data Owner : Type 0 where
  outside waiting inside : Owner

-- The word, the ranks that hold the lock by `lock`, and the caller of `priolock`.
pub record Lock : Type 0 where
  pub word : ℕ
  pub holders : List ℕ
  pub owner : Owner

abbrev pub initial : Lock
initial = record { word = 0; holders = []; owner = outside }

-- What one atomic operation does to the lock and to its caller.
pub data Step : Lock → Lock → Type 0 where
  -- A round of the loop of `lock`.
  try :
      (rank : ℕ) (l : Lock)
      → Step l (record l {
        word = (trylock l.word).1;
        holders = if (trylock l.word).0 then rank ∷ l.holders else l.holders;
      })
  leave :
      (rank : ℕ) (before after : List ℕ) (l : Lock)
      → l.holders ≡ before ++ (rank ∷ after)
      → Step l (record l { word = unlock l.word; holders = before ++ after })
  prio_add :
      (l : Lock)
      → l.owner ≡ outside
      → Step l (record l {
        word = (priolock_add l.word).1;
        owner = if (priolock_add l.word).0 then inside else waiting;
      })
  prio_poll :
      (l : Lock)
      → l.owner ≡ waiting
      → Step l (record l { owner = if priolock_poll l.word then inside else waiting })
  prio_leave :
      (l : Lock) → l.owner ≡ inside → Step l (record l { word = unlock l.word; owner = outside })

pub data Reachable : Lock → Type 0 where
  start : Reachable initial
  next : {l l' : Lock} → Reachable l → Step l l' → Reachable l'
