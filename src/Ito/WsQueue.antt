-- ===== src/Ito/WsQueue.antt =====
-- include/ityr/ito/wsqueue.hpp: one queue of tasks of a rank. Its owner pushes and pops at the top;
-- thieves steal at the base and pass tasks to it there. Each operation is one atomic step here.
pub mod Slices
pub mod Ranges
pub mod Contents
pub mod Steal
pub mod Move
pub mod Push
pub mod Pop
pub mod Each
pub mod Runs
mod Tests
use itoyori.Prelude.{
  ℕ, zero, suc, ◌+◌, ◌-◌, ◌/◌, Bool, true, false, not, ◌&&◌, ◌||◌, List, [], ◌∷◌, Option, none,
  some, ltb, leb, ◌==◌, if◌then◌else◌, set, get_elem?,
}

module _ (A : Type 0) where
  -- `top` and `base` of queue_state, the slots of `entries_win_`, and the constants of the queue.
  pub record Queue : Type 0 where
    pub enable_pass : Bool
    pub n_entries : ℕ
    pub initial_pos : ℕ
    pub top : ℕ
    pub base : ℕ
    pub entries : List A
    pub local_empty : Bool

-- An `int offset`, up or down.
pub data Offset : Type 0 where
  up down : ℕ → Offset

-- `i + offset`; none is a negative sum.
pub shift : Offset → ℕ → Option ℕ
shift (up k) i = some (i + k)
shift (down k) i = if ltb i k then none else some (i - k)

pub is_zero : Offset → Bool
is_zero (up k) = k == 0
is_zero (down k) = k == 0

module _ {A : Type 0} where
  -- The constructor, at slots with values that are never read.
  pub create : Bool → List A → ℕ → Queue A
  create enable_pass slots n_entries =
      let initial_pos = if enable_pass then n_entries / 2 else 0 in
      record {
        enable_pass = enable_pass;
        n_entries = n_entries;
        initial_pos = initial_pos;
        top = initial_pos;
        base = initial_pos;
        entries = slots;
        local_empty = false;
      }

  -- `std::move(first, last, d_first)`: element by element, in ascending order.
  pub move_range : ℕ → ℕ → ℕ → List A → List A
  move_range zero src dst l = l
  move_range (suc k) src dst l = elim (get_elem? l src) [
    | none ↦ l
    | some x ↦ move_range k (suc src) (suc dst) (set l dst x)
  ]

  -- `none` is wsqueue_full_exception. A negative `new_t` has a negative `new_b`.
  pub move_entries : Offset → Queue A → Option (Queue A)
  unfolding shift is_zero move_range
  move_entries offset q = elim (shift offset q.base) [
    | none ↦ none
    | some new_b ↦ elim (shift offset q.top) [
      | none ↦ none
      | some new_t ↦
          if is_zero offset || ltb q.n_entries new_t
          then none
          else some (record q {
            top = new_t;
            base = new_b;
            entries = move_range (q.top - q.base) q.base new_b q.entries;
          })
    ]
  ]

  -- `push`: at the end of the slots the entries move down; `none` is the exception.
  make_room : Queue A → Option (Queue A)
  unfolding move_entries
  make_room q = if q.top == q.n_entries then move_entries (down ((q.base + 1) / 2)) q else some q

  put_top : A → Queue A → Queue A
  put_top x q = record q {
    entries = set q.entries q.top x;
    top = q.top + 1;
    local_empty = q.local_empty && q.enable_pass;
  }

  pub push : A → Queue A → Option (Queue A)
  unfolding make_room put_top
  push x q = elim (make_room q) [ none ↦ none | some q' ↦ some (put_top x q') ]

  -- The first part of `pop`: the entries move up when the base comes close to 0.
  pub keep_room_below : Queue A → Option (Queue A)
  unfolding move_entries
  keep_room_below q =
      if q.enable_pass
        && ltb q.base (q.n_entries / 10)
        && ltb (q.n_entries / 10) (q.n_entries - q.top)
      then move_entries (up ((q.n_entries - q.top + 1) / 2)) q
      else some q

  -- Both ends go back, and a queue that nobody passes to stays known to be empty.
  reset : Queue A → Queue A
  reset q = record q {
    top = q.initial_pos;
    base = q.initial_pos;
    local_empty = q.local_empty || not q.enable_pass;
  }

  -- `pop` with the lock taken, at the ends that it then reads; its `t` is `top - 1`.
  pub pop_locked : Queue A → Option A × Queue A
  unfolding reset
  pop_locked q =
      if ltb (q.base + 1) q.top
      then (get_elem? q.entries (q.top - 1), record q { top = q.top - 1 })
      else if q.base + 1 == q.top
      then (get_elem? q.entries (q.top - 1), reset q)
      else (none, reset q)

  -- The rest of `pop`; `b <= t` is the first comparison.
  take_top : Queue A → Option A × Queue A
  unfolding pop_locked
  take_top q =
      if ltb q.base q.top
      then (get_elem? q.entries (q.top - 1), record q { top = q.top - 1 })
      else pop_locked q

  pub is_empty : Queue A → Bool
  is_empty q = leb q.top q.base

  -- The early returns of `pop<EnsureEmpty>`, and then the entry at the top.
  take_checked : Bool → Queue A → Option A × Queue A
  unfolding take_top is_empty
  take_checked ensure_empty q =
      if not q.enable_pass && q.local_empty
      then (none, q)
      else if not ensure_empty && is_empty q
      then (none, q)
      else take_top q

  -- `pop<EnsureEmpty>`; `none` is an exception of `move_entries`.
  pub pop : Bool → Queue A → Option (Option A × Queue A)
  unfolding keep_room_below take_checked
  pop ensure_empty q = elim (keep_room_below q) [
    | none ↦ none
    | some q' ↦ some (take_checked ensure_empty q')
  ]

  -- `steal` and `steal_nolock`: the base is advanced first and put back if there is no entry.
  pub steal : Queue A → Option A × Queue A
  steal q =
      let advanced = record q { base = q.base + 1 } in
      if ltb q.base advanced.top
      then (get_elem? q.entries q.base, advanced)
      else (none, record advanced { base = advanced.base - 1 })

  pub abort_steal : Queue A → Queue A
  abort_steal q = record q { base = q.base - 1 }

  -- `trypass` of a queue that allows it.
  pub trypass : A → Queue A → Bool × Queue A
  trypass x q =
      if q.base == 0
      then (false, q)
      else (true, record q { entries = set q.entries (q.base - 1) x; base = q.base - 1 })

  -- `size`
  pub count : Queue A → ℕ
  count q = q.top - q.base

  -- The loop of `for_each_entry` from slot `i` for `k` slots, on the state that the function changes.
  each_from : {S : Type 0} → (A → S → S) → ℕ → ℕ → List A → S → S
  each_from f zero i l s = s
  each_from f (suc k) i l s = elim (get_elem? l i) [
    | none ↦ s
    | some x ↦ each_from f k (i + 1) l (f x s)
  ]

  pub for_each_entry : {S : Type 0} → Bool → (A → S → S) → Queue A → S → S
  unfolding each_from is_empty
  for_each_entry ensure_empty f q s =
      if not q.enable_pass && q.local_empty
      then s
      else if not ensure_empty && is_empty q
      then s
      else each_from f (q.top - q.base) q.base q.entries s
