-- ===== src/Common/FreeList.antt =====
-- include/ityr/common/freelist.hpp: the free address ranges of an allocator, in address order.
-- std::list is a list, and its iterator the recursion on the rest.
pub mod Blocks
pub mod Get
pub mod Add
pub mod Aligned
mod Tests
use itoyori.Prelude.{
  ℕ, ◌-◌, ◌%◌, List, [], ◌∷◌, Option, none, some, ltb, ◌==◌, if◌then◌else◌, add64, sub64, length,
}
use itoyori.Common.Pow2.{round_up_pow2}

-- `freelist::entry`
pub record Entry : Type 0 where
  pub addr : ℕ
  pub size : ℕ

abbrev pub entry : ℕ → ℕ → Entry
entry a n = record { addr = a; size = n }

abbrev pub FreeList : Type 0
FreeList = List Entry

-- The list behind an entry that a search has passed.
abbrev pub behind : Entry → Option (ℕ × FreeList) → Option (ℕ × FreeList)
behind e none = none
behind e (some (a, fl)) = some (a, e ∷ fl)

-- `get(size)`: the first entry that is large enough gives its front.
pub get : ℕ → FreeList → Option (ℕ × FreeList)
get size [] = none
get size (e ∷ fl) =
    let later = behind e (get size fl) in
    if e.size == size
    then some (e.addr, fl)
    else if ltb size e.size
    then some (e.addr, entry (add64 e.addr size) (sub64 e.size size) ∷ fl)
    else later

-- The last branch of `add`: an entry that has grown up to its successor takes it in.
pub merge_next : Entry → FreeList → FreeList
merge_next e [] = e ∷ []
merge_next e (next ∷ fl) =
    if next.addr == add64 e.addr e.size
    then entry e.addr (add64 e.size next.size) ∷ fl
    else e ∷ next ∷ fl

-- The loop of `add`.
pub put : ℕ → ℕ → FreeList → FreeList
unfolding merge_next
put addr size [] = entry addr size ∷ []
put addr size (e ∷ fl) =
    let later = e ∷ put addr size fl in
    if add64 addr size == e.addr
    then entry addr (add64 e.size size) ∷ fl
    else if ltb (add64 addr size) e.addr
    then entry addr size ∷ e ∷ fl
    else if addr == add64 e.addr e.size
    then merge_next (entry e.addr (add64 e.size size)) fl
    else later

pub add : ℕ → ℕ → FreeList → FreeList
unfolding put
add addr size fl = if size == 0 then fl else put addr size fl

-- The second half of `get(size, alignment)`: a larger block is taken and trimmed at both ends.
pub get_trimmed : ℕ → ℕ → FreeList → Option ℕ × FreeList
unfolding get add round_up_pow2
get_trimmed size alignment fl = elim (get (add64 size alignment) fl) [
  | none ↦ (none, fl)
  | some (addr_got, fl') ↦
      let addr_ret = round_up_pow2 addr_got alignment in
      let end = add64 addr_ret size in
      let rest = sub64 (add64 addr_got (add64 size alignment)) end in
      (some addr_ret, add end rest (add addr_got (sub64 addr_ret addr_got) fl'))
]

-- `get(size, alignment)`, with the list that it leaves.
pub get_aligned : ℕ → ℕ → FreeList → Option ℕ × FreeList
unfolding get add get_trimmed
get_aligned size alignment fl = elim (get size fl) [
  | none ↦ (none, fl)
  | some (s, fl') ↦
      if s % alignment == 0 then (some s, fl') else get_trimmed size alignment (add s size fl')
]

pub count : FreeList → ℕ
count fl = length fl
