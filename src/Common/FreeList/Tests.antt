-- ===== src/Common/FreeList/Tests.antt =====
-- Runs of the free list, and the theorems at concrete lists.
use itoyori.Prelude.{◌+◌, ◌<◌, ◌^◌, ◌≡◌, refl, ◌&&◌, ◌||◌, true, false, [], ◌∷◌, none, some, arith}
use itoyori.Common.Pow2.{round_up_pow2}
use itoyori.Common.FreeList.{
  FreeList, entry, get, add, put, merge_next, get_aligned, get_trimmed, count,
}
use itoyori.Common.FreeList.Blocks.{IsCoalesced, free, within}
use itoyori.Common.FreeList.Get.{get_carves}
use itoyori.Common.FreeList.Add.{add_frees, add-get}
use itoyori.Common.FreeList.Aligned.{Served, get_aligned-Served}

abbrev two_blocks : FreeList
two_blocks = entry 100 50 ∷ entry 300 500 ∷ []

two_blocks-IsCoalesced : IsCoalesced two_blocks
two_blocks-IsCoalesced = omega arith

freelist_runs :
    (get 100 (entry 100 920 ∷ []) ≡ some (100, entry 200 820 ∷ []))
    × (get 920 (entry 100 920 ∷ []) ≡ some (100, []))
    × (get 921 (entry 100 920 ∷ []) ≡ none)
    × (add 150 150 two_blocks ≡ entry 100 700 ∷ [])
    × (add 200 50 two_blocks ≡ entry 100 50 ∷ entry 200 50 ∷ entry 300 500 ∷ [])
    × (get_aligned 60 128 two_blocks ≡ (some 384, entry 100 50 ∷ entry 300 84 ∷ entry 444 356 ∷ []))
    × (count two_blocks ≡ 2)
unfolding get add put merge_next get_aligned get_trimmed round_up_pow2 count
freelist_runs = (refl, refl, refl, refl, refl, refl, refl)

get_carves_example :
    IsCoalesced (entry 100 50 ∷ entry 400 400 ∷ [])
    × (300 + 100 < 2 ^ 64)
    × (free two_blocks 420 ≡ (within 300 100 420 || free (entry 100 50 ∷ entry 400 400 ∷ []) 420))
    × ((within 300 100 420 && free (entry 100 50 ∷ entry 400 400 ∷ []) 420) ≡ false)
unfolding get
get_carves_example = get_carves 100 300 two_blocks _ 420 (omega arith) two_blocks-IsCoalesced refl

add_frees_example :
    IsCoalesced (add 150 150 two_blocks) × (free (add 150 150 two_blocks) 200 ≡ true)
add_frees_example =
    add_frees 150 150 two_blocks 200 (omega arith) (λ x. ground arith) two_blocks-IsCoalesced

add-get_example : add 300 100 (entry 100 50 ∷ entry 400 400 ∷ []) ≡ two_blocks
unfolding get
add-get_example = add-get 100 300 two_blocks _ (omega arith) two_blocks-IsCoalesced refl

get_aligned-Served_example : Served 60 (2 ^ 7) two_blocks (get_aligned 60 (2 ^ 7) two_blocks)
get_aligned-Served_example =
    get_aligned-Served 7 60 (omega arith) (omega arith) (omega arith) two_blocks
      two_blocks-IsCoalesced
