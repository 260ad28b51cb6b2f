-- ===== src/Ori/HomeManager/Tests.antt =====
-- include/ityr/ori/home_manager.hpp: a run of a manager of two entries, with blocks of 16 bytes and home
-- segments of two blocks.
use itoyori.Prelude.{
  pos, negsuc, IsPositive, get_elem?, sym, ap, subst, ◌∙◌, ℕ, ◌+◌, ◌%◌, ◌<◌, ◌≤◌, ◌≡◌, ◌≢◌, refl,
  ◌⊎◌, true, [], ◌∷◌, Option, none, some, arith,
}
use mathlib.Core.Option
use mathlib.Core.Option.{some-injective}
use itoyori.Ori.HomeManager.Writes.{Slot}
use itoyori.Ori.Tlb.{fill, touch}
use itoyori.Ori.Tlb
use itoyori.Ori.CacheSystem.{
  init, blank, range_from, find, erase, ensure_cached, get_empty_slot, slot_in, map_slot,
  move_to_back, unlink,
}
use itoyori.Ori.CacheSystem
use itoyori.Ori.HomeManager.{
  HomeManager, new_home_manager, checkin_seg, count_down, new_entry, checkout_seg,
  checkout_complete, checkout_fast, get_entry, request, put_entry, map_entries, update_mapping,
  map_to_vm,
}
use itoyori.Ori.HomeManager.Backing.{HomeSegments}
use itoyori.Ori.HomeManager.Reaches.{Reached, new, ask, complete, in_seg}
use itoyori.Ori.HomeManager.Runs.{
  Checked, FastBacked, checkout_seg-Checked, checkout_fast-FastBacked,
}

segments_apart : (a b : ℕ) → a % 32 ≡ 0 → b % 32 ≡ 0 → a ≢ b → (a + 32 ≤ b) ⊎ (b + 32 ≤ a)
segments_apart a b = grind arith

abbrev two_blocks : HomeSegments 16
two_blocks = record {
  IsSegment = λ a. (0 < a) × (a % 32 ≡ 0);
  size_of = λ a. 32;
  pm_of = λ a. 5;
  offset_of = λ a. a + 1000;
  positive = λ a s. s.0;
  aligned = λ a s. omega (arith, s);
  apart = λ a b s t ne. segments_apart a b s.1 t.1 ne;
}

abbrev or_new : Option HomeManager → HomeManager
or_new none = new_home_manager 2 4
or_new (some m) = m

abbrev one_out : HomeManager
one_out = or_new (checkout_seg 16 true true 64 32 5 1064 (new_home_manager 2 4))

one_out_run : checkout_seg 16 true true 64 32 5 1064 (new_home_manager 2 4) ≡ some one_out
unfolding checkout_seg get_entry init blank range_from ensure_cached find get_empty_slot slot_in
one_out_run = refl

one_asked : Reached two_blocks (64 ∷ []) one_out
one_asked = ask 64 (new 2 4) (omega arith, refl) one_out_run

-- Segment 64 waits while segment 96 is checked out.
checkout_seg-Checked_example :
    Checked two_blocks (64 ∷ []) 96 one_out (checkout_seg 16 true true 96 32 5 1096 one_out)
checkout_seg-Checked_example = checkout_seg-Checked two_blocks 96 one_asked (omega arith, refl)

-- The segment is checked in again, which takes its count from 1 to 0.
abbrev all_in : HomeManager
all_in = or_new (checkin_seg 16 true true 64 (checkout_complete 16 true one_out))

all_in_run : checkin_seg 16 true true 64 (checkout_complete 16 true one_out) ≡ some all_in
unfolding checkin_seg checkout_seg get_entry init blank range_from ensure_cached find get_empty_slot
    slot_in request map_slot erase put_entry checkout_complete map_entries update_mapping
    CacheSystem.touch move_to_back unlink
all_in_run = refl

one_found : find 4 (checkout_complete 16 true one_out).cs.table ≡ some 0
unfolding checkout_seg get_entry init blank range_from ensure_cached find get_empty_slot slot_in
    request map_slot erase put_entry checkout_complete map_entries update_mapping CacheSystem.touch
one_found = refl

one_count :
    Option.map
      (λ ce. ce.entry.ref_count)
      (get_elem? (checkout_complete 16 true one_out).cs.entries 0)
    ≡ some (pos 1)
unfolding checkout_seg get_entry init blank range_from ensure_cached find get_empty_slot slot_in
    request map_slot erase put_entry checkout_complete map_entries update_mapping CacheSystem.touch
one_count = refl

all_in-Reached : Reached two_blocks [] all_in
all_in-Reached =
    in_seg true 64 0 (complete one_asked) one_found
      (λ _ ce at.
        let e : some ce.entry.ref_count ≡ some (pos 1) =
          ap (Option.map (λ (c : Slot). c.entry.ref_count)) (sym at) ∙ one_count in
        subst IsPositive (sym (some-injective _ _ e)) (omega arith))
      all_in_run

-- A checkin of what was not counted takes the count below 0.
below_zero : (count_down new_entry).ref_count ≡ negsuc 0
below_zero = refl

mappings_run : (checkout_complete 16 true one_out).mappings ≡ map_to_vm 5 64 32 1064 ∷ []
unfolding checkout_seg get_entry init blank range_from ensure_cached find get_empty_slot slot_in
    request map_slot erase put_entry checkout_complete map_entries update_mapping CacheSystem.touch
mappings_run = refl

fast_run : (checkout_fast 16 true true 70 10 (checkout_complete 16 true one_out)).0 ≡ true
unfolding checkout_seg get_entry init blank range_from ensure_cached find get_empty_slot slot_in
    request map_slot erase put_entry checkout_complete map_entries update_mapping checkout_fast
    Tlb.add Tlb.get Tlb.touch fill CacheSystem.touch move_to_back unlink
fast_run = refl

checkout_fast-FastBacked_example :
    FastBacked two_blocks 70 10
      (checkout_fast 16 true true 70 10 (checkout_complete 16 true one_out))
checkout_fast-FastBacked_example =
    checkout_fast-FastBacked two_blocks true 70 10 (complete one_asked)
