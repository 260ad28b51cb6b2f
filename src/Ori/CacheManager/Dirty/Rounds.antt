-- ===== src/Ori/CacheManager/Dirty/Rounds.antt =====
-- What one round of a write-back does to the blocks, the windows and the events.
use itoyori.Prelude.{
  ℕ, ◌≡◌, refl, ap, sym, ◌∙◌, subst, inl, inr, true, false, List, [], ◌∷◌, some, arith, get_elem?,
  set, Bool-cases, Option-cases, add64,
}
use mathlib.Core.Option.{some-injective}
use itoyori.Ori.CacheSystem.{CacheEntry, CacheSystem}
use itoyori.Ori.CacheManager.{
  Config, CacheBlock, CacheManager, block_entry, is_empty, is_writing_back, sort_unique, flush_all,
  put_block, add_puts,
}
use itoyori.Ori.CacheManager.Dirty.{
  no_wins, flush_writebacks, note_clean, writeback_complete, start_writeback, writeback_begin_block,
  writeback_round,
}

abbrev pub Slot : Type 0
Slot = CacheEntry block_entry

pub put_block-some :
    (i : ℕ) (cb : CacheBlock) (m : CacheManager) (ce : Slot)
    → get_elem? m.cs.entries i ≡ some ce
    → put_block i cb m
      ≡ record m { cs = record m.cs { entries = set m.cs.entries i (record ce { entry = cb }) } }
unfolding put_block
put_block-some i cb m ce e = rw (e, put_block) refl

-- The block whose write-back has just begun.
abbrev pub sent : Slot → ℕ → Slot
sent ce epoch = record ce {
  entry = record ce.entry { dirty_regions = []; writeback_epoch = epoch };
}

abbrev pub started : ℕ → ℕ → Slot → CacheManager → CacheManager
started block_size i ce m = record m {
  events = add_puts block_size ce.entry ce.entry.dirty_regions m.events;
  writing_back_wins = ce.entry.win ∷ m.writing_back_wins;
  cs = record m.cs { entries = set m.cs.entries i (sent ce m.cs.outer.writeback_epoch) };
}

start_writeback-some :
    (block_size i : ℕ) (m : CacheManager) (ce : Slot)
    → get_elem? m.cs.entries i ≡ some ce
    → start_writeback block_size i ce.entry m ≡ started block_size i ce m
unfolding start_writeback
start_writeback-some block_size i m ce e =
    put_block-some i _
      (record m {
        events = add_puts block_size ce.entry ce.entry.dirty_regions m.events;
        writing_back_wins = ce.entry.win ∷ m.writing_back_wins;
      })
      ce e

-- A completion touches no block.
pub note_clean-same :
    (m : CacheManager)
    → ((note_clean m).cs ≡ m.cs)
      × ((note_clean m).writing_back_wins ≡ m.writing_back_wins)
      × ((note_clean m).events ≡ m.events)
      × ((note_clean m).dirty_cache_blocks ≡ m.dirty_cache_blocks)
unfolding note_clean
note_clean-same m = ground arith

-- The flushed manager.
abbrev pub flushed : CacheManager → CacheManager
flushed m = record m {
  events = flush_all (sort_unique m.writing_back_wins) m.events;
  writing_back_wins = [];
  cs = record m.cs {
    outer = record m.cs.outer { writeback_epoch = add64 m.cs.outer.writeback_epoch 1 };
  };
}

pub flush_writebacks-some :
    (m : CacheManager) → no_wins m.writing_back_wins ≡ false → flush_writebacks m ≡ flushed m
unfolding flush_writebacks
flush_writebacks-some m h = rw (h, flush_writebacks) refl

pub flush_writebacks-none :
    (m : CacheManager) → no_wins m.writing_back_wins ≡ true → flush_writebacks m ≡ m
unfolding flush_writebacks
flush_writebacks-none m h = rw (h, flush_writebacks) refl

pub complete-entries : (m : CacheManager) → (writeback_complete m).cs.entries ≡ m.cs.entries
unfolding writeback_complete
complete-entries m =
    ap (λ (c : CacheSystem block_entry). c.entries) (note_clean-same (flush_writebacks m)).0
    ∙ elim (Bool-cases (no_wins m.writing_back_wins)) [
      | inl t ↦ ap (λ (k : CacheManager). k.cs.entries) (flush_writebacks-none m t)
      | inr f ↦ ap (λ (k : CacheManager). k.cs.entries) (flush_writebacks-some m f)
    ]

-- The ways in which a round ends.
pub round-cases {ℓ} :
    (P : CacheManager → Type ℓ) (g : Config) (i : ℕ) (m : CacheManager)
    → (((ce : Slot) → get_elem? m.cs.entries i ≡ some ce → is_empty ce.entry.dirty_regions ≡ true)
        → P m)
    → ((ce : Slot)
        → get_elem? m.cs.entries i ≡ some ce
        → is_writing_back ce.entry m.cs.outer ≡ false
        → P (started g.block_size i ce m))
    → ((ce : Slot)
        → get_elem? m.cs.entries i ≡ some ce
        → is_writing_back ce.entry m.cs.outer ≡ true
        → P (started g.block_size i ce (writeback_complete m)))
    → P (writeback_round g i m)
unfolding writeback_round writeback_begin_block
round-cases P g i m nothing first again = elim (Option-cases (get_elem? m.cs.entries i)) [
  | inl e ↦ rw (e, writeback_round) (nothing (λ ce h. ground arith))
  | inr (ce, e) ↦
      rw (e, writeback_round)
        (elim (Bool-cases (is_empty ce.entry.dirty_regions)) [
          | inl z ↦ rw z (
              nothing (λ ce' h.
                subst (λ (c : Slot). is_empty c.entry.dirty_regions ≡ true)
                  (some-injective ce ce' (sym e ∙ h)) z))
          | inr z ↦ rw z (elim (Bool-cases (is_writing_back ce.entry m.cs.outer)) [
            | inl w ↦ rw w (
                subst P
                  (sym (
                    start_writeback-some g.block_size i (writeback_complete m) ce
                      (ap (λ (es : List Slot). get_elem? es i) (complete-entries m) ∙ e)))
                  (again ce e w))
            | inr w ↦
                rw w (subst P (sym (start_writeback-some g.block_size i m ce e)) (first ce e w))
          ])
        ])
]
