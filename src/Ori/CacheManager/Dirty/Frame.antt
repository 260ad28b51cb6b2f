-- ===== src/Ori/CacheManager/Dirty/Frame.antt =====
-- What `ensure_all_cache_clean` leaves alone: all of a block but its dirty regions and its epoch.
use itoyori.Prelude.{
  ℕ, ◌≡◌, refl, ap, sym, subst, ◌∙◌, inl, inr, List, [], ◌∷◌, Option, none, some, get_elem?,
  Bool-cases,
}
use itoyori.Ori.BlockRegions.{Regions}
use itoyori.Ori.CacheSystem.{CacheSystem}
use itoyori.Ori.CacheSystem.Invariant.{set-at, get_elem?-lt}
use itoyori.Ori.CacheManager.{Config, CacheManager, block_entry}
use itoyori.Ori.CacheManager.Dirty.{
  no_wins, flush_writebacks, writeback_complete, writeback_round, writeback_loop, writeback_begin,
  ensure_all_cache_clean,
}
use itoyori.Ori.CacheManager.Dirty.Rounds.{
  Slot, sent, started, note_clean-same, flush_writebacks-some, flush_writebacks-none, round-cases,
  complete-entries,
}

abbrev pub Kept : Option Slot → Option Slot → Type 0
Kept none none = Unit {0}
Kept none (some b) = ⊥
Kept (some a) none = ⊥
Kept (some a) (some b) =
    (d : Regions) × (e : ℕ) × (b
      ≡ record a { entry = record a.entry { dirty_regions = d; writeback_epoch = e } })

Kept-refl : (o : Option Slot) → Kept o o
Kept-refl none = tt
Kept-refl (some a) = (a.entry.dirty_regions, a.entry.writeback_epoch, refl)

Kept-sent :
    (o : Option Slot) (ce : Slot) (epoch : ℕ) → Kept o (some ce) → Kept o (some (sent ce epoch))
Kept-sent none ce epoch k = k
Kept-sent (some a) ce epoch (d, e, q) = ([], epoch, ap (λ (s : Slot). sent s epoch) q)

-- The blocks, the table and the order of use, against those of a first cache.
pub record Framed (cs : CacheSystem block_entry) (m : CacheManager) : Type 0 where
  pub blocks : (i : ℕ) → Kept (get_elem? cs.entries i) (get_elem? m.cs.entries i)
  pub table : m.cs.table ≡ cs.table
  pub lru : m.cs.lru ≡ cs.lru

module _ (cs : CacheSystem block_entry) where
  complete-Framed : (m : CacheManager) → Framed cs m → Framed cs (writeback_complete m)
  unfolding writeback_complete
  complete-Framed m f =
      let s = (note_clean-same (flush_writebacks m)).0 in
      record {
        blocks = λ i.
            subst (λ (es : List Slot). Kept (get_elem? cs.entries i) (get_elem? es i))
              (sym (complete-entries m)) (f.blocks i);
        table =
            ap (λ (c : CacheSystem block_entry). c.table) s
            ∙ elim (Bool-cases (no_wins m.writing_back_wins)) [
              | inl t ↦ ap (λ (k : CacheManager). k.cs.table) (flush_writebacks-none m t)
              | inr t ↦ ap (λ (k : CacheManager). k.cs.table) (flush_writebacks-some m t)
            ]
            ∙ f.table;
        lru =
            ap (λ (c : CacheSystem block_entry). c.lru) s
            ∙ elim (Bool-cases (no_wins m.writing_back_wins)) [
              | inl t ↦ ap (λ (k : CacheManager). k.cs.lru) (flush_writebacks-none m t)
              | inr t ↦ ap (λ (k : CacheManager). k.cs.lru) (flush_writebacks-some m t)
            ]
            ∙ f.lru;
      }

  started-Framed :
      (block_size j : ℕ) (ce : Slot) (m : CacheManager)
      → get_elem? m.cs.entries j ≡ some ce
      → Framed cs m
      → Framed cs (started block_size j ce m)
  started-Framed block_size j ce m q f = record {
    blocks = λ i.
        set-at (Kept (get_elem? cs.entries i)) m.cs.entries j i (sent ce m.cs.outer.writeback_epoch)
          (get_elem?-lt m.cs.entries j ce q)
          (λ same. Kept-sent (get_elem? cs.entries i) ce m.cs.outer.writeback_epoch (
            subst (Kept (get_elem? cs.entries i)) (sym (ap (get_elem? m.cs.entries) same) ∙ q)
              (f.blocks i)))
          (λ apart. f.blocks i);
    table = f.table;
    lru = f.lru;
  }

  round-Framed :
      (g : Config) (j : ℕ) (m : CacheManager) → Framed cs m → Framed cs (writeback_round g j m)
  round-Framed g j m f =
      round-cases (Framed cs) g j m (λ clean. f) (λ ce q w. started-Framed g.block_size j ce m q f)
        (λ ce q w.
          started-Framed g.block_size j ce (writeback_complete m)
            (ap (λ (es : List Slot). get_elem? es j) (complete-entries m) ∙ q)
            (complete-Framed m f))

  loop-Framed :
      (g : Config) (is : List ℕ) (m : CacheManager)
      → Framed cs m
      → Framed cs (writeback_loop g is m)
  unfolding writeback_loop
  loop-Framed g [] m f = f
  loop-Framed g (i ∷ is) m f = loop-Framed g is (writeback_round g i m) (round-Framed g i m f)

  begin-Framed : (g : Config) (m : CacheManager) → Framed cs m → Framed cs (writeback_begin g m)
  unfolding writeback_begin
  begin-Framed g m f =
      let r = loop-Framed g m.dirty_cache_blocks m f in
      record { blocks = r.blocks; table = r.table; lru = r.lru }

-- ensure_all_cache_clean changes no more of a block than its dirty regions and its epoch, and neither
-- the table nor the order of use.
pub ensure_all_cache_clean-Framed :
    (g : Config) (m : CacheManager) → Framed m.cs (ensure_all_cache_clean g m)
unfolding ensure_all_cache_clean
ensure_all_cache_clean-Framed g m = complete-Framed m.cs (writeback_begin g m) (
    begin-Framed m.cs g m
      (record { blocks = λ i. Kept-refl (get_elem? m.cs.entries i); table = refl; lru = refl }))
