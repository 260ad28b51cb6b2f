-- ===== src/Ori/CacheManager/Dirty/Clean.antt =====
-- After `ensure_all_cache_clean` no block is dirty or being written back.
use itoyori.Prelude.{
  ℕ, ◌≡◌, refl, ap, sym, subst, ◌∙◌, inl, inr, Bool, true, false, List, [], ◌∷◌, some, arith,
  get_elem?, Bool-cases, ==_iff,
}
use mathlib.Core.Bool.{true≢false}
use itoyori.Ori.CacheSystem.{CacheSystem}
use itoyori.Ori.CacheManager.{Config, CacheManager, block_entry, is_empty, is_writing_back, Shared}
use itoyori.Ori.CacheManager.Dirty.{
  no_wins, flush_writebacks, note_clean, writeback_complete, writeback_begin,
  ensure_all_cache_clean,
}
use itoyori.Ori.CacheManager.Dirty.Rounds.{
  Slot, note_clean-same, flush_writebacks-some, flush_writebacks-none,
}
use itoyori.Ori.CacheManager.Dirty.Tracking.{
  Tracked, IsTracked, complete-next, complete-Tracked, loop-IsTracked,
}

-- Nothing is dirty or being written back.
pub record IsClean (m : CacheManager) : Type 0 where
  pub blocks :
      (i : ℕ) (ce : Slot)
      → get_elem? m.cs.entries i ≡ some ce
      → (is_empty ce.entry.dirty_regions ≡ true) × (is_writing_back ce.entry m.cs.outer ≡ false)
  pub no_dirty : m.dirty_cache_blocks ≡ []
  pub none_sent : m.writing_back_wins ≡ []
  pub has_none : m.has_dirty_cache ≡ false

Tracked-clean :
    (o : Shared) (i : ℕ) (ce : Slot)
    → Tracked [] o.writeback_epoch true i (some ce)
    → (is_empty ce.entry.dirty_regions ≡ true) × (is_writing_back ce.entry o ≡ false)
Tracked-clean o i ce t = (
  elim (Bool-cases (is_empty ce.entry.dirty_regions)) [
    | inl e ↦ e
    | inr e ↦ absurd (true≢false (sym (t.0 e)))
  ],
  elim (Bool-cases (is_writing_back ce.entry o)) [
    | inl e ↦ absurd (true≢false (t.2 ((==_iff ce.entry.writeback_epoch o.writeback_epoch).0 e)))
    | inr e ↦ e
  ],
)

no_wins-nil : (ws : List ℕ) → no_wins ws ≡ true → ws ≡ []
no_wins-nil [] h = refl
no_wins-nil (w ∷ ws) h = absurd (true≢false (sym h))

-- A completion leaves nothing under way.
pub complete-none_sent : (m : CacheManager) → (writeback_complete m).writing_back_wins ≡ []
unfolding writeback_complete
complete-none_sent m = elim (Bool-cases (no_wins m.writing_back_wins)) [
  | inl t ↦
      (note_clean-same (flush_writebacks m)).1
      ∙ ap (λ (k : CacheManager). k.writing_back_wins) (flush_writebacks-none m t)
      ∙ no_wins-nil m.writing_back_wins t
  | inr f ↦ (complete-next m f).1
]

complete-idle :
    (m : CacheManager) → no_wins m.writing_back_wins ≡ true → (writeback_complete m).cs ≡ m.cs
unfolding writeback_complete
complete-idle m t =
    (note_clean-same (flush_writebacks m)).0
    ∙ ap (λ (k : CacheManager). k.cs) (flush_writebacks-none m t)

complete-no_dirty :
    (m : CacheManager) → (writeback_complete m).dirty_cache_blocks ≡ m.dirty_cache_blocks
unfolding writeback_complete
complete-no_dirty m =
    (note_clean-same (flush_writebacks m)).3 ∙ elim (Bool-cases (no_wins m.writing_back_wins)) [
      | inl t ↦ ap (λ (k : CacheManager). k.dirty_cache_blocks) (flush_writebacks-none m t)
      | inr f ↦ ap (λ (k : CacheManager). k.dirty_cache_blocks) (flush_writebacks-some m f)
    ]

note_clean-has_none :
    (m : CacheManager)
    → no_wins m.dirty_cache_blocks ≡ true
    → (note_clean m).has_dirty_cache ≡ false
unfolding note_clean
note_clean-has_none m h = ground arith

complete-has_none :
    (m : CacheManager) → m.dirty_cache_blocks ≡ [] → (writeback_complete m).has_dirty_cache ≡ false
unfolding writeback_complete
complete-has_none m h =
    note_clean-has_none (flush_writebacks m) (elim (Bool-cases (no_wins m.writing_back_wins)) [
      | inl t ↦
          ap (λ (k : CacheManager). no_wins k.dirty_cache_blocks) (flush_writebacks-none m t)
          ∙ ap no_wins h
      | inr f ↦
          ap (λ (k : CacheManager). no_wins k.dirty_cache_blocks) (flush_writebacks-some m f)
          ∙ ap no_wins h
    ])

complete-blocks :
    (m : CacheManager)
    → IsTracked [] m
    → (i : ℕ)
    → Tracked []
        (writeback_complete m).cs.outer.writeback_epoch
        true
        i
        (get_elem? (writeback_complete m).cs.entries i)
complete-blocks m v i = elim (Bool-cases (no_wins m.writing_back_wins)) [
  | inl t ↦
      subst
        (λ (c : CacheSystem block_entry).
          Tracked [] c.outer.writeback_epoch true i (get_elem? c.entries i))
        (sym (complete-idle m t))
        (subst (λ (b : Bool). Tracked [] m.cs.outer.writeback_epoch b i (get_elem? m.cs.entries i))
          t (v.blocks i))
  | inr f ↦
      subst
        (λ (ws : List ℕ).
          Tracked [] (writeback_complete m).cs.outer.writeback_epoch (no_wins ws) i
            (get_elem? (writeback_complete m).cs.entries i))
        (complete-none_sent m) (complete-Tracked [] m f (omega (arith, v.epochs_left)) v.blocks i)
]

complete-IsClean :
    (m : CacheManager) → IsTracked [] m → m.dirty_cache_blocks ≡ [] → IsClean (writeback_complete m)
complete-IsClean m v h = record {
  blocks = λ i ce q. Tracked-clean (writeback_complete m).cs.outer i ce (
      subst (Tracked [] (writeback_complete m).cs.outer.writeback_epoch true i) q
        (complete-blocks m v i));
  no_dirty = complete-no_dirty m ∙ h;
  none_sent = complete-none_sent m;
  has_none = complete-has_none m h;
}

begin-IsTracked :
    (g : Config) (m : CacheManager)
    → IsTracked m.dirty_cache_blocks m
    → IsTracked [] (writeback_begin g m) × ((writeback_begin g m).dirty_cache_blocks ≡ [])
unfolding writeback_begin
begin-IsTracked g m v =
    let w = loop-IsTracked g m.dirty_cache_blocks m v in
    (record { blocks = w.blocks; epochs_left = w.epochs_left }, refl)

-- On a manager whose dirty blocks are listed, whose blocks have no later epoch than the current
-- one and of the current one only with a window to flush, and whose epochs do not run out,
-- ensure_all_cache_clean leaves no block dirty or being written back, empty lists and no mark of
-- dirty data.
pub ensure_all_cache_clean-IsClean :
    (g : Config) (m : CacheManager)
    → IsTracked m.dirty_cache_blocks m
    → IsClean (ensure_all_cache_clean g m)
unfolding ensure_all_cache_clean
ensure_all_cache_clean-IsClean g m v =
    let b = begin-IsTracked g m v in complete-IsClean (writeback_begin g m) b.0 b.1
