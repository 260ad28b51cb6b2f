-- ===== src/Ori/CacheManager/Dirty/Tracking.antt =====
-- The bookkeeping of a write-back: which blocks may be dirty, and which are being written back.
use itoyori.Prelude.{
  ℕ, ◌+◌, ◌^◌, ◌≤◌, ◌<◌, ◌≡◌, refl, ap, sym, subst, ◌∙◌, Bool, true, false, ◌||◌, List, [], ◌∷◌,
  Option, none, some, arith, get_elem?, length, ◌==◌, ==_iff, add64,
}
use mathlib.Core.Bool.{true≢false}
use itoyori.Ori.CacheSystem.{CacheSystem}
use itoyori.Ori.CacheSystem.Invariant.{set-at, get_elem?-lt}
use itoyori.Ori.CacheManager.{Config, CacheManager, block_entry, is_empty, is_writing_back}
use itoyori.Ori.CacheManager.Dirty.{
  no_wins, flush_writebacks, writeback_complete, writeback_round, writeback_loop,
}
use itoyori.Ori.CacheManager.Dirty.Rounds.{
  Slot, sent, started, note_clean-same, flushed, flush_writebacks-some, round-cases,
  complete-entries,
}

abbrev pub listed : ℕ → List ℕ → Bool
listed i [] = false
listed i (j ∷ js) = i == j || listed i js

-- A dirty block is in the list, no write-back has a later epoch than the current one, and one of the
-- current epoch has a window in the list of those to flush.
abbrev pub Tracked : List ℕ → ℕ → Bool → ℕ → Option Slot → Type 0
Tracked rest epoch nothing_sent i none = Unit {0}
Tracked rest epoch nothing_sent i (some ce) =
    (is_empty ce.entry.dirty_regions ≡ false → listed i rest ≡ true)
    × (ce.entry.writeback_epoch ≤ epoch)
    × (ce.entry.writeback_epoch ≡ epoch → nothing_sent ≡ false)

-- The invariant of the write-back, where `rest` are the blocks that it has still to look at; each of
-- them may end an epoch, a word of 64 bits.
pub record IsTracked (rest : List ℕ) (m : CacheManager) : Type 0 where
  pub blocks :
      (i : ℕ)
      → Tracked rest m.cs.outer.writeback_epoch
          (no_wins m.writing_back_wins)
          i
          (get_elem? m.cs.entries i)
  pub epochs_left : m.cs.outer.writeback_epoch + length rest + 1 < 2 ^ 64

-- A completion where something is under way begins an epoch with no write-back.
Tracked-next :
    (rest : List ℕ) (epoch i : ℕ) (b : Bool) (o : Option Slot)
    → epoch + 1 < 2 ^ 64
    → Tracked rest epoch b i o
    → Tracked rest (add64 epoch 1) true i o
Tracked-next rest epoch i b none h t = tt
Tracked-next rest epoch i b (some ce) h t =
    (t.0, omega (arith, t.1), λ e. absurd (omega (arith, t.1)))

Tracked-skip :
    (rest : List ℕ) (j epoch i : ℕ) (b : Bool) (o : Option Slot)
    → ((ce : Slot) → o ≡ some ce → i ≡ j → is_empty ce.entry.dirty_regions ≡ true)
    → Tracked (j ∷ rest) epoch b i o
    → Tracked rest epoch b i o
Tracked-skip rest j epoch i b none h t = tt
Tracked-skip rest j epoch i b (some ce) h t = (λ d. ground (arith, h ce refl, t.0 d, d), t.1, t.2)

Tracked-sent :
    (rest : List ℕ) (epoch i : ℕ) (b : Bool) (o : Option Slot)
    → Tracked rest epoch b i o
    → Tracked rest epoch false i o
Tracked-sent rest epoch i b none t = tt
Tracked-sent rest epoch i b (some ce) t = (t.0, t.1, λ e. refl)

-- The write-back of a listed block.
Tracked-started :
    (block_size j : ℕ) (ce : Slot) (rest : List ℕ) (m : CacheManager)
    → get_elem? m.cs.entries j ≡ some ce
    → ((i : ℕ)
        → Tracked
            (j ∷ rest)
            m.cs.outer.writeback_epoch
            (no_wins m.writing_back_wins)
            i
            (get_elem? m.cs.entries i))
    → (i : ℕ)
    → Tracked rest m.cs.outer.writeback_epoch false i
        (get_elem? (started block_size j ce m).cs.entries i)
Tracked-started block_size j ce rest m e h i =
    set-at (Tracked rest m.cs.outer.writeback_epoch false i) m.cs.entries j i
      (sent ce m.cs.outer.writeback_epoch) (get_elem?-lt m.cs.entries j ce e)
      (λ same. (λ d. absurd (true≢false d), omega arith, λ _. refl))
      (λ apart.
        Tracked-sent rest m.cs.outer.writeback_epoch i (no_wins m.writing_back_wins)
          (get_elem? m.cs.entries i)
          (Tracked-skip rest j m.cs.outer.writeback_epoch i (no_wins m.writing_back_wins)
            (get_elem? m.cs.entries i) (λ c q same. absurd (apart (sym same))) (h i)))

-- `writeback_complete` begins an epoch in which nothing is written back, if something was before.
pub complete-next :
    (m : CacheManager)
    → no_wins m.writing_back_wins ≡ false
    → ((writeback_complete m).cs ≡ (flushed m).cs) × ((writeback_complete m).writing_back_wins ≡ [])
unfolding writeback_complete
complete-next m h =
    let f = flush_writebacks-some m h in
    let s = note_clean-same (flush_writebacks m) in
    (
      s.0 ∙ ap (λ (k : CacheManager). k.cs) f,
      s.1 ∙ ap (λ (k : CacheManager). k.writing_back_wins) f,
    )

pub complete-Tracked :
    (rest : List ℕ) (m : CacheManager)
    → no_wins m.writing_back_wins ≡ false
    → m.cs.outer.writeback_epoch + 1 < 2 ^ 64
    → ((i : ℕ)
        → Tracked rest m.cs.outer.writeback_epoch
            (no_wins m.writing_back_wins)
            i
            (get_elem? m.cs.entries i))
    → (i : ℕ)
    → Tracked rest
        (writeback_complete m).cs.outer.writeback_epoch
        (no_wins (writeback_complete m).writing_back_wins)
        i
        (get_elem? (writeback_complete m).cs.entries i)
complete-Tracked rest m h f t i =
    let e = complete-next m h in
    subst
      (λ (c : CacheSystem block_entry).
        Tracked rest c.outer.writeback_epoch (no_wins (writeback_complete m).writing_back_wins) i
          (get_elem? c.entries i))
      (sym e.0)
      (subst
        (λ (ws : List ℕ).
          Tracked rest (add64 m.cs.outer.writeback_epoch 1) (no_wins ws) i
            (get_elem? m.cs.entries i))
        (sym e.1)
        (Tracked-next rest m.cs.outer.writeback_epoch i (no_wins m.writing_back_wins)
          (get_elem? m.cs.entries i) f (t i)))

complete-epoch :
    (m : CacheManager)
    → no_wins m.writing_back_wins ≡ false
    → (writeback_complete m).cs.outer.writeback_epoch ≡ add64 m.cs.outer.writeback_epoch 1
complete-epoch m h =
    ap (λ (c : CacheSystem block_entry). c.outer.writeback_epoch) (complete-next m h).0

-- A block that is being written back has its window in the list.
pub under_way :
    (rest : List ℕ) (m : CacheManager) (i : ℕ) (ce : Slot)
    → IsTracked rest m
    → get_elem? m.cs.entries i ≡ some ce
    → is_writing_back ce.entry m.cs.outer ≡ true
    → no_wins m.writing_back_wins ≡ false
under_way rest m i ce v q w =
    let t : Tracked rest m.cs.outer.writeback_epoch (no_wins m.writing_back_wins) i (some ce) =
      subst (Tracked rest m.cs.outer.writeback_epoch (no_wins m.writing_back_wins) i) q
        (v.blocks i) in
    t.2 ((==_iff ce.entry.writeback_epoch m.cs.outer.writeback_epoch).0 w)

round-IsTracked :
    (g : Config) (i : ℕ) (rest : List ℕ) (m : CacheManager)
    → IsTracked (i ∷ rest) m
    → IsTracked rest (writeback_round g i m)
round-IsTracked g i rest m v =
    round-cases (IsTracked rest) g i m
      (λ clean. record {
        blocks = λ k.
            Tracked-skip rest i _ k _ (get_elem? m.cs.entries k)
              (λ ce q same. clean ce (subst (λ (j : ℕ). get_elem? m.cs.entries j ≡ some ce) same q))
              (v.blocks k);
        epochs_left = omega (arith, v.epochs_left);
      })
      (λ ce q w. record {
        blocks = Tracked-started g.block_size i ce rest m q v.blocks;
        epochs_left = omega (arith, v.epochs_left);
      })
      (λ ce q w.
        let h = under_way (i ∷ rest) m i ce v q w in
        let same = ap (λ (es : List Slot). get_elem? es i) (complete-entries m) ∙ q in
        let e = complete-epoch m h in
        record {
          blocks =
              Tracked-started g.block_size i ce rest (writeback_complete m) same
                (complete-Tracked (i ∷ rest) m h (omega (arith, v.epochs_left)) v.blocks);
          epochs_left = omega (arith, v.epochs_left);
        })

pub loop-IsTracked :
    (g : Config) (rest : List ℕ) (m : CacheManager)
    → IsTracked rest m
    → IsTracked [] (writeback_loop g rest m)
unfolding writeback_loop
loop-IsTracked g [] m v = v
loop-IsTracked g (i ∷ rest) m v =
    loop-IsTracked g rest (writeback_round g i m) (round-IsTracked g i rest m v)
