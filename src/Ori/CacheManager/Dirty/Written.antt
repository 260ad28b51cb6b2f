-- ===== src/Ori/CacheManager/Dirty/Written.antt =====
-- Every dirty byte reaches its home: a put of it, and after that a flush of its window.
use itoyori.Prelude.{
  ℕ, ◌+◌, ◌-◌, ◌*◌, ◌≡◌, refl, sym, inl, inr, Bool, true, false, ◌&&◌, ◌||◌, List, [], ◌∷◌, ◌++◌,
  arith, Bool-cases, ◌==◌, ltb, leb,
}
use mathlib.Core.Bool.{true≢false}
use itoyori.Ori.BlockRegions.{Region, Regions}
use itoyori.Ori.BlockRegions.Covers.{covers, inside}
use itoyori.Ori.CacheManager.{
  CacheBlock, Transfer, Event, get_nb, put_nb, flush, unmap, map_to_vm, insert_unique, sort_unique,
  flush_all, add_puts, transfer,
}
use itoyori.Ori.CacheManager.Dirty.Tracking.{listed}

-- A byte of the cache and its home.
pub record Place : Type 0 where
  pub win : ℕ
  pub owner : ℕ
  pub disp : ℕ
  pub cache_pos : ℕ

-- The transfer takes the byte to its home.
abbrev pub moves : Place → Transfer → Bool
moves p t =
    t.win == p.win
    && t.owner == p.owner
    && leb t.disp p.disp
    && ltb p.disp (t.disp + t.bytes)
    && p.cache_pos == t.cache_pos + (p.disp - t.disp)

-- The events, the newest first, have a put of the byte with a flush of its window after it; `flushed`
-- says that there is a flush after all of them.
abbrev pub written : Place → Bool → List Event → Bool
written p done [] = false
written p done (get_nb t ∷ log) = written p done log
written p done (put_nb t ∷ log) = (done && moves p t) || written p done log
written p done (flush w ∷ log) = written p (done || w == p.win) log
written p done (unmap a ∷ log) = written p done log
written p done (map_to_vm a c ∷ log) = written p done log

written_mono :
    (p : Place) (done : Bool) (log : List Event)
    → written p done log ≡ true
    → written p true log ≡ true
written_mono p true log h = h
written_mono p false [] h = h
written_mono p false (get_nb t ∷ log) h = written_mono p false log h
written_mono p false (put_nb t ∷ log) h = ground (arith, written_mono p false log h)
written_mono p false (flush w ∷ log) h = written_mono p (w == p.win) log h
written_mono p false (unmap a ∷ log) h = written_mono p false log h
written_mono p false (map_to_vm a c ∷ log) h = written_mono p false log h

written-or :
    (p : Place) (done more : Bool) (log : List Event)
    → written p done log ≡ true
    → written p (done || more) log ≡ true
written-or p true more log h = h
written-or p false true log h = written_mono p false log h
written-or p false false log h = h

-- More flushes and puts take nothing back.
pub written-flush_all :
    (p : Place) (done : Bool) (ws : List ℕ) (log : List Event)
    → written p done log ≡ true
    → written p done (flush_all ws log) ≡ true
unfolding flush_all
written-flush_all p done [] log h = h
written-flush_all p done (w ∷ ws) log h =
    written-flush_all p done ws (flush w ∷ log) (written-or p done (w == p.win) log h)

pub written-add_puts :
    (p : Place) (done : Bool) (block_size : ℕ) (cb : CacheBlock) (rs : Regions) (log : List Event)
    → written p done log ≡ true
    → written p done (add_puts block_size cb rs log) ≡ true
unfolding add_puts
written-add_puts p done block_size cb [] log h = h
written-add_puts p done block_size cb (r ∷ rs) log h =
    written-add_puts p done block_size cb rs (put_nb (transfer block_size cb r) ∷ log)
      (rw h (or-true (done && moves p (transfer block_size cb r))))
  where
    or-true : (b : Bool) → (b || true) ≡ true
    or-true true = refl
    or-true false = refl

-- A flush of the window completes what has been put.
pub flush_all-written :
    (p : Place) (ws : List ℕ) (log : List Event)
    → listed p.win ws ≡ true
    → written p true log ≡ true
    → written p false (flush_all ws log) ≡ true
unfolding flush_all
flush_all-written p [] log l h = absurd (true≢false (sym l))
flush_all-written p (w ∷ ws) log l h = elim (Bool-cases (p.win == w)) [
  | inl e ↦
      let f : (w == p.win) ≡ true = ground arith in
      written-flush_all p false ws (flush w ∷ log) (rw f h)
  | inr e ↦ flush_all-written p ws (flush w ∷ log) (ground arith) h
]

-- The home of the byte `x` of a block.
abbrev pub home : ℕ → CacheBlock → ℕ → Place
home block_size cb x = record {
  win = cb.win;
  owner = cb.owner;
  disp = cb.pm_offset + x;
  cache_pos = cb.entry_idx * block_size + x;
}

home-moves :
    (block_size : ℕ) (cb : CacheBlock) (x : ℕ) (r : Region)
    → inside r x ≡ true
    → moves (home block_size cb x) (transfer block_size cb r) ≡ true
home-moves block_size cb x r h =
    let d : cb.pm_offset + x - (cb.pm_offset + r.begin) ≡ x - r.begin = omega arith in
    ground (arith, h, d)

pub add_puts-written :
    (block_size : ℕ) (cb : CacheBlock) (x : ℕ) (rs : Regions) (log : List Event)
    → covers rs x ≡ true
    → written (home block_size cb x) true (add_puts block_size cb rs log) ≡ true
unfolding add_puts
add_puts-written block_size cb x [] log h = absurd (true≢false (sym h))
add_puts-written block_size cb x (r ∷ rs) log h = elim (Bool-cases (inside r x)) [
  | inl e ↦
      written-add_puts (home block_size cb x) true block_size cb rs
        (put_nb (transfer block_size cb r) ∷ log)
        (let f = home-moves block_size cb x r e in rw f refl)
  | inr e ↦
      add_puts-written block_size cb x rs (put_nb (transfer block_size cb r) ∷ log) (ground arith)
]

pub add_puts-append :
    (block_size : ℕ) (cb : CacheBlock) (rs : Regions) (new old : List Event)
    → add_puts block_size cb rs (new ++ old) ≡ add_puts block_size cb rs new ++ old
unfolding add_puts
add_puts-append block_size cb [] new old = refl
add_puts-append block_size cb (r ∷ rs) new old =
    add_puts-append block_size cb rs (put_nb (transfer block_size cb r) ∷ new) old

pub flush_all-append :
    (ws : List ℕ) (new old : List Event) → flush_all ws (new ++ old) ≡ flush_all ws new ++ old
unfolding flush_all
flush_all-append [] new old = refl
flush_all-append (w ∷ ws) new old = flush_all-append ws (flush w ∷ new) old

listed-insert_unique :
    (v w : ℕ) (ws : List ℕ) → (v == w || listed v ws) ≡ true → listed v (insert_unique w ws) ≡ true
unfolding insert_unique
listed-insert_unique v w [] h = h
listed-insert_unique v w (u ∷ us) h = ground (arith, listed-insert_unique v w us)

pub listed-sort_unique :
    (v : ℕ) (ws : List ℕ) → listed v ws ≡ true → listed v (sort_unique ws) ≡ true
unfolding sort_unique
listed-sort_unique v [] h = h
listed-sort_unique v (w ∷ ws) h =
    listed-insert_unique v w (sort_unique ws) (ground (arith, listed-sort_unique v ws))
