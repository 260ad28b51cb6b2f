-- ===== src/Ori/Core/Ranges.antt =====
-- include/ityr/ori/core.hpp: the calls for a range of an allocation and the homes of its bytes.
use mathlib.Core.Option
use mathlib.Core.Option.{some-injective, none-ne-some}
use native.Mathlib.Decide.{dec_lt}
use Prim.{Unit, tt}
use itoyori.Prelude.{
  ℕ, zero, suc, ◌+◌, ◌-◌, ◌%◌, ◌^◌, ◌≤◌, ◌<◌, ◌≡◌, refl, sym, ap, ap₂, subst, ◌∙◌, inl, inr, Bool,
  true, false, List, [], ◌∷◌, ◌++◌, Option, none, some, ltb, ltb→lt, arith, Bool-cases,
}
use itoyori.Ori.MemMapper.{Segment}
use itoyori.Ori.MemMapper.Walk.{
  Mapper, Tiles, Follow, walk, for_each_mem_segment, for_each_mem_segment-Tiles,
}
use itoyori.Ori.Core.{Call, segment_calls, all_calls, for_each_seg_blk}
use itoyori.Ori.Core.Homes.{
  targets, targets-append, home_of, by_segment, by_segment-inside, by_segment-outside, Sends, low,
  segment-Sends,
}

map-some :
    {A B : Type 0} (f : A → B) (o : Option A) (b : B)
    → Option.map f o ≡ some b
    → (a : A) × (o ≡ some a) × (f a ≡ b)
map-some f none b e = absurd (none-ne-some b e)
map-some f (some a) b e = (a, refl, some-injective (f a) b e)

module _ (m : Mapper) where
  open m use {effective_size, get_segment}

  -- A segment that the mapper gives.
  Of : Segment → Type 0
  Of s = (o : ℕ) × (o < effective_size) × (get_segment o ≡ s)

  AllOf : List Segment → Type 0
  AllOf [] = Unit
  AllOf (s ∷ ss) = Of s × AllOf ss

  walk-less :
      (fuel o e : ℕ)
      → ltb o e ≡ true
      → walk get_segment (suc fuel) o e
        ≡ Option.map
            (λ rest. get_segment o ∷ rest)
            (walk get_segment fuel (get_segment o).offset_e e)
  unfolding walk
  walk-less fuel o e t = rw (t, walk) refl

  walk-end : (fuel o e : ℕ) → ltb o e ≡ false → walk get_segment (suc fuel) o e ≡ some []
  unfolding walk
  walk-end fuel o e f = rw (f, walk) refl

  walk-out : (o e : ℕ) → walk get_segment zero o e ≡ none
  unfolding walk
  walk-out o e = refl

  as_walk :
      (o size : ℕ)
      → for_each_mem_segment get_segment o size ≡ walk get_segment (suc size) o (o + size)
  unfolding for_each_mem_segment
  as_walk o size = refl

  walk-AllOf :
      (fuel o e : ℕ) (ss : List Segment)
      → e ≤ effective_size
      → walk get_segment fuel o e ≡ some ss
      → AllOf ss
  unfolding AllOf Of
  walk-AllOf zero o e ss h w = absurd (none-ne-some ss (sym (walk-out o e) ∙ w))
  walk-AllOf (suc fuel) o e ss h w = elim (Bool-cases (ltb o e)) [
    | inr f ↦ subst AllOf (some-injective [] ss (sym (walk-end fuel o e f) ∙ w)) tt
    | inl t ↦
        let (rest, more, all_) =
          map-some _ (walk get_segment fuel (get_segment o).offset_e e) ss
            (sym (walk-less fuel o e t) ∙ w) in
        subst AllOf all_ (
          (o, omega (arith, ltb→lt o e t), refl),
          walk-AllOf fuel (get_segment o).offset_e e rest h more,
        )
  ]

  module _ (k vm_addr : ℕ) (locally_accessible : ℕ → Bool) where
    by_segments : ℕ → List Segment → List (ℕ × ℕ)
    by_segments x [] = []
    by_segments x (s ∷ ss) = by_segment (2 ^ k) vm_addr locally_accessible x s ++ by_segments x ss

    before-Follow :
        (x o e : ℕ) (ss : List Segment) → x < vm_addr + o → Follow o e ss → by_segments x ss ≡ []
    unfolding by_segments
    before-Follow x o e [] h f = refl
    before-Follow x o e (s ∷ ss) h f =
        ap₂ (λ xs ys. xs ++ ys)
          (by_segment-outside (2 ^ k) vm_addr locally_accessible x s (inl (omega (arith, f))))
          (before-Follow x s.offset_e e ss (omega (arith, f)) f.3)

    the_segment : (s : Segment) (y : ℕ) → Of s → s.offset_b ≤ y → y < s.offset_e → get_segment y ≡ s
    unfolding Of
    the_segment s y (o, h, e) l r =
        m.uniform o y h (subst (λ (t : Segment). t.offset_b ≤ y) (sym e) l)
          (subst (λ (t : Segment). y < t.offset_e) (sym e) r)
        ∙ e

    found :
        (y e : ℕ) (s : Segment) (ss : List Segment)
        → Of s
        → s.offset_b ≤ y
        → y < s.offset_e
        → Follow s.offset_e e ss
        → by_segments (vm_addr + y) (s ∷ ss) ≡ home_of (get_segment y) y ∷ []
    unfolding by_segments
    found y e s ss is l r f =
        ap₂ (λ xs ys. xs ++ ys)
          (by_segment-inside (2 ^ k) vm_addr locally_accessible (vm_addr + y) s (omega arith)
            (omega arith))
          (before-Follow (vm_addr + y) s.offset_e e ss (omega arith) f)
        ∙ ap₂ (λ (t : Segment) (z : ℕ). home_of t z ∷ []) (sym (the_segment s y is l r))
            (omega arith)

    Follow-home :
        (y o e : ℕ) (ss : List Segment)
        → AllOf ss
        → o ≤ y
        → y < e
        → Follow o e ss
        → by_segments (vm_addr + y) ss ≡ home_of (get_segment y) y ∷ []
    unfolding by_segments AllOf
    Follow-home y o e [] all_ l r f = absurd (omega (arith, f))
    Follow-home y o e (s ∷ ss) all_ l r f = elim (dec_lt y s.offset_e) [
      | yes p ↦ found y e s ss all_.0 (omega (arith, f)) p f.3
      | no p ↦
          ap₂ (λ xs ys. xs ++ ys)
            (by_segment-outside (2 ^ k) vm_addr locally_accessible (vm_addr + y) s
              (inr (omega arith)))
            (Follow-home y s.offset_e e ss all_.1 (omega arith) r f.3)
    ]

    Tiles-home :
        (y o e : ℕ) (ss : List Segment)
        → AllOf ss
        → o ≤ y
        → y < e
        → Tiles o e ss
        → by_segments (vm_addr + y) ss ≡ home_of (get_segment y) y ∷ []
    unfolding by_segments AllOf
    Tiles-home y o e [] all_ l r f = absurd (omega (arith, f))
    Tiles-home y o e (s ∷ ss) all_ l r f = elim (dec_lt y s.offset_e) [
      | yes p ↦ found y e s ss all_.0 (omega (arith, f)) p f.3
      | no p ↦
          ap₂ (λ xs ys. xs ++ ys)
            (by_segment-outside (2 ^ k) vm_addr locally_accessible (vm_addr + y) s
              (inr (omega arith)))
            (Follow-home y s.offset_e e ss all_.1 (omega arith) r f.3)
    ]

    -- What the loop needs of the range and of the allocation.
    pub record InAllocation (addr size : ℕ) : Type 0 where
      pub small : k < 64
      pub vm_aligned :
          (o : ℕ) → o < effective_size → (vm_addr + (get_segment o).offset_b) % 2 ^ k ≡ 0
      pub not_empty : 0 < size
      pub above : vm_addr ≤ addr
      pub inside : addr + size ≤ vm_addr + effective_size
      pub fits : vm_addr + effective_size ≤ 2 ^ 64

    Of-Sends :
        (addr size : ℕ) (s : Segment)
        → InAllocation addr size
        → Of s
        → Sends (2 ^ k) vm_addr locally_accessible addr size s
    unfolding Of low
    Of-Sends addr size s a (o, h, e) =
        subst (Sends (2 ^ k) vm_addr locally_accessible addr size) e (
          let held = m.holds o h in
          segment-Sends (2 ^ k) vm_addr locally_accessible k addr size (get_segment o) refl a.small
            (a.vm_aligned o h) (omega (arith, held))
            (omega (arith, held, a.not_empty, a.inside, a.fits)))

    all_calls-step :
        (addr size : ℕ) (s : Segment) (ss : List Segment) (cs rest : List Call)
        → segment_calls (2 ^ k) vm_addr locally_accessible addr size s ≡ some cs
        → all_calls (2 ^ k) vm_addr locally_accessible addr size ss ≡ some rest
        → all_calls (2 ^ k) vm_addr locally_accessible addr size (s ∷ ss) ≡ some (cs ++ rest)
    unfolding all_calls
    all_calls-step addr size s ss cs rest e f = rw (e, all_calls) (ap (Option.map (λ r. cs ++ r)) f)

    AllSent : ℕ → ℕ → List Segment → Type 0
    AllSent addr size ss =
        (cs : List Call) × (all_calls (2 ^ k) vm_addr locally_accessible addr size ss ≡ some cs)
        × ((x : ℕ) → addr ≤ x → x < addr + size → targets x cs ≡ by_segments x ss)

    all_sent :
        (addr size : ℕ) (ss : List Segment)
        → InAllocation addr size
        → AllOf ss
        → AllSent addr size ss
    unfolding AllSent AllOf all_calls targets by_segments Sends
    all_sent addr size [] a all_ = ([], refl, λ x l r. refl)
    all_sent addr size (s ∷ ss) a all_ =
        let (cs, e, here) = Of-Sends addr size s a all_.0 in
        let (rest, f, there) = all_sent addr size ss a all_.1 in
        (
          cs ++ rest,
          all_calls-step addr size s ss cs rest e f,
          λ x l r. targets-append x cs rest ∙ ap₂ (λ xs ys. xs ++ ys) (here x l r) (there x l r),
        )

    for_each_seg_blk-some :
        (addr size : ℕ) (ss : List Segment) (cs : List Call)
        → for_each_mem_segment get_segment (addr - vm_addr) size ≡ some ss
        → all_calls (2 ^ k) vm_addr locally_accessible addr size ss ≡ some cs
        → for_each_seg_blk (2 ^ k) vm_addr locally_accessible get_segment addr size ≡ some cs
    unfolding for_each_seg_blk
    for_each_seg_blk-some addr size ss cs e f = rw (e, for_each_seg_blk) f

    -- For a nonempty range inside an allocation of any mapper that keeps the contract, whose
    -- segments begin at multiples of a block size 2 ^ k with k < 64 and whose addresses are below
    -- 2 ^ 64, for_each_seg_blk ends, and each byte of the range is connected by exactly one of
    -- its calls, to the rank and the place there that its segment gives.
    pub for_each_seg_blk-home_of :
        (addr size : ℕ)
        → InAllocation addr size
        → (cs : List Call) × (for_each_seg_blk
              (2 ^ k)
              vm_addr
              locally_accessible
              get_segment
              addr
              size
            ≡ some cs)
          × ((x : ℕ)
              → addr ≤ x
              → x < addr + size
              → targets x cs ≡ home_of (get_segment (x - vm_addr)) (x - vm_addr) ∷ [])
    unfolding AllSent
    for_each_seg_blk-home_of addr size a =
        let (ss, e, tiles) =
          for_each_mem_segment-Tiles m (addr - vm_addr) size (omega (arith, a.above, a.inside)) in
        let (cs, f, sent) = all_sent addr size ss a (from_walk ss e) in
        (
          cs,
          for_each_seg_blk-some addr size ss cs e f,
          λ x l r.
              sent x l r
              ∙ ap (λ (y : ℕ). by_segments y ss) (back x (omega (arith, a.above)))
              ∙ Tiles-home (x - vm_addr) (addr - vm_addr) (addr - vm_addr + size) ss
                  (from_walk ss e) (omega (arith, a.above)) (omega (arith, a.above)) tiles,
        )
      where
        from_walk :
            (ss : List Segment)
            → for_each_mem_segment get_segment (addr - vm_addr) size ≡ some ss
            → AllOf ss
        from_walk ss e =
            walk-AllOf (suc size) (addr - vm_addr) (addr - vm_addr + size) ss
              (omega (arith, a.above, a.inside)) (sym (as_walk (addr - vm_addr) size) ∙ e)

        back : (x : ℕ) → vm_addr ≤ x → x ≡ vm_addr + (x - vm_addr)
        back x h = omega arith
