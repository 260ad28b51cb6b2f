-- ===== src/Ori/Core/Homes.antt =====
-- include/ityr/ori/core.hpp: each byte of a range and the place that the loops over segments and blocks
-- send it to.
use mathlib.Core.List.{append_assoc, append-nil}
use native.Mathlib.Decide.{dec_lt}
use native.Mathlib.Nat.{one-le-pow}
use itoyori.Prelude.{
  ℕ, ◌+◌, ◌-◌, ◌%◌, ◌^◌, max, min, ◌≤◌, ◌<◌, ◌≡◌, refl, sym, ap, ap₂, subst, ◌∙◌, ◌⊎◌, inl, inr,
  Bool, true, false, List, [], ◌∷◌, ◌++◌, map, some, if◌then◌else◌, arith, Bool-cases,
}
use itoyori.Common.Pow2.{round_down_pow2}
use itoyori.Common.Pow2.Masks.{round_down_pow2_nearest}
use itoyori.Ori.MemMapper.{Segment}
use itoyori.Ori.Core.{
  BlockCall, Call, home_seg, cache_blk, cache_call, segment_calls, for_each_block,
}
use itoyori.Ori.Core.Blocks.{
  within, within-true, within-false, covers, covering, OneBlock, next_multiple,
  for_each_block-Requested,
}

-- The rank and the offset in its memory that a call connects a byte to.
unfoldable pub target_of : ℕ → Call → List (ℕ × ℕ)
target_of x (home_seg seg_addr seg_size owner pm_offset) =
    if within seg_addr (seg_addr + seg_size) x then (owner, pm_offset + (x - seg_addr)) ∷ [] else []
target_of x (cache_blk blk_addr req_addr_b req_addr_e owner pm_offset) =
    if within req_addr_b req_addr_e x then (owner, pm_offset + (x - blk_addr)) ∷ [] else []

unfoldable pub targets : ℕ → List Call → List (ℕ × ℕ)
unfolding target_of
targets x [] = []
targets x (c ∷ cs) = target_of x c ++ targets x cs

-- Where a segment has an offset of the allocation.
abbrev pub home_of : Segment → ℕ → ℕ × ℕ
home_of seg o = (seg.owner, seg.pm_offset + (o - seg.offset_b))

pub targets-append :
    (x : ℕ) (cs ds : List Call) → targets x (cs ++ ds) ≡ targets x cs ++ targets x ds
unfolding targets
targets-append x [] ds = refl
targets-append x (c ∷ cs) ds =
    ap (λ rest. target_of x c ++ rest) (targets-append x cs ds)
    ∙ sym (append_assoc (target_of x c) (targets x cs) (targets x ds))

module _ (block_size vm_addr : ℕ) (locally_accessible : ℕ → Bool) where
  place_of : ℕ → Segment → ℕ → BlockCall → ℕ × ℕ
  place_of x seg seg_addr b =
      (seg.owner, seg.pm_offset + (b.blk_addr - seg_addr) + (x - b.blk_addr))

  targets-cache_call :
      (x : ℕ) (seg : Segment) (seg_addr : ℕ) (bs : List BlockCall)
      → targets x (map (cache_call block_size vm_addr locally_accessible seg seg_addr) bs)
        ≡ map (place_of x seg seg_addr) (covering x bs)
  unfolding targets covering covers cache_call place_of
  targets-cache_call x seg seg_addr [] = refl
  targets-cache_call x seg seg_addr (b ∷ bs) =
      elim (Bool-cases (within b.req_addr_b b.req_addr_e x)) [
        | inl e ↦
            rw e
              (ap (λ rest. place_of x seg seg_addr b ∷ rest) (targets-cache_call x seg seg_addr bs))
        | inr e ↦ rw e (targets-cache_call x seg seg_addr bs)
      ]

  -- The place of a byte by a segment, if the segment has it.
  unfoldable pub by_segment : ℕ → Segment → List (ℕ × ℕ)
  by_segment x seg =
      if within (vm_addr + seg.offset_b) (vm_addr + seg.offset_e) x
      then home_of seg (x - vm_addr) ∷ []
      else []

  unfoldable pub Sends : ℕ → ℕ → Segment → Type 0
  Sends addr size seg =
      (calls : List Call) × (segment_calls block_size vm_addr locally_accessible addr size seg
        ≡ some calls)
      × ((x : ℕ) → addr ≤ x → x < addr + size → targets x calls ≡ by_segment x seg)

  home_segment :
      (addr size : ℕ) (seg : Segment)
      → seg.offset_b ≤ seg.offset_e
      → locally_accessible seg.owner ≡ true
      → Sends addr size seg
  unfolding Sends segment_calls targets by_segment
  home_segment addr size seg h near = (
    home_seg (vm_addr + seg.offset_b) (seg.offset_e - seg.offset_b) seg.owner seg.pm_offset ∷ [],
    rw near refl,
    λ x l r.
        append-nil _
        ∙ ap₂
            (λ (end_ place : ℕ).
              if within (vm_addr + seg.offset_b) end_ x
              then (seg.owner, seg.pm_offset + place) ∷ []
              else [])
            (same_end h) (same_place x),
  )
    where
      same_end :
          seg.offset_b ≤ seg.offset_e
          → vm_addr + seg.offset_b + (seg.offset_e - seg.offset_b) ≡ vm_addr + seg.offset_e
      same_end le = omega arith

      same_place : (x : ℕ) → x - (vm_addr + seg.offset_b) ≡ x - vm_addr - seg.offset_b
      same_place x = omega arith

  in_segment :
      (x seg_addr : ℕ) (seg : Segment) (bs : List BlockCall) (start : ℕ)
      → seg_addr ≡ vm_addr + seg.offset_b
      → seg_addr ≤ start
      → OneBlock block_size start x bs
      → map (place_of x seg seg_addr) (covering x bs) ≡ home_of seg (x - vm_addr) ∷ []
  unfolding place_of
  in_segment x seg_addr seg bs start e h o =
      ap (map (place_of x seg seg_addr)) o.only
      ∙ ap (λ (n : ℕ). (seg.owner, n) ∷ []) (omega (arith, o.from, o.below))

  pub by_segment-inside :
      (x : ℕ) (seg : Segment)
      → vm_addr + seg.offset_b ≤ x
      → x < vm_addr + seg.offset_e
      → by_segment x seg ≡ home_of seg (x - vm_addr) ∷ []
  unfolding by_segment
  by_segment-inside x seg l h =
      rw (within-true (vm_addr + seg.offset_b) (vm_addr + seg.offset_e) x l h) refl

  pub by_segment-outside :
      (x : ℕ) (seg : Segment)
      → (x < vm_addr + seg.offset_b) ⊎ (vm_addr + seg.offset_e ≤ x)
      → by_segment x seg ≡ []
  unfolding by_segment
  by_segment-outside x seg out =
      rw (within-false (vm_addr + seg.offset_b) (vm_addr + seg.offset_e) x out) refl

  -- The part of the request that a segment has.
  unfoldable pub low : ℕ → Segment → ℕ
  low addr seg = max (vm_addr + seg.offset_b) addr

  high : ℕ → ℕ → Segment → ℕ
  high addr size seg = min (vm_addr + seg.offset_b + (seg.offset_e - seg.offset_b)) (addr + size)

  segment_calls-remote :
      (addr size : ℕ) (seg : Segment) (bs : List BlockCall)
      → locally_accessible seg.owner ≡ false
      → for_each_block block_size (low addr seg) (high addr size seg - low addr seg) ≡ some bs
      → segment_calls block_size vm_addr locally_accessible addr size seg
        ≡ some
            (map (cache_call block_size vm_addr locally_accessible seg (vm_addr + seg.offset_b)) bs)
  unfolding segment_calls low high
  segment_calls-remote addr size seg bs far e = rw (far, e) refl

  append_nothing : (xs ys : List (ℕ × ℕ)) → ys ≡ [] → xs ++ ys ≡ xs
  append_nothing xs ys e = ap (λ zs. xs ++ zs) e ∙ append-nil xs

  remote_segment :
      (k addr size : ℕ) (seg : Segment)
      → block_size ≡ 2 ^ k
      → k < 64
      → (vm_addr + seg.offset_b) % block_size ≡ 0
      → seg.offset_b ≤ seg.offset_e
      → low addr seg < 2 ^ 64
      → locally_accessible seg.owner ≡ false
      → Sends addr size seg
  unfolding Sends low high
  remote_segment k addr size seg eb hk aligned h fits far =
      let lo = low addr seg in
      let near = round_down_pow2_nearest k lo hk fits in
      let (bs, e, inside, outside) =
        for_each_block-Requested k lo (high addr size seg - lo) hk fits in
      let start : vm_addr + seg.offset_b ≤ round_down_pow2 lo (2 ^ k) =
        not_below (vm_addr + seg.offset_b) (round_down_pow2 lo (2 ^ k))
          (subst (λ b. (vm_addr + seg.offset_b) % b ≡ 0) eb aligned) near.0 (omega (arith, near)) in
      (
        map (cache_call block_size vm_addr locally_accessible seg (vm_addr + seg.offset_b)) bs,
        segment_calls-remote addr size seg bs far
            (ap (λ b. for_each_block b lo (high addr size seg - lo)) eb ∙ e),
        λ x l r.
            targets-cache_call x seg (vm_addr + seg.offset_b) bs
            ∙ elim (dec_lt x (vm_addr + seg.offset_b)) [
              | yes p ↦
                  ap (map (place_of x seg (vm_addr + seg.offset_b))) (outside x (inl (omega arith)))
                  ∙ sym (by_segment-outside x seg (inl p))
              | no p ↦ elim (dec_lt x (vm_addr + seg.offset_e)) [
                | yes q ↦
                    in_segment x (vm_addr + seg.offset_b) seg bs (round_down_pow2 lo (2 ^ k)) refl
                      start
                      (subst (λ b. OneBlock b (round_down_pow2 lo (2 ^ k)) x bs) (sym eb)
                        (inside x (omega arith) (omega arith)))
                    ∙ sym (by_segment-inside x seg (omega arith) q)
                | no q ↦
                    ap (map (place_of x seg (vm_addr + seg.offset_b)))
                      (outside x (inr (omega arith)))
                    ∙ sym (by_segment-outside x seg (inr (omega arith)))
              ]
            ],
      )
    where
      not_below : (a r : ℕ) → a % 2 ^ k ≡ 0 → r % 2 ^ k ≡ 0 → a < r + 2 ^ k → a ≤ r
      not_below a r ea er lt = elim (dec_lt r a) [
        | yes p ↦
            absurd (omega (arith, next_multiple (2 ^ k) a r (one-le-pow k 2 (omega arith)) ea er p))
        | no p ↦ omega arith
      ]

  pub segment-Sends :
      (k addr size : ℕ) (seg : Segment)
      → block_size ≡ 2 ^ k
      → k < 64
      → (vm_addr + seg.offset_b) % block_size ≡ 0
      → seg.offset_b ≤ seg.offset_e
      → low addr seg < 2 ^ 64
      → Sends addr size seg
  segment-Sends k addr size seg eb hk aligned h fits =
      elim (Bool-cases (locally_accessible seg.owner)) [
        | inl near ↦ home_segment addr size seg h near
        | inr far ↦ remote_segment k addr size seg eb hk aligned h fits far
      ]
