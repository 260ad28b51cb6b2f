-- ===== src/Ori/MemMapper/Walk.antt =====
-- `for_each_mem_segment` of include/ityr/ori/coll_mem.hpp: the segments of a range of offsets, in
-- order, over any mapper that keeps the contract of mem_mapper::base.
use itoyori.Prelude.{
  ℕ, zero, suc, ◌+◌, ◌-◌, ◌≤◌, ◌<◌, ◌≡◌, refl, sym, ap, ◌∙◌, inl, inr, true, false, Option, none,
  some, List, [], ◌∷◌, arith, ltb, Bool-cases, ltb→lt,
}
use native.Mathlib.Decide.{dec_lt}
use mathlib.Core.Option
use itoyori.Ori.MemMapper.{Segment}

-- What the walk needs of a mapper: each segment has the offset that it was asked for, and every
-- offset of a segment has that segment.
pub record Mapper : Type 0 where
  pub effective_size : ℕ
  pub get_segment : ℕ → Segment
  pub holds :
      (o : ℕ)
      → o < effective_size
      → ((get_segment o).offset_b ≤ o)
        × (o < (get_segment o).offset_e)
        × ((get_segment o).offset_e ≤ effective_size)
  pub uniform :
      (o o' : ℕ)
      → o < effective_size
      → (get_segment o).offset_b ≤ o'
      → o' < (get_segment o).offset_e
      → get_segment o' ≡ get_segment o

module _ (get_segment : ℕ → Segment) where
  -- The segments that `fn` is called on; `none` means that the fuel ran out.
  unfoldable pub walk : ℕ → ℕ → ℕ → Option (List Segment)
  walk zero offset offset_e = none
  walk (suc fuel) offset offset_e =
      let rest = walk fuel (get_segment offset).offset_e offset_e in
      elim (ltb offset offset_e) [
        | true ↦ Option.map (◌∷◌ (get_segment offset)) rest
        | false ↦ some []
      ]

  -- One round for each byte and one for the last test.
  unfoldable pub for_each_mem_segment : ℕ → ℕ → Option (List Segment)
  unfolding walk
  for_each_mem_segment offset_b size = walk (suc size) offset_b (offset_b + size)

-- The segments follow one another without a gap from `o` up to the first that reaches `e`.
abbrev pub Follow : ℕ → ℕ → List Segment → Type 0
Follow o e [] = e ≤ o
Follow o e (s ∷ ss) = (s.offset_b ≡ o) × (o < s.offset_e) × (o < e) × Follow s.offset_e e ss

-- The same with a first segment that may begin before `o`.
abbrev pub Tiles : ℕ → ℕ → List Segment → Type 0
Tiles o e [] = e ≤ o
Tiles o e (s ∷ ss) = (s.offset_b ≤ o) × (o < s.offset_e) × (o < e) × Follow s.offset_e e ss

module _ (m : Mapper) where
  open m use {effective_size, get_segment}

  -- A segment that is followed by another ends where that one begins.
  next-begin :
      (o : ℕ)
      → o < effective_size
      → (get_segment o).offset_e < effective_size
      → (get_segment (get_segment o).offset_e).offset_b ≡ (get_segment o).offset_e
  next-begin o h k =
      let s = m.holds o h in
      let e = (get_segment o).offset_e in
      let t = m.holds e k in
      let before = m.uniform o (e - 1) h (omega (arith, s)) (omega (arith, s)) in
      elim (dec_lt (get_segment e).offset_b e) [
        | yes p ↦
            let after = m.uniform e (e - 1) k (omega (arith, s)) (omega (arith, t, s)) in
            absurd (omega (arith, t, ap (λ (x : Segment). x.offset_e) (sym before ∙ after)))
        | no p ↦ omega (arith, t)
      ]

  walk-Follow :
      (fuel o e : ℕ)
      → e ≤ effective_size
      → e - o < fuel
      → (o < e → (get_segment o).offset_b ≡ o)
      → (ss : List Segment) × (walk get_segment fuel o e ≡ some ss) × Follow o e ss
  unfolding walk
  walk-Follow zero o e h k b = absurd (omega arith)
  walk-Follow (suc fuel) o e h k b = elim (Bool-cases (ltb o e)) [
    | inr f ↦ rw (f, walk) ([], refl, ground arith)
    | inl t ↦
        let l : o < e = ltb→lt o e t in
        let s = m.holds o (omega arith) in
        let next =
          walk-Follow fuel (get_segment o).offset_e e h (omega (arith, s))
            (λ q. next-begin o (omega arith) (omega arith)) in
        (get_segment o ∷ next.0, rw (t, walk) (ap (Option.map _) next.1), (b l, s.1, l, next.2))
  ]

  -- Over any mapper that keeps the contract, for_each_mem_segment ends on a range of the
  -- allocation and calls its function on segments that follow one another without a gap, the
  -- first of which has the first byte of the range and the last of which reaches its end.
  pub for_each_mem_segment-Tiles :
      (o size : ℕ)
      → o + size ≤ effective_size
      → (ss : List Segment) × (for_each_mem_segment get_segment o size ≡ some ss)
        × Tiles o (o + size) ss
  unfolding for_each_mem_segment walk
  for_each_mem_segment-Tiles o size h = elim (Bool-cases (ltb o (o + size))) [
    | inr f ↦ rw (f, walk) ([], refl, ground arith)
    | inl t ↦
        let l : o < o + size = ltb→lt o (o + size) t in
        let s = m.holds o (omega arith) in
        let next =
          walk-Follow size (get_segment o).offset_e (o + size) h (omega (arith, s))
            (λ q. next-begin o (omega arith) (omega arith)) in
        (get_segment o ∷ next.0, rw (t, walk) (ap (Option.map _) next.1), (s.0, s.1, l, next.2))
  ]
