-- ===== src/Ito/JoinRace/Liveness.antt =====
-- include/ityr/ito/sched/randws.hpp: what a fork and its join come to, in any order of moves.
use itoyori.Prelude.{
  ℕ, ◌+◌, ◌<◌, ◌≤◌, ◌≡◌, refl, sym, ◌∙◌, subst, ◌⊎◌, inl, inr, false, Option, none, some, arith,
}
use Prim.{Unit, tt}
use mathlib.Core.Option.{none-ne-some, some-injective}
use itoyori.Ito.JoinRace.{
  joined, Threads, forked, child_move, parent_move, steal_move, Move, Moves, by_child, by_parent,
  by_thief, start, later,
}
use itoyori.Ito.JoinRace.Phases.{
  Early, runs, drifts, has_put, Waits, to_join, to_evacuate, has_evacuated, to_race, sleeps, Late,
  late_join, late_evacuate, late_evacuated, late_race, to_drop, Phase, in_queue, in_place,
  serialized, apart, after_win, to_fetch, to_resume, to_read, has_value, has_joined, state_of,
  child_next, parent_next, steal_next,
}
use itoyori.Ito.JoinRace.Steps.{next_state, child_move-phase, parent_move-phase, steal_move-phase}

early_weight : Early → ℕ
early_weight runs = 2
early_weight drifts = 1
early_weight has_put = 0

waits_weight : Waits → ℕ
waits_weight to_join = 4
waits_weight to_evacuate = 3
waits_weight has_evacuated = 2
waits_weight to_race = 1
waits_weight sleeps = 0

late_weight : Late → ℕ
late_weight late_join = 3
late_weight late_evacuate = 6
late_weight late_evacuated = 5
late_weight late_race = 4
late_weight to_drop = 3

-- How many moves are left at most.
weight : Phase → ℕ
unfolding early_weight waits_weight late_weight
weight in_queue = 12
weight in_place = 1
weight serialized = 0
weight (apart e w) = 5 + early_weight e + waits_weight w
weight (after_win l) = late_weight l
weight to_fetch = 4
weight to_resume = 3
weight (to_read w) = 2
weight (has_value w) = 1
weight (has_joined w) = 0

abbrev Falls : ℕ → Option Phase → Type 0
unfolding weight
Falls n none = Unit
Falls n (some p) = weight p < n

child_next-Falls : (p : Phase) → Falls (weight p) (child_next p)
unfolding weight child_next
child_next-Falls in_queue = omega arith
child_next-Falls (apart runs w) = omega arith
child_next-Falls (apart drifts w) = omega arith
child_next-Falls (apart has_put to_join) = omega arith
child_next-Falls (apart has_put to_evacuate) = omega arith
child_next-Falls (apart has_put has_evacuated) = omega arith
child_next-Falls (apart has_put to_race) = omega arith
child_next-Falls (apart has_put sleeps) = omega arith
child_next-Falls to_fetch = omega arith
child_next-Falls to_resume = omega arith
child_next-Falls p = tt

parent_next-Falls : (p : Phase) → Falls (weight p) (parent_next p)
unfolding weight parent_next
parent_next-Falls in_queue = tt
parent_next-Falls serialized = tt
parent_next-Falls (apart e sleeps) = tt
parent_next-Falls to_fetch = tt
parent_next-Falls to_resume = tt
parent_next-Falls (has_joined w) = tt
parent_next-Falls (after_win late_join) = omega arith
parent_next-Falls (after_win late_evacuate) = omega arith
parent_next-Falls (after_win late_evacuated) = omega arith
parent_next-Falls (after_win late_race) = omega arith
parent_next-Falls (after_win to_drop) = omega arith
parent_next-Falls p = omega arith

steal_next-Falls : (p : Phase) → Falls (weight p) (steal_next p)
unfolding weight steal_next
steal_next-Falls in_queue = omega arith
steal_next-Falls p = tt

module _ {T : Type 0} (v : T) where
  -- The parent has the thread's value, and all is freed that was allocated.
  pub record IsJoined (s : Threads T) : Type 0 where
    pub value : s.parent ≡ joined v
    pub state_freed : s.state_live ≡ false
    pub frame_freed : s.frame_live ≡ false
    pub faultless : s.fault ≡ false

  InPhase : ℕ → Threads T → Type 0
  InPhase n s = (p : Phase) × (s ≡ state_of v p) × (weight p + n ≤ 12)

  fallen :
      (n : ℕ) {t : Threads T} (w : ℕ) (o : Option Phase)
      → next_state v o ≡ some t
      → Falls w o
      → w + n ≤ 12
      → InPhase (n + 1) t
  unfolding next_state InPhase weight
  fallen n w none e f h = absurd (none-ne-some _ e)
  fallen n w (some p) e f h = (p, sym (some-injective _ _ e), omega arith)

  Move-InPhase : (n : ℕ) {s t : Threads T} → Move v s t → InPhase n s → InPhase (n + 1) t
  unfolding InPhase
  Move-InPhase n {s} {t} (by_child e) (p, at, h) =
      fallen n (weight p) (child_next p)
        (sym (child_move-phase v p)
          ∙ subst (λ (r : Threads T). child_move v r.child r ≡ some t) at e)
        (child_next-Falls p) h
  Move-InPhase n {s} {t} (by_parent e) (p, at, h) =
      fallen n (weight p) (parent_next p)
        (sym (parent_move-phase v p)
          ∙ subst (λ (r : Threads T). parent_move r.parent r ≡ some t) at e)
        (parent_next-Falls p) h
  Move-InPhase n {s} {t} (by_thief e) (p, at, h) =
      fallen n (weight p) (steal_next p)
        (sym (steal_move-phase v p)
          ∙ subst (λ (r : Threads T). steal_move r.parent r ≡ some t) at e)
        (steal_next-Falls p) h

  Moves-InPhase : {n : ℕ} {s : Threads T} → Moves v n s → InPhase n s
  unfolding InPhase weight state_of forked
  Moves-InPhase start = (in_queue, refl, omega arith)
  Moves-InPhase (later {n} {m} {s} {t} r mv e) =
      subst (λ (k : ℕ). InPhase k t) (sym e) (Move-InPhase n mv (Moves-InPhase r))

  unfoldable pub CanMove : Threads T → Type 0
  CanMove s = (t : Threads T) × Move v s t

  phase_progress : (p : Phase) → IsJoined (state_of v p) ⊎ CanMove (state_of v p)
  unfolding CanMove state_of child_move parent_move
  phase_progress in_queue = inr (_, by_child refl)
  phase_progress in_place = inr (_, by_parent refl)
  phase_progress serialized =
      inl (record { value = refl; state_freed = refl; frame_freed = refl; faultless = refl })
  phase_progress (apart runs w) = inr (_, by_child refl)
  phase_progress (apart drifts w) = inr (_, by_child refl)
  phase_progress (apart has_put w) = inr (_, by_child refl)
  phase_progress (after_win late_join) = inr (_, by_parent refl)
  phase_progress (after_win late_evacuate) = inr (_, by_parent refl)
  phase_progress (after_win late_evacuated) = inr (_, by_parent refl)
  phase_progress (after_win late_race) = inr (_, by_parent refl)
  phase_progress (after_win to_drop) = inr (_, by_parent refl)
  phase_progress to_fetch = inr (_, by_child refl)
  phase_progress to_resume = inr (_, by_child refl)
  phase_progress (to_read w) = inr (_, by_parent refl)
  phase_progress (has_value w) = inr (_, by_parent refl)
  phase_progress (has_joined w) =
      inl (record { value = refl; state_freed = refl; frame_freed = refl; faultless = refl })

  -- After a fork, no order of the moves of the thread, of its parent and of a thief has more than
  -- 12 of them, and wherever they have led, either the parent has joined with the value of the
  -- thread, all memory is freed and nothing has erred, or one of the three can move.
  pub Moves-IsJoined : {n : ℕ} {s : Threads T} → Moves v n s → (n ≤ 12) × (IsJoined s ⊎ CanMove s)
  unfolding InPhase
  Moves-IsJoined {n} {s} r = ended (Moves-InPhase r)
    where
      ended : InPhase n s → (n ≤ 12) × (IsJoined s ⊎ CanMove s)
      ended (p, at, h) = (
        omega arith,
        subst (λ (t : Threads T). IsJoined t ⊎ CanMove t) (sym at) (phase_progress p),
      )

  -- No access has erred, and a parent that has joined has the thread's value, with all memory freed.
  pub record IsSafe (s : Threads T) : Type 0 where
    pub faultless : s.fault ≡ false
    pub joins :
        (x : T) → s.parent ≡ joined x → (x ≡ v) × (s.state_live ≡ false) × (s.frame_live ≡ false)

  joined-injective : (x y : T) → joined x ≡ joined y → y ≡ x
  joined-injective x y e = cc

  phase-IsSafe : (p : Phase) → IsSafe (state_of v p)
  unfolding state_of
  phase-IsSafe serialized = record {
    faultless = refl;
    joins = λ x e. (joined-injective v x e, refl, refl);
  }
  phase-IsSafe (has_joined w) = record {
    faultless = refl;
    joins = λ x e. (joined-injective v x e, refl, refl);
  }
  phase-IsSafe (apart e to_join) = record { faultless = refl; joins = λ x a. absurd (cc) }
  phase-IsSafe (after_win late_join) = record { faultless = refl; joins = λ x a. absurd (cc) }
  phase-IsSafe p = record { faultless = refl; joins = λ x a. absurd (cc) }

  -- After a fork, in no order of the moves of the thread, of its parent and of a thief is freed
  -- memory accessed, read what nobody wrote or the parent resumed twice, and a parent that has
  -- joined has the value of the thread, with the thread_state and the evacuated frame freed.
  pub Moves-IsSafe : {n : ℕ} {s : Threads T} → Moves v n s → IsSafe s
  unfolding InPhase
  Moves-IsSafe {n} {s} r = in_phase (Moves-InPhase r)
    where
      in_phase : InPhase n s → IsSafe s
      in_phase (p, at, h) = subst IsSafe (sym at) (phase-IsSafe p)
