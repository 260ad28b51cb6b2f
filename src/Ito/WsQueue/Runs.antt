-- ===== src/Ito/WsQueue/Runs.antt =====
-- include/ityr/ito/wsqueue.hpp: a queue under its owner and its thieves, as a step relation, and the deque
-- that it stands for.
use itoyori.Prelude.{◌≡◌, subst, Bool, List, [], ◌∷◌, ◌++◌, Option, none, some, length}
use itoyori.Ito.WsQueue.{Queue, create, push, pop, steal}
use itoyori.Ito.WsQueue.Contents.{contents, IsValid, entries_of, Pushed, Stolen, create-Empty}
use itoyori.Ito.WsQueue.Push.{push-Pushed}
use itoyori.Ito.WsQueue.Pop.{MovesApart, PoppedSome, pop-PoppedSome}
use itoyori.Ito.WsQueue.Steal.{steal-Stolen}

module _ (A : Type 0) where
  -- What a call of the owner or of a thief does, with its result.
  pub data QueueEvent : Type 0 where
    pushed : A → QueueEvent
    popped : Option A → QueueEvent
    stolen : Option A → QueueEvent

module _ {A : Type 0} where
  -- A call that returns. A pop that moves entries over entries still to be moved is no step.
  pub data QueueStep : Queue A → QueueEvent A → Queue A → Type 0 where
    pushes : (x : A) (q q' : Queue A) → push x q ≡ some q' → QueueStep q (pushed x) q'
    pops :
        (ensure_empty : Bool) (o : Option A) (q q' : Queue A)
        → MovesApart q
        → pop ensure_empty q ≡ some (o, q')
        → QueueStep q (popped o) q'
    steals : (o : Option A) (q q' : Queue A) → steal q ≡ (o, q') → QueueStep q (stolen o) q'

  pub data Run : Queue A → List (QueueEvent A) → Queue A → Type 0 where
    done : (q : Queue A) → Run q [] q
    then_step :
        (q q' q'' : Queue A) (e : QueueEvent A) (es : List (QueueEvent A))
        → QueueStep q e q'
        → Run q' es q''
        → Run q (e ∷ es) q''

  -- The same on a deque: pushes and pops at the back, thefts at the front, and a call that finds nothing
  -- finds the deque empty.
  unfoldable pub Acts : QueueEvent A → List A → List A → Type 0
  Acts (pushed x) xs ys = ys ≡ xs ++ (x ∷ [])
  Acts (popped o) xs ys = (xs ≡ ys ++ entries_of o) × (o ≡ none → xs ≡ [])
  Acts (stolen o) xs ys = (xs ≡ entries_of o ++ ys) × (o ≡ none → xs ≡ [])

  pub data Deque : List A → List (QueueEvent A) → List A → Type 0 where
    finished : (xs : List A) → Deque xs [] xs
    acts :
        (xs ys zs : List A) (e : QueueEvent A) (es : List (QueueEvent A))
        → Acts e xs ys
        → Deque ys es zs
        → Deque xs (e ∷ es) zs

  QueueStep-Acts :
      {q : Queue A} {e : QueueEvent A} {q' : Queue A}
      → QueueStep q e q'
      → IsValid q
      → IsValid q' × Acts e (contents q) (contents q')
  unfolding Acts
  QueueStep-Acts (pushes x q q' e) v = subst (Pushed x q) e (push-Pushed x q v)
  QueueStep-Acts (pops b o q q' m e) v =
      let (v', same, empty) = subst (PoppedSome q) e (pop-PoppedSome b q v m) in (v', (same, empty))
  QueueStep-Acts (steals o q q' e) v =
      let (v', same, empty) = subst (Stolen q) e (steal-Stolen q v) in (v', (same, empty))

  Run-Deque_from :
      {q : Queue A} {es : List (QueueEvent A)} {q' : Queue A}
      → Run q es q'
      → IsValid q
      → IsValid q' × Deque (contents q) es (contents q')
  Run-Deque_from (done q) v = (v, finished (contents q))
  Run-Deque_from (then_step q q' q'' e es s r) v =
      let (v', a) = QueueStep-Acts s v in
      let (v'', d) = Run-Deque_from r v' in
      (v'', acts (contents q) (contents q') (contents q'') e es a d)

  -- Any run of pushes, pops and thefts from a new queue, in whatever order, in which no pop moves
  -- entries over entries still to be moved, leaves a valid queue, and is a run of a deque from
  -- empty to what the queue holds: a push adds at the back, a pop takes the back, a theft takes
  -- the front, and a pop or a theft that finds nothing finds the deque empty.
  pub Run-Deque :
      (enable_pass : Bool) (slots : List A) (es : List (QueueEvent A)) (q : Queue A)
      → Run (create enable_pass slots (length slots)) es q
      → IsValid q × Deque [] es (contents q)
  Run-Deque enable_pass slots es q r =
      let (v, empty) = create-Empty enable_pass slots in
      let (v', d) = Run-Deque_from r v in (v', subst (λ xs. Deque xs es (contents q)) empty d)
