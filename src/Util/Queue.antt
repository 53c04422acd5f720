-- ===== src/Util/Queue.antt =====
-- ConcurrentQueue of src/util/event_loop.h. Every operation holds the mutex, so that what several
-- threads do is one sequence of operations.
use fmesh_cli.Common.{
  ◌≡◌, sym, ap, ◌∙◌, Bool, true, false, List, [], ◌∷◌, ◌++◌, Option, none, some, append_assoc,
  append-nil,
}

module _ {ℓ} {A : Type ℓ} where
  -- `q_` afterwards: the new element is the last.
  unfoldable pub push : A → List A → List A
  push v q = q ++ (v ∷ [])

  -- The first element, where there is one; `none` is the result `false`.
  unfoldable pub try_pop : List A → List A × Option A
  try_pop [] = ([], none)
  try_pop (v ∷ q) = (q, some v)

  unfoldable pub drain_from : List A → List A → List A
  drain_from out [] = out
  drain_from out (v ∷ q) = drain_from (out ++ (v ∷ [])) q

  -- All of them, and an empty queue.
  unfoldable pub drain_all : List A → List A × List A
  unfolding drain_from
  drain_all q = ([], drain_from [] q)

  unfoldable pub is_empty : List A → Bool
  is_empty [] = true
  is_empty (v ∷ q) = false

-- What the threads do.
pub data Op {ℓ} (A : Type ℓ) : Type ℓ where
  put : A → Op A
  pop : Op A
  drain : Op A

module _ {ℓ} {A : Type ℓ} where
  -- What comes out of one operation, and the queue afterwards.
  unfoldable pub step : Op A → List A → List A × List A
  step (put v) q = (push v q, [])
  step pop q = let (q', out) = try_pop q in (q', elim out [ none ↦ [] | some v ↦ v ∷ [] ])
  step drain q = drain_all q

  -- The queue after all of them, and all that came out.
  unfoldable pub run : List (Op A) → List A → List A × List A
  unfolding step
  run [] q = (q, [])
  run (o ∷ os) q = let (q', out) = step o q in let (q'', outs) = run os q' in (q'', out ++ outs)

  -- What went in.
  unfoldable pub pushes : List (Op A) → List A
  pushes [] = []
  pushes (put v ∷ os) = v ∷ pushes os
  pushes (pop ∷ os) = pushes os
  pushes (drain ∷ os) = pushes os

  drain_from_lem : (out q : List A) → drain_from out q ≡ out ++ q
  unfolding drain_from
  drain_from_lem out [] = sym (append-nil out)
  drain_from_lem out (v ∷ q) = drain_from_lem (out ++ (v ∷ [])) q ∙ append_assoc out (v ∷ []) q

  -- However the threads interleave: what came out, followed by what is left, is what was in the
  -- queue followed by what went in, in that order.
  pub run-fifo :
      (os : List (Op A)) (q : List A) → let (left, outs) = run os q in outs ++ left ≡ q ++ pushes os
  unfolding run step pushes push try_pop drain_all
  run-fifo [] q = sym (append-nil q)
  run-fifo (put v ∷ os) q = run-fifo os (q ++ (v ∷ [])) ∙ append_assoc q (v ∷ []) (pushes os)
  run-fifo (pop ∷ os) [] = run-fifo os []
  run-fifo (pop ∷ os) (v ∷ q) = ap (v ∷◌) (run-fifo os q)
  run-fifo (drain ∷ os) q =
      append_assoc (drain_from [] q) (run os []).1 (run os []).0
      ∙ ap (drain_from [] q ++◌) (run-fifo os [])
      ∙ ap (λ x. x ++ pushes os) (drain_from_lem [] q)
