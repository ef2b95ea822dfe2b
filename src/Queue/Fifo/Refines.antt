-- ===== src/Queue/Fifo/Refines.antt =====
-- Without contention, the row of queues is one first-in first-out queue, as long as no pop finds it empty.
use grpc_p.Base.{
  ℕ, zero, suc, ◌+◌, ◌^◌, ◌<◌, ◌≡◌, refl, some, List, [], ◌∷◌, ◌++◌, arith, length, get_or,
  length-append, length-replicate, replicate, subst,
}
use grpc_p.Queue.Stealing.{StealingQueue, no_queue, make}
use grpc_p.Queue.Fifo.{Op, add, take, outputs, queue_outputs, NeverEmpty, pushes}
use grpc_p.Queue.Fifo.Lanes.{lane, IsFifo, push-IsFifo, steal-IsFifo}

module _ {ℓ} {A : Type ℓ} where
  outputs-IsFifo :
      (ops : List (Op A)) (q : StealingQueue A) (xs : List A)
      → IsFifo q xs
      → NeverEmpty (length xs) ops
      → q.push_index + pushes ops < 2 ^ 32
      → outputs q ops ≡ some (queue_outputs xs ops)
  unfolding outputs
  outputs-IsFifo [] q xs v never fits = refl
  outputs-IsFifo (add f ∷ ops) q xs v never fits =
      let (q', e, v', p) = push-IsFifo f q xs v (omega (arith, fits)) in
      rw (outputs, e)
        (outputs-IsFifo ops q' (xs ++ f ∷ []) v'
          (subst (λ n. NeverEmpty n ops) (omega (arith, length-append xs (f ∷ []))) never)
          (omega (arith, fits, p)))
  outputs-IsFifo (take ∷ ops) q [] v never fits = elim never [ ]
  outputs-IsFifo (take ∷ ops) q (x ∷ xs) v never fits =
      let (q', e, v', p) = steal-IsFifo x q xs v (omega (arith, fits)) in
      rw (outputs, e, outputs-IsFifo ops q' xs v' never (omega (arith, fits, p)))

  -- A new task queue with at least one inner queue, used without contention, so that every lock that is
  -- tried is free: over any history with fewer than 2^32 pushes, in which no pop finds the queue empty,
  -- each push returns in its first round and the pops return the thunks first-in first-out.
  pub outputs-fifo :
      (n : ℕ) (ops : List (Op A))
      → 0 < n
      → NeverEmpty 0 ops
      → pushes ops < 2 ^ 32
      → outputs (make n) ops ≡ some (queue_outputs [] ops)
  unfolding make lane
  outputs-fifo n ops pos never fits =
      outputs-IsFifo ops (make n) []
        (record {
          sized = length-replicate n no_queue;
          some_queue = pos;
          live = refl;
          aligned = refl;
          lanes = λ k. empty n k;
        })
        never (omega (arith, fits))
    where
      empty : (n k : ℕ) → (get_or (replicate n (no_queue {A = A})) k no_queue).queue ≡ []
      empty zero k = refl
      empty (suc n) zero = refl
      empty (suc n) (suc k) = empty n k
