-- ===== src/Queue/Stealing.antt =====
-- detail/atomic_task_stealing_queue.hpp: AtomicTaskStealingQueue, one operation at a time. The
-- interleavings of its atomic accesses are in Queue/Threads.antt. `locks i` says whether the `i`-th
-- `try_lock` of a round of tries succeeds.
use grpc_p.Base.{
  ℕ, zero, suc, ◌+◌, ◌-◌, ◌%◌, ◌^◌, Bool, true, false, Option, none, some, List, [], ◌++◌,
  if◌then◌else◌, ltb, get_or, set, replicate,
}
use grpc_p.Queue.Locking.{LockingQueue, try_pop, try_push, eject}
use grpc_p.Queue.Locking as Locking

-- `unsigned` has 32 bits.
abbrev pub u32 : ℕ → ℕ
u32 n = n % 2 ^ 32

pub record StealingQueue {ℓ} (A : Type ℓ) : Type ℓ where
  pub queues : List (LockingQueue A)
  pub n_queues : ℕ
  pub push_index : ℕ
  pub pop_index : ℕ
  pub in_push : ℕ
  pub is_done : Bool

-- `(offset + i) % n_queues_`
abbrev pub slot : ℕ → ℕ → ℕ → ℕ
slot offset i n = u32 (offset + i) % n

module _ {ℓ} {A : Type ℓ} where
  abbrev pub no_queue : LockingQueue A
  no_queue = record { queue = [] }

  unfoldable pub make : ℕ → StealingQueue A
  make n = record {
    queues = replicate n no_queue;
    n_queues = n;
    push_index = 0;
    pop_index = 0;
    in_push = 0;
    is_done = false;
  }

  unfoldable pub signal_done : StealingQueue A → StealingQueue A
  signal_done q = record q { is_done = true }

  -- The body of the `for` of `push`: `none` when no try of the `left` that remain has pushed.
  unfoldable pub push_round :
      (ℕ → Bool) → A → ℕ → ℕ → (left i : ℕ) → List (LockingQueue A) → Option (List (LockingQueue A))
  push_round locks f offset n zero i qs = none
  push_round locks f offset n (suc left) i qs =
      elim (try_push (locks i) f (get_or qs (slot offset i n) no_queue)) [
        | some q ↦ some (set qs (slot offset i n) q)
        | none ↦ push_round locks f offset n left (suc i) qs
      ]

  -- The outer `for` of `push`, which has no bound: `fuel` rounds of it. `locks r i` is try `i` of
  -- round `r`. `none` means that it still spins.
  unfoldable pub push_loop :
      (ℕ → ℕ → Bool) → A → (fuel r : ℕ) → StealingQueue A → Option (StealingQueue A)
  push_loop locks f zero r q = none
  push_loop locks f (suc fuel) r q =
      let q' : StealingQueue A = record q { push_index = u32 (q.push_index + 1) } in
      elim (push_round (locks r) f q.push_index q.n_queues q.n_queues 0 q.queues) [
        | some qs ↦ some (record q' { queues = qs })
        | none ↦ push_loop locks f fuel (suc r) q'
      ]

  abbrev pub enter_push : StealingQueue A → StealingQueue A
  enter_push q = record q { in_push = u32 (q.in_push + 1) }

  abbrev pub leave_push : StealingQueue A → StealingQueue A
  leave_push q = record q { in_push = u32 (q.in_push + 2 ^ 32 - 1) }

  pushed : Option (StealingQueue A) → Option (Bool × StealingQueue A)
  pushed none = none
  pushed (some q) = some (true, leave_push q)

  -- `push`, with what it returns.
  unfoldable pub push : (ℕ → ℕ → Bool) → ℕ → A → StealingQueue A → Option (Bool × StealingQueue A)
  unfolding pushed
  push locks fuel f q =
      let loop : Option (StealingQueue A) = push_loop locks f fuel 0 (enter_push q) in
      if q.is_done then some (false, leave_push (enter_push q)) else pushed loop

  -- The `for` of `try_pop`.
  unfoldable pub pop_round :
      (ℕ → Bool) → ℕ → ℕ → (left i : ℕ) → List (LockingQueue A) → Option (A × List (LockingQueue A))
  pop_round locks offset n zero i qs = none
  pop_round locks offset n (suc left) i qs =
      elim (Locking.try_pop (locks i) (get_or qs (slot offset i n) no_queue)) [
        | some (f, q) ↦ some (f, set qs (slot offset i n) q)
        | none ↦ pop_round locks offset n left (suc i) qs
      ]

  -- `try_pop`: the thunk popped, if one was, and the queue after.
  unfoldable pub steal : (ℕ → Bool) → StealingQueue A → Option A × StealingQueue A
  steal locks q =
      let q' : StealingQueue A = record q { pop_index = u32 (q.pop_index + 1) } in
      elim (pop_round locks q.pop_index q.n_queues q.n_queues 0 q.queues) [
        | some (f, qs) ↦ (some f, record q' { queues = qs })
        | none ↦ (none, q')
      ]

  -- One pass of the `for` of `stop_and_eject`, from queue `i` on.
  unfoldable pub eject_all :
      (left i : ℕ) → List (LockingQueue A) → List A → List A × List (LockingQueue A)
  eject_all zero i qs thunks = (thunks, qs)
  eject_all (suc left) i qs thunks =
      let (got, q) = eject (get_or qs i no_queue) in
      eject_all left (suc i) (set qs i q) (thunks ++ got)

  -- The `do … while` of `stop_and_eject`, for `fuel` passes of it: `none` means that it still waits for
  -- a push to leave.
  unfoldable pub drain_loop :
      (fuel : ℕ) → List A → StealingQueue A → Option (List A × StealingQueue A)
  unfolding eject_all
  drain_loop zero thunks q = none
  drain_loop (suc fuel) thunks q =
      let (thunks', qs) = eject_all q.n_queues 0 q.queues thunks in
      let again : Option (List A × StealingQueue A) =
        drain_loop fuel thunks' (record q { queues = qs }) in
      if ltb 0 q.in_push then again else some (thunks', record q { queues = qs })

  unfoldable pub stop_and_eject : ℕ → StealingQueue A → Option (List A × StealingQueue A)
  unfolding signal_done
  stop_and_eject fuel q = drain_loop fuel [] (signal_done q)
