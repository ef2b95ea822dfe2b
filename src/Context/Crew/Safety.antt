-- ===== src/Context/Crew/Safety.antt =====
-- What the pool does with the thunks that are posted to it.
use grpc_p.Base.{
  ℕ, ◌+◌, ◌^◌, ◌≤◌, ◌<◌, ◌≡◌, refl, ap, some, List, ◌++◌, arith, replicate, get_elem?,
}
use grpc_p.Base.Rows.{total, total-set, count}
use grpc_p.Queue.Content.{contents}
use grpc_p.Queue.Threads.{
  Pc, idle, entered, leaving, refusing, popping, draining, testing, Shared, Move, start_push, leave,
  leave_refused, start_pop, take, give_up, start_drain, return,
}
use grpc_p.Queue.Threads as Threads
use grpc_p.Queue.Threads.Invariant.{held}
use grpc_p.Queue.Threads.Safety.{Reach-conserved, Reach-at_rest, Step-closed}
use grpc_p.Context.Crew.Defs.{Duty, outside, done, Crew, Step, access, go_on, Reach}
use grpc_p.Context.Crew.Invariant.{
  in_hand, has_left, Access-Move, none_yet, Reach-Inv, Reach-system,
}

module _ {sizes : List ℕ} {n_queues n_workers n_outside : ℕ} where
  -- With at least one queue and fewer than 2^32 threads, whatever the completion queues answer, in every
  -- reachable state: each thunk posted is, as often as it was posted, in exactly one place: handed back
  -- by a refusal, called, in the hands of a worker that has yet to call it, in the task queue, or held
  -- by a thread that has yet to push it or is ejecting it.
  Reach-called :
      {s : Crew}
      → 0 < n_queues
      → n_workers + n_outside < 2 ^ 32
      → Reach sizes n_queues n_workers n_outside s
      → (a : ℕ)
      → count a s.system.shared.submitted
        ≡ count a s.system.shared.refused
          + count a s.ran
          + total (in_hand a) s.duties
          + count a (contents s.system.shared.queues)
          + total (held a) s.system.threads
  Reach-called some_queue few r a =
      omega (arith, (Reach-conserved some_queue few (Reach-system r)).0 a, (Reach-Inv r).called a)

  -- With at least one queue and fewer than 2^32 threads, whatever the completion queues answer, in every
  -- reachable state in which all workers have returned and no other thread is in a post: each accepted
  -- thunk, as often as it was accepted, has been called or is left in the task queue; and each posted
  -- thunk, as often as it was posted, was accepted or refused.
  pub Reach-all_returned :
      {s : Crew}
      → 0 < n_queues
      → n_workers + n_outside < 2 ^ 32
      → Reach sizes n_queues n_workers n_outside s
      → s.duties ≡ replicate n_workers done ++ replicate n_outside outside
      → s.system.threads ≡ replicate (n_workers + n_outside) idle
      → (a : ℕ)
      → (count a s.system.shared.accepted
          ≡ count a s.ran + count a (contents s.system.shared.queues))
        × (count a s.system.shared.submitted
            ≡ count a s.system.shared.accepted + count a s.system.shared.refused)
  Reach-all_returned some_queue few r e e' a =
      let rest = Reach-at_rest (n_workers + n_outside) some_queue few (Reach-system r) e' a in
      (
        omega (
          arith,
          rest.0,
          (Reach-Inv r).called a,
          ap (total (in_hand a)) e,
          none_yet n_workers n_outside (in_hand a) done refl refl,
        ),
        rest.1,
      )

  -- With at least one queue and fewer than 2^32 threads, in every reachable state in which a worker has
  -- left its loop and ejected the queue: whatever step is taken, no post is accepted by it, and the task
  -- queue holds no thunk more often after it.
  Step-after_left :
      {s t : Crew} (i : ℕ) {d : Duty}
      → 0 < n_queues
      → n_workers + n_outside < 2 ^ 32
      → Reach sizes n_queues n_workers n_outside s
      → get_elem? s.duties i ≡ some d
      → has_left d ≡ 1
      → Step sizes s t
      → (t.system.shared.accepted ≡ s.system.shared.accepted)
        × ((a : ℕ)
            → count a (contents t.system.shared.queues) ≤ count a (contents s.system.shared.queues))
  Step-after_left {s} i {d} some_queue few r e over (access j f f' acc) =
      Step-closed some_queue few (Reach-system r)
        (omega (arith, (Reach-Inv r).left, total-set has_left s.duties i d outside e, over))
        (Threads.pick j f' (Access-Move acc))
  Step-after_left {s} i some_queue few r e over (go_on j f f' t) = (refl, λ a. omega arith)
