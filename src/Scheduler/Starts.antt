-- ===== src/Scheduler/Starts.antt =====
-- What starting the operation of `schedule` does.
use mathlib.Core.List.{Perm}
use grpc_p.Base.{ℕ, ◌<◌, ◌≡◌, refl, ap, Bool, true, false, Option, none, some, ◌∷◌}
use grpc_p.Queue.Content.{contents}
use grpc_p.Queue.Stealing.{StealingQueue}
use grpc_p.Queue.Push.{IsValid, Pushes, push-Pushes}
use grpc_p.Rpc.Signal.{Exception, completions}
use grpc_p.Context.Defs.{ExecutionContext}
use grpc_p.Context.Post.{post}
use grpc_p.Scheduler.{Sent, op_thunk, start}

once : (throws : Option Exception) → completions (op_thunk throws) ≡ 1
unfolding op_thunk
once none = refl
once (some e) = refl

-- On a well-formed task queue, where some try of some round within the fuel gets its lock, `start`
-- returns. If the task queue is not done, it then holds one more thunk, which completes the receiver
-- once when it is run; if the task queue is done, nothing has changed.
pub start-posts {κ} :
    {F : Type κ} (locks : ℕ → ℕ → Bool) (fuel r i : ℕ) (throws : Option Exception)
    (c : ExecutionContext Sent F)
    → IsValid c.task_queue
    → r < fuel
    → i < c.task_queue.n_queues
    → locks r i ≡ true
    → (c' : ExecutionContext Sent F) × (start locks fuel throws c ≡ some c')
      × (completions (op_thunk throws) ≡ 1)
      × (c.task_queue.is_done ≡ true → c' ≡ c)
      × (c.task_queue.is_done ≡ false
          → Perm (contents c'.task_queue.queues) (op_thunk throws ∷ contents c.task_queue.queues))
unfolding start post
start-posts {F} locks fuel r i throws c v in_time small got =
    let (b, q', e, p) =
      push-Pushes locks (op_thunk throws) fuel r i c.task_queue v in_time small got in
    (record c { task_queue = q' }, rw (e, start, post) refl, once throws, done b q' p, live b q' p)
  where
    done :
        (b : Bool) (q' : StealingQueue Sent)
        → Pushes (op_thunk throws) c.task_queue b q'
        → c.task_queue.is_done ≡ true
        → record c { task_queue = q' } ≡ c
    done true q' p h = cc (p.0, h)
    done false q' p h = ap (λ q. record c { task_queue = q }) (p.1)

    live :
        (b : Bool) (q' : StealingQueue Sent)
        → Pushes (op_thunk throws) c.task_queue b q'
        → c.task_queue.is_done ≡ false
        → Perm (contents q'.queues) (op_thunk throws ∷ contents c.task_queue.queues)
    live true q' p h = p.1.added
    live false q' p h = cc (p.0, h)
