-- ===== src/Scheduler/Examples.antt =====
-- Starting an operation of `schedule` on a concrete context.
use mathlib.Core.List.{Perm}
use grpc_p.Base.{ℕ, ◌≡◌, refl, true, false, none, some, [], ◌∷◌, arith, if◌then◌else◌, ◌==◌}
use grpc_p.Queue.Content.{contents}
use grpc_p.Queue.Push.{IsValid}
use grpc_p.Rpc.Signal.{unknown, completions}
use grpc_p.Context.State.{running}
use grpc_p.Context.Defs.{ExecutionContext}
use grpc_p.Scheduler.{Sent, op_thunk, start}
use grpc_p.Scheduler.Starts.{start-posts}

-- Two task queues, of which the first is locked at the first try.
abbrev open_context : ExecutionContext Sent ℕ
open_context = record {
  threads = 1;
  task_queue = record {
    queues = record { queue = [] } ∷ record { queue = op_thunk none ∷ [] } ∷ [];
    n_queues = 2;
    push_index = 0;
    pop_index = 0;
    in_push = 0;
    is_done = false;
  };
  cqs = 1;
  servers = [];
  notifications = [];
  state = running;
  next_cq_write_index = 0;
  within_cq_post = 0;
  n_threads = 1;
  calls = [];
}

open_context-IsValid : IsValid open_context.task_queue
open_context-IsValid = omega arith

start-posts_example :
    (c' : ExecutionContext Sent ℕ) × (start
        (λ r i. if i == 0 then false else true)
        1
        (some unknown)
        open_context
      ≡ some c')
    × (completions (op_thunk (some unknown)) ≡ 1)
    × (false ≡ true → c' ≡ open_context)
    × (false ≡ false
        → Perm
            (contents c'.task_queue.queues)
            (op_thunk (some unknown) ∷ contents open_context.task_queue.queues))
start-posts_example =
    start-posts (λ r i. if i == 0 then false else true) 1 0 1 (some unknown) open_context
      open_context-IsValid (omega arith) (omega arith) refl
