-- ===== src/Context/Examples.antt =====
-- The context's theorems at concrete contexts. Thunks and RPC factories are numbers.
use mathlib.Core.List.{Perm}
use grpc_p.Base.{
  ◌<◌, none, ℕ, ◌≡◌, ◌↔◌, Bool, true, false, refl, some, List, [], ◌∷◌, arith, if◌then◌else◌,
}
use grpc_p.Base.Int.{pos}
use grpc_p.Queue.Content.{contents}
use grpc_p.Context.State.{ready, running}
use grpc_p.Context.Defs.{ExecutionContext}
use grpc_p.Context.Post.{construct, post_deadline}
use grpc_p.Context.Deadline.{post_deadline_early}
use grpc_p.Context.Lifecycle.{stop, run_while, ok, threw, resource_deadlock_would_occur}
use grpc_p.Context.SelfJoin.{stop_by_worker}
use grpc_p.Context.History.{Op, attach, run, halt, on_stop, perform_all}
use grpc_p.Context.Outcome.{ComesTo, perform_all-ComesTo}

-- One thread and two completion queues.
abbrev fresh : ExecutionContext ℕ ℕ
fresh = record {
  threads = 0;
  task_queue = record {
    queues = record { queue = [] } ∷ record { queue = 5 ∷ [] } ∷ [];
    n_queues = 2;
    push_index = 0;
    pop_index = 0;
    in_push = 0;
    is_done = false;
  };
  cqs = 2;
  servers = [];
  notifications = [];
  state = running;
  next_cq_write_index = 3;
  within_cq_post = 0;
  n_threads = 1;
  calls = [];
}

abbrev told : Bool → ℕ
told b = if b then 1 else 0

-- A deadline ten seconds ahead.
post_deadline_early_example :
    (c' : ExecutionContext ℕ ℕ) × (post_deadline
        (λ r i. true)
        1
        (pos 0)
        told
        (pos 10_000_000_000)
        fresh
      ≡ some (true, c'))
    × Perm (contents c'.task_queue.queues) (0 ∷ 5 ∷ [])
    × (c'.calls ≡ [])
post_deadline_early_example =
    post_deadline_early (λ r i. true) 1 0 0 (pos 0) (pos 10_000_000_000) told fresh (omega arith)
      (omega arith) (omega arith) refl refl (omega arith)

abbrev history : List (Op ℕ)
history = on_stop 1 ∷ halt ∷ run ∷ on_stop 2 ∷ attach 3 ∷ halt ∷ on_stop 4 ∷ halt ∷ []

perform_all-ComesTo_example :
    ComesTo ℕ ℕ 2 (perform_all history (construct 4 2)) (some (1 ∷ 2 ∷ []))
perform_all-ComesTo_example = perform_all-ComesTo ℕ ℕ 4 2 history

abbrev new : ExecutionContext ℕ ℕ
new = construct 4 2

new-ready : new.state ≡ ready
unfolding construct
new-ready = refl

stop_by_worker_example :
    ((stop (some 1) (run_while new) ≡ threw resource_deadlock_would_occur) ↔ (1 < new.n_threads))
    × ((c' : ExecutionContext ℕ ℕ) × (stop none (run_while new) ≡ ok c'))
stop_by_worker_example = stop_by_worker 1 new new-ready
