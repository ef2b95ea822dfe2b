-- ===== src/Context/Gate/Examples.antt =====
-- The theorems on the threads over an execution context, at a concrete run.
use grpc_p.Base.{ℕ, ◌<◌, ◌≤◌, ◌≡◌, refl, arith, [], ◌∷◌, if◌then◌else◌}
use grpc_p.Base.Rows.{total}
use grpc_p.Context.State.{ExecutionState, can_post, set_state}
use grpc_p.Context.Defs.{Call, make_rpc, shutdown}
use grpc_p.Context.Post.{construct, call_on_next, get_next_cq}
use grpc_p.Context.Lifecycle.{shutdowns, all_server_shutdowns, joins, add_notify_at_stopped}
use grpc_p.Context.History.{shut_count}
use grpc_p.Context.Gate.{
  idle, System, Reach, start, later, pick, rpc, enter, see_open, make_call, leave, run,
  start_threads, register, stop, wait, waited, halt_one, join_all, join_one, joined, notify_one,
  notified_all,
}
use grpc_p.Context.Gate.Invariant.{late_posts, in_post}
use grpc_p.Context.Gate.Safety.{Reach-no_late_posts, Reach-shut_at_rest}
use grpc_p.Context.Gate.Unjoined.{unjoined_threads, joins_made}

-- Thread 0 posts an RPC while thread 1 stops the context: one queue, one thread in the pool.
abbrev Run : Type 0
Run =
    (s : System ℕ ℕ) × Reach 1 1 2 s
    × (s.threads ≡ idle ∷ idle ∷ [])
    × (s.context.calls ≡ make_rpc 0 7 ∷ shutdown 0 ∷ Call.join 0 ∷ Call.notify 9 ∷ [])
    × (s.context.state ≡ ExecutionState.stopped)

run_of_two : Run
unfolding construct set_state call_on_next get_next_cq shutdowns all_server_shutdowns joins
    add_notify_at_stopped
run_of_two = (
  _,
  later
      (later
        (later
          (later
            (later
              (later
                (later
                  (later
                    (later
                      (later
                        (later
                          (later
                            (later
                              (later
                                (later (later start (pick 0 refl (run refl)))
                                  (pick 0 refl start_threads))
                                (pick 0 refl (register 9)))
                              (pick 0 refl (enter (rpc 7))))
                            (pick 0 refl (see_open refl)))
                          (pick 1 refl (stop refl)))
                        (pick 1 refl (wait (omega arith))))
                      (pick 0 refl make_call))
                    (pick 0 refl leave))
                  (pick 1 refl (waited refl)))
                (pick 1 refl halt_one))
              (pick 1 refl (join_all refl)))
            (pick 1 refl join_one))
          (pick 1 refl joined))
        (pick 1 refl notify_one))
      (pick 1 refl notified_all),
  refl,
  refl,
  refl,
)

Reach-no_late_posts_example :
    (late_posts run_of_two.0.context.calls ≡ 0)
    × (run_of_two.0.context.within_cq_post ≡ total in_post run_of_two.0.threads)
    × ((k : ℕ) → k < 1 → shut_count k run_of_two.0.context.calls ≤ 1)
Reach-no_late_posts_example = Reach-no_late_posts (omega arith) run_of_two.1

Reach-shut_at_rest_example :
    shut_count 0 run_of_two.0.context.calls ≡ (if can_post run_of_two.0.context.state then 0 else 1)
Reach-shut_at_rest_example =
    Reach-shut_at_rest 2 (omega arith) run_of_two.1 run_of_two.2 0 (omega arith)

unjoined_threads_example :
    (s : System ℕ ℕ) × Reach 3 1 2 s
    × (s.threads ≡ idle ∷ idle ∷ [])
    × (s.context.state ≡ ExecutionState.stopped)
    × (s.context.threads ≡ 3)
    × (joins_made s.context.calls ≡ 0)
unjoined_threads_example = unjoined_threads ℕ ℕ 3
