-- ===== src/Context/Crew/Examples.antt =====
-- The theorems on the pool at concrete states: one worker, and one thread outside, which posts 7.
use grpc_p.Base.{ℕ, ◌+◌, ◌≡◌, ◌≤◌, get_elem?, some, refl, true, false, List, [], ◌∷◌, arith}
use grpc_p.Base.Rows.{count, total}
use grpc_p.Queue.Content.{contents}
use grpc_p.Queue.Locking.{try_push, try_pop, eject}
use grpc_p.Queue.Stealing.{make, signal_done}
use grpc_p.Queue.Threads.{
  Pc, idle, start_push, see_live, choose, put, leave, start_pop, take, start_drain, eject_one,
  end_pass, return,
}
use grpc_p.Context.Worker.{
  timeout, shutdown, run_all_queues, run_completion_queues, tally, execute_cq,
}
use grpc_p.Context.Crew.Defs.{
  all_shut, Duty, done, outside, Crew, begin_push, inside, pushed, begin_pop, popped, begin_eject,
  ejected, call, back, next, finish, access, go_on, init, Reach, start, later,
}
use grpc_p.Context.Crew.Measure.{measure}
use grpc_p.Context.Crew.Ends.{Schedule, here, longer, GoesOn, Schedule-ends}
use grpc_p.Context.Crew.Safety.{Reach-all_returned}

abbrev sizes : List ℕ
sizes = 1 ∷ []

going : all_shut (λ s j. timeout) 0 sizes ≡ false
unfolding all_shut run_all_queues run_completion_queues tally execute_cq
going = refl

shut : all_shut (λ s j. shutdown) 0 sizes ≡ true
unfolding all_shut run_all_queues run_completion_queues tally execute_cq
shut = refl

-- The post, the call of the thunk, and the end of the worker.
returned :
    (s : Crew) × Reach sizes 1 1 1 s
    × (s.duties ≡ done ∷ outside ∷ [])
    × (s.system.threads ≡ idle ∷ idle ∷ [])
    × (s.ran ≡ 7 ∷ [])
unfolding make try_push try_pop eject signal_done
returned =
    let r1 : Reach sizes 1 1 1 _ =
      later start (access 1 refl refl (begin_push 7 refl (start_push 7))) in
    let r2 : Reach sizes 1 1 1 _ =
      later r1 (access 1 refl refl (inside (cc) (cc) (see_live refl))) in
    let r3 : Reach sizes 1 1 1 _ = later r2 (access 1 refl refl (inside (cc) (cc) choose)) in
    let r4 : Reach sizes 1 1 1 _ =
      later r3 (access 1 refl refl (inside (cc) (cc) (put (omega arith) refl))) in
    let r5 : Reach sizes 1 1 1 _ = later r4 (access 1 refl refl (pushed leave)) in
    let r6 : Reach sizes 1 1 1 _ =
      later r5 (access 0 refl refl (begin_pop (λ s j. timeout) going start_pop)) in
    let r7 : Reach sizes 1 1 1 _ =
      later r6 (access 0 refl refl (popped (take (omega arith) refl) refl)) in
    let r8 : Reach sizes 1 1 1 _ = later r7 (go_on 0 refl refl call) in
    let r9 : Reach sizes 1 1 1 _ = later r8 (go_on 0 refl refl back) in
    let r10 : Reach sizes 1 1 1 _ = later r9 (go_on 0 refl refl next) in
    let r11 : Reach sizes 1 1 1 _ =
      later r10 (access 0 refl refl (begin_eject (λ s j. shutdown) shut start_drain)) in
    let r12 : Reach sizes 1 1 1 _ =
      later r11 (access 0 refl refl (inside (cc) (cc) (eject_one (omega arith)))) in
    let r13 : Reach sizes 1 1 1 _ =
      later r12 (access 0 refl refl (inside (cc) (cc) (end_pass refl))) in
    let r14 : Reach sizes 1 1 1 _ = later r13 (access 0 refl refl (ejected (return refl))) in
    (_, later r14 (go_on 0 refl refl finish), refl, refl, refl)

Reach-all_returned_example :
    (count 7 returned.0.system.shared.accepted
      ≡ count 7 returned.0.ran + count 7 (contents returned.0.system.shared.queues))
    × (count 7 returned.0.system.shared.submitted
        ≡ count 7 returned.0.system.shared.accepted + count 7 returned.0.system.shared.refused)
Reach-all_returned_example =
    Reach-all_returned (omega arith) (omega arith) returned.1 returned.2 returned.3 7

all_queues_shut : (i : ℕ) → all_shut (λ s j. shutdown) i sizes ≡ true
unfolding all_shut run_all_queues run_completion_queues tally execute_cq
all_queues_shut i = refl

-- The worker leaves its loop at once.
leaving_at_once : (t : Crew) × Schedule sizes (init 1 1 1) 1 t
leaving_at_once = (
  _,
  longer (here refl)
      (access 0 refl refl (begin_eject (λ s j. shutdown) (all_queues_shut 0) start_drain)) tt refl,
)

Schedule-ends_example :
    (1 ≤ measure (init 1 1 1))
    × ((i : ℕ) (d : Duty) (p : Pc)
        → get_elem? leaving_at_once.0.duties i ≡ some d
        → get_elem? leaving_at_once.0.system.threads i ≡ some p
        → GoesOn sizes leaving_at_once.0 d p)
unfolding total
Schedule-ends_example =
    Schedule-ends {n_workers = 1} {n_outside = 1} (omega arith) (omega arith) (λ s j. shutdown)
      all_queues_shut start refl leaving_at_once.1
