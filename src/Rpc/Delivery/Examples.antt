-- ===== src/Rpc/Delivery/Examples.antt =====
-- The theorem on RPCs at a concrete run: one call that is answered, and one whose post meets the stop.
use grpc_p.Base.{ℕ, ◌≡◌, refl, true, false, Option, none, [], ◌∷◌, arith, get_or}
use grpc_p.Queue.Stealing.{StealingQueue, make}
use grpc_p.Status.GrpcCode.{StatusCode}
use grpc_p.Context.State.{set_state}
use grpc_p.Context.Post.{construct, call_on_next, get_next_cq}
use grpc_p.Context.Lifecycle.{run_while}
use grpc_p.Context.Worker.{turn, run_all_queues, run_completion_queues, tally, execute_cq}
use grpc_p.Rpc.Signal.{Exception}
use grpc_p.Rpc.Wrapped.{Converted, converted}
use grpc_p.Rpc.Once.{Answer}
use grpc_p.Rpc.Delivery.{
  new_queue, next_status, begin_start, make_inflight, go_on, begin_stop, halt_one, get_event,
  entered, allowed, refused, made, State, starts, posts_on, runs, stops, waited, halts, answers,
  gets, Run, here, later, init,
}
use grpc_p.Rpc.Delivery.Ends.{Told}

abbrev never_throws : Option ℕ → Option Exception
never_throws v = none

abbrev convert : ℕ → Converted ℕ
convert v = converted v

abbrev answer : Answer ℕ
answer = record {
  rpc_ok = true;
  status = record { code = StatusCode.ok; message = "" };
  response = 42;
}

abbrev tasks : StealingQueue ℕ
tasks = make 1

abbrev Runs : State ℕ ℕ → State ℕ ℕ → Type 0
Runs s t = Run false never_throws convert s t

-- The RPC 5 has been made and is not answered, and the stop waits.
stopping : (s : State ℕ ℕ) × Runs (init false never_throws convert 1 1) s × (s.context.cqs ≡ 1)
unfolding begin_start go_on make_inflight call_on_next get_next_cq run_while construct begin_stop
    set_state
stopping =
    let start = init false never_throws convert 1 1 in
    let r1 : Runs start _ = later here runs in
    let r2 : Runs start _ = later r1 (starts 5 (omega arith)) in
    let r3 : Runs start _ = later r2 (posts_on [] [] 5 entered refl) in
    let r4 : Runs start _ = later r3 (posts_on [] [] 5 allowed refl) in
    let r5 : Runs start _ = later r4 stops in
    let r6 : Runs start _ = later r5 (posts_on [] [] 5 made refl) in
    let r7 : Runs start _ = later r6 (starts 6 (omega arith)) in
    let r8 : Runs start _ = later r7 (posts_on [] [] 6 entered refl) in
    let r9 : Runs start _ = later r8 (posts_on [] [] 6 refused refl) in (_, r9, refl)

-- It is answered, and a worker has its event; the queue has been shut down.
finished : (s : State ℕ ℕ) × Runs stopping.0 s
unfolding stopping halt_one get_event
finished =
    let r1 : Runs stopping.0 _ = later here (waited refl refl) in
    let r2 : Runs stopping.0 _ = later r1 (answers 0 [] [] 5 answer (omega arith) refl) in
    let r3 : Runs stopping.0 _ = later r2 (halts 0 refl (omega arith)) in
    let r4 : Runs stopping.0 _ = later r3 (gets 0 (omega arith)) in (_, r4)

-- The worker that asks then leaves, while the other holds the event.
leaves_then :
    (turn
      (λ i. true)
      (λ set j. next_status (get_or finished.0.cqs j new_queue))
      0
      (1 ∷ [])
      tasks).leaves
    ≡ true
unfolding finished stopping turn next_status run_all_queues run_completion_queues tally execute_cq
leaves_then = refl
