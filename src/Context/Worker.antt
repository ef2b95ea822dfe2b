-- ===== src/Context/Worker.antt =====
-- execution_context.cpp: execute_cq_ and run_one_thread_, for one thread of a context whose predicate is
-- that of `run`, and with thunks that do not themselves use the context.
pub mod Round
pub mod Leaves
pub mod Drains
pub mod Throws
mod Examples
use grpc_p.Base.{
  ℕ, zero, suc, ◌+◌, Bool, true, false, Option, none, some, List, [], ◌∷◌, ◌++◌, if◌then◌else◌,
  ◌==◌,
}
use grpc_p.Queue.Stealing.{StealingQueue, u32, slot, steal, stop_and_eject}

-- What `AsyncNext` returns.
pub data NextStatus : Type 0 where
  shutdown got_event timeout : NextStatus

pub data CqExecutionResult : Type 0 where
  executed_none executed_one shutdown_requested : CqExecutionResult

-- `execute_cq_`; the event that it got is completed.
unfoldable pub execute_cq : NextStatus → CqExecutionResult
execute_cq shutdown = shutdown_requested
execute_cq got_event = executed_one
execute_cq timeout = executed_none

-- The three counters of an iteration, of 32 bits.
pub record Counts : Type 0 where
  pub things_executed : ℕ
  pub shutdown_cq : ℕ
  pub total_cq : ℕ

-- The `switch` on a result.
unfoldable pub tally : CqExecutionResult → Counts → Counts
tally executed_none k = k
tally executed_one k = record k { things_executed = u32 (k.things_executed + 1) }
tally shutdown_requested k = record k { shutdown_cq = u32 (k.shutdown_cq + 1) }

-- The `for` of `run_completion_queues`. `answer j` is what queue `j` of the set answers, if asked.
unfoldable pub ask_queues :
    (answer : ℕ → NextStatus) → (thread_number size current : ℕ) → (left i : ℕ) → Counts → Counts
ask_queues answer thread_number size current zero i k = k
ask_queues answer thread_number size current (suc left) i k =
    let rest : Counts =
      ask_queues answer thread_number size current left (suc i)
        (tally (execute_cq (answer (slot thread_number i size))) k) in
    if current == k.things_executed then rest else k

unfoldable pub run_completion_queues :
    (answer : ℕ → NextStatus) → (thread_number size : ℕ) → Counts → Counts
unfolding ask_queues
run_completion_queues answer thread_number size k =
    ask_queues answer thread_number size k.things_executed size 0
      (record k { total_cq = u32 (k.total_cq + size) })

-- The sets of queues in turn, the context's own and then each server's. `answers s` are the answers of
-- set `s`.
unfoldable pub run_all_queues :
    (answers : ℕ → ℕ → NextStatus) → (thread_number : ℕ) → (sizes : List ℕ) → Counts → Counts
run_all_queues answers thread_number [] k = k
run_all_queues answers thread_number (size ∷ sizes) k =
    run_all_queues (λ s. answers (suc s)) thread_number sizes
      (run_completion_queues (answers 0) thread_number size k)

abbrev pub no_counts : Counts
no_counts = record { things_executed = 0; shutdown_cq = 0; total_cq = 0 }

-- What one iteration of the `while` does.
pub record Turn {ℓ} (T : Type ℓ) : Type ℓ where
  pub leaves : Bool  -- `break`
  pub ran : Option T  -- the thunk taken and run
  pub sleeps : Bool
  pub queue : StealingQueue T  -- the task queue afterwards

module _ {ℓ} {T : Type ℓ} where
  unfoldable pub ran_one : Option T → ℕ
  ran_one none = 0
  ran_one (some t) = 1

  unfoldable pub turn :
      (locks : ℕ → Bool)
      → (answers : ℕ → ℕ → NextStatus) → (thread_number : ℕ) → (sizes : List ℕ) → StealingQueue T
      → Turn T
  unfolding ran_one
  turn locks answers thread_number sizes q =
      let k = run_all_queues answers thread_number sizes no_counts in
      let (thunk, q') = steal locks q in
      if k.shutdown_cq == k.total_cq
      then record { leaves = true; ran = none; sleeps = false; queue = q }
      else record {
        leaves = false;
        ran = thunk;
        sleeps = u32 (k.things_executed + ran_one thunk) == 0;
        queue = q';
      }

  unfoldable pub thunk_list : Option T → List T
  thunk_list none = []
  thunk_list (some t) = t ∷ []

  unfoldable pub ran_then :
      List T → Option (List T × StealingQueue T) → Option (List T × StealingQueue T)
  ran_then ts none = none
  ran_then ts (some (us, q)) = some (ts ++ us, q)

  -- `run_one_thread_`, for `fuel` iterations at most; `locks r` and `answers r` are those of iteration
  -- `r`. The thunks run, in order, and the task queue after; `none` means that it still runs.
  unfoldable pub run_one_thread :
      (locks : ℕ → ℕ → Bool)
      → (answers : ℕ → ℕ → ℕ → NextStatus) → (thread_number : ℕ) → (sizes : List ℕ) → (fuel r : ℕ)
      → StealingQueue T
      → Option (List T × StealingQueue T)
  unfolding thunk_list ran_then
  run_one_thread locks answers thread_number sizes zero r q = none
  run_one_thread locks answers thread_number sizes (suc fuel) r q =
      let t = turn (locks r) (answers r) thread_number sizes q in
      let rest : Option (List T × StealingQueue T) =
        run_one_thread locks answers thread_number sizes fuel (suc r) t.queue in
      if t.leaves then stop_and_eject (suc fuel) t.queue else ran_then (thunk_list t.ran) rest
