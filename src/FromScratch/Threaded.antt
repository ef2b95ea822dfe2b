-- ===== src/FromScratch/Threaded.antt =====
-- examples/from-scratch.cpp: thread_context, the run loop on a thread of its own, with a main thread that
-- waits for senders on it, one after the other. The two threads interleave; a call that blocks is a
-- thread without a step.
mod Trace
pub mod Ends
mod Examples
use grpc_p.Base.{
  ℕ, ◌+◌, ◌≡◌, Bool, true, false, Option, none, some, List, [], ◌∷◌, ◌++◌, if◌then◌else◌,
}
use grpc_p.FromScratch.RunLoop as RunLoop
use grpc_p.FromScratch.RunLoop.{
  Loop, Popped, blocked, null, task, new_loop, push_back, pop_front, finish,
}
use grpc_p.FromScratch.Senders.{
  Sender, then_, Control, new_control, sync_wait_receiver, Waited, rethrown, blocks, waited,
}
use grpc_p.FromScratch.Senders as Senders
use grpc_p.FromScratch.Scheduled.{scheduled}

-- Where the main thread stands: before the `sync_wait` of the first of `todo` or, if that is empty,
-- before `finish`; in the wait of a `sync_wait`; in `join`; at the end; or out by an exception, which
-- the destructor of the thread turns into `std::terminate`.
pub data Main : Type 0 where
  calling : (todo : List ℕ) → Main
  waiting : (todo : List ℕ) → Main
  joining finished terminated : Main

-- Where the thread stands that runs the loop: before `pop_front`, or before the call of `execute`.
pub data Worker : Type 0 where
  looping : Worker
  executing : (op : ℕ) → Worker
  returned : Worker

pub record State (E : Type 0) : Type 0 where
  pub loop : Loop
  pub control : Control ℕ E  -- of the latest `sync_wait`
  pub main : Main
  pub worker : Worker
  pub values : List ℕ  -- returned by the calls of `sync_wait`

-- The sender of example_3_threaded_execution.
unfoldable pub example_sender : {E : Type 0} → Sender ℕ E
unfolding scheduled then_
example_sender {E} = then_ (then_ (scheduled E) (λ _. 42)) (λ i. i + 1)

-- The operation at address `op` is what `connect` makes of `work op` and a receiver of `sync_wait`.
module _ {E : Type 0} (work : ℕ → Sender ℕ E) where
  -- The end of a `sync_wait`, once it has been woken, with the `value()` of the result.
  woken : Waited ℕ E → (todo : List ℕ) → State E → Option (State E)
  woken (Senders.returned (some v)) todo s =
      some (record s { main = calling todo; values = s.values ++ v ∷ [] })
  woken (Senders.returned none) todo s = some (record s { main = terminated })
  woken (rethrown e) todo s = some (record s { main = terminated })
  woken blocks todo s = none

  joined : Worker → State E → Option (State E)
  joined returned s = some (record s { main = finished })
  joined _ s = none

  main_at : Main → State E → Option (State E)
  unfolding woken joined
  main_at (calling []) s = some (record s { loop = finish s.loop; main = joining })
  main_at (calling (op ∷ todo)) s =
      some (record s { loop = push_back op s.loop; control = new_control; main = waiting todo })
  main_at (waiting todo) s = woken (waited s.control) todo s
  main_at joining s = joined s.worker s
  main_at _ s = none

  unfoldable pub main_step : State E → Option (State E)
  unfolding main_at
  main_step s = main_at s.main s

  popped : Popped → Loop → State E → Option (State E)
  popped blocked l s = none
  popped null l s = some (record s { loop = l; worker = returned })
  popped (task op) l s = some (record s { loop = l; worker = executing op })

  worker_at : Worker → State E → Option (State E)
  unfolding popped
  worker_at looping s = popped (pop_front s.loop).0 (pop_front s.loop).1 s
  worker_at (executing op) s = some (record s {
    control = work op (Control ℕ E → Control ℕ E) sync_wait_receiver s.control;
    worker = looping;
  })
  worker_at returned s = none

  -- `run`, one call at a time.
  unfoldable pub worker_step : State E → Option (State E)
  unfolding worker_at
  worker_step s = worker_at s.worker s

  -- The scheduler picks a thread that is not blocked.
  pub data Step (s t : State E) : Type 0 where
    by_main : main_step s ≡ some t → Step s t
    by_worker : worker_step s ≡ some t → Step s t

  pub data Steps (s : State E) : ℕ → State E → Type 0 where
    here : {n : ℕ} → n ≡ 0 → Steps s n s
    after : {n m : ℕ} {t u : State E} → Steps s n t → Step t u → m ≡ n + 1 → Steps s m u

-- A new thread_context, and the operations that the main thread will wait for.
abbrev pub init : {E : Type 0} → (todo : List ℕ) → State E
init todo = record {
  loop = new_loop;
  control = new_control;
  main = calling todo;
  worker = looping;
  values = [];
}
