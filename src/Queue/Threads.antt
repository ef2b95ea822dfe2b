-- ===== src/Queue/Threads.antt =====
-- detail/atomic_task_stealing_queue.hpp: any number of threads over one AtomicTaskStealingQueue, one
-- access to shared memory at a time, sequentially consistent. Thunks are numbers.
pub mod Invariant
pub mod Safety
pub mod Lost
mod Examples
use grpc_p.Base.{
  ℕ, suc, ◌+◌, ◌<◌, ◌≡◌, Bool, true, false, Option, none, some, List, [], ◌∷◌, ◌++◌, get_or, set,
  get_elem?, replicate,
}
use grpc_p.Queue.Locking as Locking
use grpc_p.Queue.Locking.{LockingQueue, try_push, eject}
use grpc_p.Queue.Stealing.{
  StealingQueue, u32, slot, no_queue, make, signal_done, enter_push, leave_push,
}

-- Where a thread stands in `push`, `try_pop` or `stop_and_eject`, with its live locals.
pub data Pc : Type 0 where
  idle : Pc
  entered : ℕ → Pc  -- before the load of `is_done_`
  choosing : ℕ → Pc  -- at the head of the outer `for`
  trying : (x offset i : ℕ) → Pc
  leaving : ℕ → Pc  -- pushed, before the last `fetch_sub`
  refusing : ℕ → Pc  -- not pushed, before the last `fetch_sub`
  popping : (offset i : ℕ) → Pc
  draining : List ℕ → ℕ → Pc  -- in the `for` of `stop_and_eject`
  testing : List ℕ → Pc  -- before the load of `in_push_`

-- The queue, and a record of what has gone in and come out.
pub record Shared : Type 0 where
  pub mem : StealingQueue ℕ
  pub open mem use *
  pub submitted : List ℕ  -- given to `push`
  pub accepted : List ℕ  -- `push` has returned true
  pub refused : List ℕ  -- `push` has returned false
  pub delivered : List ℕ  -- returned by `try_pop` or `stop_and_eject`
  pub drains : ℕ  -- calls of `stop_and_eject` that have returned

abbrev at_slot : Shared → ℕ → ℕ → LockingQueue ℕ
at_slot m offset i = get_or m.queues (slot offset i m.n_queues) no_queue

abbrev put_slot : Shared → ℕ → ℕ → LockingQueue ℕ → StealingQueue ℕ
put_slot m offset i q = record m.mem { queues = set m.queues (slot offset i m.n_queues) q }

-- One step of one thread.
pub data Move (m : Shared) : Pc → Shared → Pc → Type 0 where
  start_push :
      (x : ℕ)
      → Move m idle (record m { mem = enter_push m.mem; submitted = x ∷ m.submitted }) (entered x)
  see_done : {x : ℕ} → m.is_done ≡ true → Move m (entered x) m (refusing x)
  see_live : {x : ℕ} → m.is_done ≡ false → Move m (entered x) m (choosing x)
  choose :
      {x : ℕ}
      → Move m
          (choosing x)
          (record m { mem = record m.mem { push_index = u32 (m.push_index + 1) } })
          (trying x m.push_index 0)
  put :
      {x o i : ℕ} {q : LockingQueue ℕ}
      → i < m.n_queues
      → try_push true x (at_slot m o i) ≡ some q
      → Move m (trying x o i) (record m { mem = put_slot m o i q }) (leaving x)
  miss :
      {x o i : ℕ}
      → i < m.n_queues
      → try_push false x (at_slot m o i) ≡ none
      → Move m (trying x o i) m (trying x o (suc i))
  again : {x o i : ℕ} → i ≡ m.n_queues → Move m (trying x o i) m (choosing x)
  leave :
      {x : ℕ}
      → Move m (leaving x) (record m { mem = leave_push m.mem; accepted = x ∷ m.accepted }) idle
  leave_refused :
      {x : ℕ}
      → Move m (refusing x) (record m { mem = leave_push m.mem; refused = x ∷ m.refused }) idle
  start_pop :
      Move m idle
        (record m { mem = record m.mem { pop_index = u32 (m.pop_index + 1) } })
        (popping m.pop_index 0)
  take :
      {o i x : ℕ} {q : LockingQueue ℕ}
      → i < m.n_queues
      → Locking.try_pop true (at_slot m o i) ≡ some (x, q)
      → Move m (popping o i) (record m { mem = put_slot m o i q; delivered = x ∷ m.delivered }) idle
  pass :
      {o i : ℕ} (acquired : Bool)
      → i < m.n_queues
      → Locking.try_pop acquired (at_slot m o i) ≡ none
      → Move m (popping o i) m (popping o (suc i))
  give_up : {o i : ℕ} → i ≡ m.n_queues → Move m (popping o i) m idle
  start_drain : Move m idle (record m { mem = signal_done m.mem }) (draining [] 0)
  eject_one :
      {got : List ℕ} {i : ℕ}
      → i < m.n_queues
      → Move m
          (draining got i)
          (record m {
            mem = record m.mem { queues = set m.queues i (eject (get_or m.queues i no_queue)).1 };
          })
          (draining (got ++ (eject (get_or m.queues i no_queue)).0) (suc i))
  end_pass : {got : List ℕ} {i : ℕ} → i ≡ m.n_queues → Move m (draining got i) m (testing got)
  repeat : {got : List ℕ} → 0 < m.in_push → Move m (testing got) m (draining got 0)
  return :
      {got : List ℕ}
      → m.in_push ≡ 0
      → Move m
          (testing got)
          (record m { delivered = got ++ m.delivered; drains = suc m.drains })
          idle

pub record System : Type 0 where
  pub shared : Shared
  pub threads : List Pc

-- The scheduler picks a thread.
pub data Step (s : System) : System → Type 0 where
  pick :
      (i : ℕ) {p p' : Pc} {m' : Shared}
      → get_elem? s.threads i ≡ some p
      → Move s.shared p m' p'
      → Step s (record { shared = m'; threads = set s.threads i p' })

abbrev pub init : ℕ → ℕ → System
init n_queues n_threads = record {
  shared = record {
    mem = make n_queues;
    submitted = [];
    accepted = [];
    refused = [];
    delivered = [];
    drains = 0;
  };
  threads = replicate n_threads idle;
}

pub data Reach (n_queues n_threads : ℕ) : System → Type 0 where
  start : Reach n_queues n_threads (init n_queues n_threads)
  later : {s t : System} → Reach n_queues n_threads s → Step s t → Reach n_queues n_threads t
