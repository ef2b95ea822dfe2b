-- ===== src/Rpc/Delivery.antt =====
-- RPCs from `start` to the receiver: the context, its completion queues with the InflightRpc in them, the
-- threads that start RPCs, one that stops the context, the workers that execute the queues, and gRPC.
-- RPCs are named by numbers, one for each receiver. A step is one access to shared memory, or one call,
-- of one of them: the parts of a start and of a stop, `AsyncNext`, and the completion of an event.
mod Queues
mod Posts
mod Invariant
mod Moves
mod Ends
pub mod Told
mod Examples
use grpc_p.Base.{
  ℕ, suc, ◌+◌, ◌^◌, ◌<◌, ◌≡◌, Bool, true, false, Option, none, some, List, [], ◌∷◌, ◌++◌, set,
  get_or, length, replicate, if◌then◌else◌,
}
use grpc_p.Status.RpcStatus.{RpcStatus}
use grpc_p.Context.State.{set_state, can_post, shutting_down}
use grpc_p.Context.Defs.{ExecutionContext, make_rpc}
use grpc_p.Context.Post.{construct, enter_post, leave_post, get_next_cq, call_on_next}
use grpc_p.Context.Lifecycle.{run_while}
use grpc_p.Context.Worker.{NextStatus, shutdown, got_event, timeout}
use grpc_p.Rpc.Signal.{Exception, Signal}
use grpc_p.Rpc.Wrapped.{Converted, after_post}
use grpc_p.Rpc.Once.{Answer}
use grpc_p.Rpc.Shared.{to, answer_call}

-- A completion queue: the InflightRpc that wait for an answer, those that are answered, and whether
-- `Shutdown` has been called.
pub record CompletionQueue (V : Type 0) : Type 0 where
  pub waiting : List ℕ
  pub answered : List (ℕ × Answer V)
  pub is_shutdown : Bool

abbrev pub new_queue : {V : Type 0} → CompletionQueue V
new_queue = record { waiting = []; answered = []; is_shutdown = false }

module _ {V : Type 0} where
  abbrev pub shut_down : CompletionQueue V → CompletionQueue V
  shut_down q = record q { is_shutdown = true }

  next_of : List (ℕ × Answer V) → List ℕ → (is_shutdown : Bool) → NextStatus
  next_of (e ∷ es) waiting is_shutdown = got_event
  next_of [] [] true = shutdown
  next_of [] waiting is_shutdown = timeout

  -- What `AsyncNext` returns: a queue that is shut down gives its events first.
  unfoldable pub next_status : CompletionQueue V → NextStatus
  unfolding next_of
  next_status q = next_of q.answered q.waiting q.is_shutdown

-- How far a thread is in `start` with its RPC: after the `fetch_add` of `post`; after the test of the
-- state; after the call; and, where it was refused, after `post` has returned.
pub data Phase : Type 0 where
  entered allowed refused made declined : Phase

-- How far the stop is: its busy wait, or the loop of `Shutdown`, before the queue with the number.
pub data Stop : Type 0 where
  not_begun : Stop
  waiting : Stop
  halting : ℕ → Stop

-- `held` is the events that workers have got from `AsyncNext` and have yet to complete.
pub record State (R V : Type 0) : Type 0 where
  pub context : ExecutionContext (Unit {0}) ℕ
  pub posts : List (ℕ × Phase)
  pub stop : Stop
  pub cqs : List (CompletionQueue V)
  pub held : List (ℕ × Answer V)
  pub started : List ℕ
  pub sent : List (ℕ × Signal (Option R) RpcStatus)

module _ {R V : Type 0} (is_void : Bool) (throws : Option R → Option Exception)
    (convert : V → Converted R) where
  -- `start`, to the `fetch_add` of `post`.
  unfoldable pub begin_start : (op : ℕ) → State R V → State R V
  begin_start op s = record s {
    context = enter_post s.context;
    posts = (op, entered) ∷ s.posts;
    started = op ∷ s.started;
  }

  -- The InflightRpc on the next queue.
  unfoldable pub make_inflight : (op : ℕ) → State R V → State R V
  make_inflight op s =
      let j = (get_next_cq s.context).0 in
      let q = get_or s.cqs j new_queue in
      record s {
        context = call_on_next (λ cq. make_rpc cq op) s.context;
        cqs = set s.cqs j (record q { waiting = op ∷ q.waiting });
      }

  -- The next part of a `start`, and where it is then.
  unfoldable pub go_on : (op : ℕ) → Phase → State R V → State R V × List (ℕ × Phase)
  unfolding make_inflight
  go_on op entered s = (s, (op, (if can_post s.context.state then allowed else refused)) ∷ [])
  go_on op allowed s = (make_inflight op s, (op, made) ∷ [])
  go_on op refused s = (record s { context = leave_post s.context }, (op, declined) ∷ [])
  go_on op made s = (record s { context = leave_post s.context }, [])
  go_on op declined s = (
    record s { sent = s.sent ++ to is_void throws convert op (after_post is_void throws false) },
    [],
  )

  -- `stop`, to its busy wait.
  unfoldable pub begin_stop : State R V → State R V
  begin_stop s =
      let (shutdown_set, state) = set_state shutting_down s.context.state in
      record s {
        context = record s.context { state = state };
        stop = if shutdown_set then waiting else s.stop;
      }

  -- `Shutdown` of queue `j`.
  unfoldable pub halt_one : (j : ℕ) → State R V → State R V
  halt_one j s = record s {
    cqs = set s.cqs j (shut_down (get_or s.cqs j new_queue));
    stop = halting (suc j);
  }

  get_from : List (ℕ × Answer V) → (j : ℕ) → State R V → State R V
  get_from [] j s = s
  get_from (e ∷ es) j s = record s {
    cqs = set s.cqs j (record (get_or s.cqs j new_queue) { answered = es });
    held = e ∷ s.held;
  }

  -- `AsyncNext` of queue `j`, by a worker in `execute_cq_`.
  unfoldable pub get_event : (j : ℕ) → State R V → State R V
  unfolding get_from
  get_event j s = get_from (get_or s.cqs j new_queue).answered j s

  -- An event is completed, and deletes itself. `es` is the events held otherwise.
  unfoldable pub complete_event : ℕ × Answer V → (es : List (ℕ × Answer V)) → State R V → State R V
  complete_event (op, a) es s = record s {
    held = es;
    sent = s.sent ++ answer_call is_void throws convert (some op) a;
  }

  pub data Step (s : State R V) : State R V → Type 0 where
    starts : (op : ℕ) → length s.posts + 1 < 2 ^ 64 → Step s (begin_start op s)
    -- A thread goes on in `start`.
    posts_on :
        (xs ys : List (ℕ × Phase)) (op : ℕ) (p : Phase)
        → s.posts ≡ xs ++ (op, p) ∷ ys
        → Step s (record (go_on op p s).0 { posts = xs ++ ((go_on op p s).1 ++ ys) })
    runs : Step s (record s { context = run_while s.context })
    stops : Step s (begin_stop s)
    -- The busy wait ends.
    waited :
        s.stop ≡ waiting → s.context.within_cq_post ≡ 0 → Step s (record s { stop = halting 0 })
    halts : (j : ℕ) → s.stop ≡ halting j → j < s.context.cqs → Step s (halt_one j s)
    -- gRPC is done with a call.
    answers :
        (j : ℕ) (xs ys : List ℕ) (op : ℕ) (a : Answer V)
        → j < s.context.cqs
        → (get_or s.cqs j new_queue).waiting ≡ xs ++ op ∷ ys
        → Step s (record s {
          cqs = set s.cqs j (record (get_or s.cqs j new_queue) {
            waiting = xs ++ ys;
            answered = (get_or s.cqs j new_queue).answered ++ (op, a) ∷ [];
          });
        })
    -- A worker asks a queue.
    gets : (j : ℕ) → j < s.context.cqs → Step s (get_event j s)
    -- A worker completes the event that it got.
    completes :
        (xs ys : List (ℕ × Answer V)) (e : ℕ × Answer V)
        → s.held ≡ xs ++ e ∷ ys
        → Step s (complete_event e (xs ++ ys) s)

  abbrev pub init : (n_threads number_cqs : ℕ) → State R V
  init n_threads number_cqs = record {
    context = construct n_threads number_cqs;
    posts = [];
    stop = not_begun;
    cqs = replicate number_cqs new_queue;
    held = [];
    started = [];
    sent = [];
  }

  -- Runs from one state to another.
  pub data Run (s : State R V) : State R V → Type 0 where
    here : Run s s
    later : {t u : State R V} → Run s t → Step t u → Run s u
