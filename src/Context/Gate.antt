-- ===== src/Context/Gate.antt =====
-- execution_context.cpp under threads: posts to the completion queues, run_while, stop and
-- add_notify_at_stopped, by any number of threads that are not the context's own, one access to shared
-- memory or one critical section at a time, sequentially consistent.
mod Counts
mod Moves
pub mod Invariant
pub mod Safety
pub mod Unjoined
mod Examples
use grpc_p.Base.{
  ℕ, ◌<◌, ◌≡◌, Bool, true, false, none, some, List, [], ◌∷◌, ◌++◌, get_elem?, set, replicate,
}
use grpc_p.Base.Int.{ℤ}
use grpc_p.Status.Timespec.{duration_to_grp_timespec}
use grpc_p.Context.State.{ExecutionState, running, shutting_down, stopped, set_state, can_post}
use grpc_p.Context.Defs.{ExecutionContext, Call, set_alarm, make_rpc, notify}
use grpc_p.Context.Post.{construct, enter_post, leave_post, call_on_next}
use grpc_p.Context.Lifecycle.{
  ok, attach_server, shutdowns, all_server_shutdowns, joins, add_notify_at_stopped,
}
use grpc_p.Context.History.{after}
use grpc_p.Queue.Stealing.{StealingQueue}

-- The two posts that name a completion queue, with their arguments.
pub data Post {ℓ κ} (T : Type ℓ) (F : Type κ) : Type (ℓ ⊔ κ) where
  delayed : (Bool → T) → ℤ → Post T F
  rpc : F → Post T F

-- The call that an accepted post makes.
abbrev pub call_of {ℓ κ} : {T : Type ℓ} {F : Type κ} → Post T F → ℕ → Call T F
call_of (delayed thunk delta) cq = set_alarm cq thunk (duration_to_grp_timespec delta)
call_of (rpc factory) cq = make_rpc cq factory

-- Where a thread stands, with its live locals.
pub data Pc {ℓ κ} (T : Type ℓ) (F : Type κ) : Type (ℓ ⊔ κ) where
  idle : Pc T F
  entered : Post T F → Pc T F  -- before the load of `state_`
  posting : Post T F → Pc T F  -- `can_post` is true, before the call
  leaving : Pc T F  -- before the `fetch_sub`
  starting : Pc T F  -- in `run_while`, after its lock
  waiting : Pc T F  -- in the busy wait of `stop`
  halting : List (Call T F) → Pc T F  -- in the loops of `Shutdown`, with the calls to come
  joining : List (Call T F) → Pc T F
  notifying : List T → Pc T F

-- One step of one thread.
pub data Move {ℓ κ} {T : Type ℓ} {F : Type κ} (c : ExecutionContext T F)
    : Pc T F → ExecutionContext T F → Pc T F → Type (ℓ ⊔ κ) where
  enter : (p : Post T F) → Move c idle (enter_post c) (entered p)
  see_open : {p : Post T F} → can_post c.state ≡ true → Move c (entered p) c (posting p)
  see_shut : {p : Post T F} → can_post c.state ≡ false → Move c (entered p) c leaving
  make_call : {p : Post T F} → Move c (posting p) (call_on_next (call_of p) c) leaving
  leave : Move c leaving (leave_post c) idle
  -- Any other thread may use the task queue at any time.
  post_task : (q : StealingQueue T) → Move c idle (record c { task_queue = q }) idle
  attach : (work_queues : ℕ) → Move c idle (after c (attach_server work_queues c)) idle
  register : (t : T) → Move c idle (add_notify_at_stopped t c) idle
  run :
      (set_state running c.state).0 ≡ true
      → Move c idle (record c { state = (set_state running c.state).1 }) starting
  run_not :
      (set_state running c.state).0 ≡ false
      → Move c idle (record c { state = (set_state running c.state).1 }) idle
  start_threads : Move c starting (record c { threads = c.n_threads }) idle
  stop :
      (set_state shutting_down c.state).0 ≡ true
      → Move c idle (record c { state = (set_state shutting_down c.state).1 }) waiting
  stop_not :
      (set_state shutting_down c.state).0 ≡ false
      → Move c idle (record c { state = (set_state shutting_down c.state).1 }) idle
  wait : 0 < c.within_cq_post → Move c waiting c waiting
  waited :
      c.within_cq_post ≡ 0
      → Move c waiting c (halting (shutdowns c.cqs 0 ++ all_server_shutdowns 0 c.servers))
  halt_one :
      {call : Call T F} {cs : List (Call T F)}
      → Move c (halting (call ∷ cs)) (record c { calls = c.calls ++ call ∷ [] }) (halting cs)
  join_all :
      {cs : List (Call T F)} → joins none c.threads 0 ≡ ok cs → Move c (halting []) c (joining cs)
  join_one :
      {call : Call T F} {cs : List (Call T F)}
      → Move c (joining (call ∷ cs)) (record c { calls = c.calls ++ call ∷ [] }) (joining cs)
  joined :
      Move c
        (joining [])
        (record c { threads = 0; state = (set_state stopped c.state).1; notifications = [] })
        (notifying c.notifications)
  notify_one :
      {t : T} {ts : List T}
      → Move c (notifying (t ∷ ts)) (record c { calls = c.calls ++ notify t ∷ [] }) (notifying ts)
  notified_all : Move c (notifying []) c idle

pub record System {ℓ κ} (T : Type ℓ) (F : Type κ) : Type (ℓ ⊔ κ) where
  pub context : ExecutionContext T F
  pub threads : List (Pc T F)

-- The scheduler picks a thread.
pub data Step {ℓ κ} {T : Type ℓ} {F : Type κ} (s : System T F) : System T F → Type (ℓ ⊔ κ) where
  pick :
      (i : ℕ) {p p' : Pc T F} {c' : ExecutionContext T F}
      → get_elem? s.threads i ≡ some p
      → Move s.context p c' p'
      → Step s (record { context = c'; threads = set s.threads i p' })

abbrev pub init {ℓ κ} : {T : Type ℓ} {F : Type κ} → (n_threads number_cqs callers : ℕ) → System T F
init n_threads number_cqs callers = record {
  context = construct n_threads number_cqs;
  threads = replicate callers idle;
}

pub data Reach {ℓ κ} {T : Type ℓ} {F : Type κ} (n_threads number_cqs callers : ℕ)
    : System T F → Type (ℓ ⊔ κ) where
  start : Reach n_threads number_cqs callers (init n_threads number_cqs callers)
  later :
      {s t : System T F}
      → Reach n_threads number_cqs callers s
      → Step s t
      → Reach n_threads number_cqs callers t
