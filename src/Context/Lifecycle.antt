-- ===== src/Context/Lifecycle.antt =====
-- execution_context.cpp: attaching servers, running, stopping and the notifications, by one thread.
use grpc_p.Base.{
  ℕ, zero, suc, Option, none, some, List, [], ◌∷◌, ◌++◌, map, if◌then◌else◌, ◌==◌, ltb,
}
use grpc_p.Context.State.{ready, running, shutting_down, stopped, rank, set_state}
use grpc_p.Context.Defs.{ExecutionContext, Call, shutdown, shutdown_server, join, notify}

-- What a call may throw: `runtime_error` from `attach_server`, and `system_error` from a thread that
-- joins itself.
pub data Error : Type 0 where
  already_running resource_deadlock_would_occur : Error

pub data Result {ℓ} (A : Type ℓ) : Type ℓ where
  ok : A → Result A
  threw : Error → Result A

infixl 5 ◌>>=◌
abbrev pub ◌>>=◌ {ℓ κ} : {A : Type ℓ} {B : Type κ} → Result A → (A → Result B) → Result B
ok a >>= f = f a
threw e >>= f = threw e

module _ {ℓ κ} {T : Type ℓ} {F : Type κ} where
  -- `attach_server`, of a server with `work_queues` queues.
  unfoldable pub attach_server :
      (work_queues : ℕ) → ExecutionContext T F → Result (ExecutionContext T F)
  attach_server work_queues c =
      if rank c.state == rank ready
      then ok (record c { servers = c.servers ++ work_queues ∷ [] })
      else threw already_running

  -- `run_while`: starts the threads, if the context was ready.
  unfoldable pub run_while : ExecutionContext T F → ExecutionContext T F
  unfolding set_state
  run_while c =
      let (did, s) = set_state running c.state in
      if did then record c { state = s; threads = c.n_threads } else c

  -- `for(auto& cq : cqs_) cq->Shutdown();`, from queue `i` on, and the same for a server's queues.
  unfoldable pub shutdowns : (left i : ℕ) → List (Call T F)
  shutdowns zero i = []
  shutdowns (suc left) i = shutdown i ∷ shutdowns left (suc i)

  unfoldable pub server_shutdowns : (server left i : ℕ) → List (Call T F)
  server_shutdowns server zero i = []
  server_shutdowns server (suc left) i =
      shutdown_server server i ∷ server_shutdowns server left (suc i)

  unfoldable pub all_server_shutdowns : (server : ℕ) → List ℕ → List (Call T F)
  unfolding server_shutdowns
  all_server_shutdowns server [] = []
  all_server_shutdowns server (queues ∷ rest) =
      server_shutdowns server queues 0 ++ all_server_shutdowns (suc server) rest

  -- `for(auto& thread : threads_) thread.join();`, called on thread `caller` of the context, if on one.
  unfoldable pub joins : (caller : Option ℕ) → (left i : ℕ) → Result (List (Call T F))
  joins caller zero i = ok []
  joins none (suc left) i = do rest ← joins none left (suc i); ok (join i ∷ rest)
  joins (some self) (suc left) i =
      let rest : Result (List (Call T F)) = joins (some self) left (suc i) in
      if self == i then threw resource_deadlock_would_occur else (do js ← rest; ok (join i ∷ js))

  -- `stop`, once no post is under way any more (Context/Gate.antt).
  unfoldable pub stop : (caller : Option ℕ) → ExecutionContext T F → Result (ExecutionContext T F)
  unfolding set_state shutdowns all_server_shutdowns joins
  stop caller c =
      let (did, s) = set_state shutting_down c.state in
      if did
      then (do
        joined ← joins caller c.threads 0
        ok (record c {
          state = (set_state stopped s).1;
          threads = 0;
          notifications = [];
          calls =
              c.calls
              ++ (shutdowns c.cqs 0
                  ++ (all_server_shutdowns 0 c.servers ++ (joined ++ map notify c.notifications)));
        }))
      else ok c

  -- `add_notify_at_stopped`
  unfoldable pub add_notify_at_stopped : T → ExecutionContext T F → ExecutionContext T F
  add_notify_at_stopped thunk c =
      if ltb (rank c.state) (rank stopped)
      then record c { notifications = c.notifications ++ thunk ∷ [] }
      else c
