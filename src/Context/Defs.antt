-- ===== src/Context/Defs.antt =====
-- execution_context.hpp: the members of an ExecutionContext, and what it asks of gRPC and the system.
use grpc_p.Base.{ℕ, ◌%◌, ◌^◌, Bool, List}
use grpc_p.Status.Timespec.{Timespec}
use grpc_p.Queue.Stealing.{StealingQueue}
use grpc_p.Context.State.{ExecutionState}

-- `std::size_t` has 64 bits.
abbrev pub u64 : ℕ → ℕ
u64 n = n % 2 ^ 64

-- A call out of the context, in the order made. `T` is the type of thunks, `F` that of RPC factories;
-- a completion queue is named by its index, a server's by the server's index and its own.
pub data Call {ℓ κ} (T : Type ℓ) (F : Type κ) : Type (ℓ ⊔ κ) where
  set_alarm : (cq : ℕ) → (Bool → T) → Timespec → Call T F  -- `new detail::Alarm{…}`
  make_rpc : (cq : ℕ) → F → Call T F  -- `call_factory(…)`
  shutdown : (cq : ℕ) → Call T F
  shutdown_server : (server cq : ℕ) → Call T F
  join : (thread : ℕ) → Call T F
  notify : T → Call T F

pub record ExecutionContext {ℓ κ} (T : Type ℓ) (F : Type κ) : Type (ℓ ⊔ κ) where
  pub threads : ℕ  -- how many thread objects `threads_` holds
  pub task_queue : StealingQueue T
  pub cqs : ℕ  -- how many completion queues `cqs_` holds
  pub servers : List ℕ  -- how many work queues each attached server has
  pub notifications : List T
  pub state : ExecutionState
  pub next_cq_write_index : ℕ
  pub within_cq_post : ℕ
  pub n_threads : ℕ
  pub calls : List (Call T F)  -- the calls made so far, the latest last
