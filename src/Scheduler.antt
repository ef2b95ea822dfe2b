-- ===== src/Scheduler.antt =====
-- scheduler.hpp: the operation of `schedule`, Scheduler::Op_.
pub mod Starts
mod Examples
use grpc_p.Base.{ℕ, Bool, Option, none, some, List, [], ◌∷◌}
use grpc_p.Rpc.Signal.{Exception, Signal, value, value_threw, error}
use grpc_p.Context.Defs.{ExecutionContext}
use grpc_p.Context.Post.{post}

-- What a receiver of `schedule` is sent; a thunk is taken as what it sends when it is run.
abbrev pub Sent : Type 0
Sent = List (Signal Unit Exception)

-- The thunk that `start` posts. `throws` is what the receiver's `set_value` throws, if it does.
unfoldable pub op_thunk : (throws : Option Exception) → Sent
op_thunk none = value tt ∷ []
op_thunk (some e) = value_threw tt ∷ error e ∷ []

-- `tag_invoke(stdexec::start_t, Op_&)`: what `post` returns is dropped.
unfoldable pub start {κ} :
    {F : Type κ}
    → (ℕ → ℕ → Bool)
    → ℕ
    → (throws : Option Exception) → ExecutionContext Sent F
    → Option (ExecutionContext Sent F)
start locks fuel throws c = elim (post locks fuel (op_thunk throws) c) [
  | none ↦ none
  | some (_, c') ↦ some c'
]
