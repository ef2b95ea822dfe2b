-- ===== src/Rpc/Senders/Examples.antt =====
-- One stub, two contexts, of which number 0 is stopped; two calls, the first of which is started twice.
use grpc_p.Base.{
  ℕ, ◌+◌, ◌≡◌, true, false, Option, none, some, List, [], ◌∷◌, if◌then◌else◌, ◌==◌, arith,
}
use grpc_p.Base.Rows.{count}
use grpc_p.Status.GrpcCode.{StatusCode}
use grpc_p.Context.State.{stopped}
use grpc_p.Context.Defs.{ExecutionContext}
use grpc_p.Context.Post.{construct}
use grpc_p.Scheduler.{Sent}
use grpc_p.Rpc.Signal.{Exception}
use grpc_p.Rpc.Wrapped.{Converted, converted}
use grpc_p.Rpc.Once.{Answer}
use grpc_p.Rpc.Shared.Starts.{completed}
use grpc_p.Rpc.Senders.{ResponseReaderFactory, World}
use grpc_p.Rpc.Senders.Starts.{
  Action, make_call, connect_and_start, run_actions, run_actions-completed, receivers, used,
}

abbrev calm : Option ℕ → Option Exception
calm a = none

abbrev same : ℕ → Converted ℕ
same n = converted n

abbrev found : Answer ℕ
found = record {
  rpc_ok = true;
  status = record { code = StatusCode.ok; message = "" };
  response = 41;
}

abbrev adder : ResponseReaderFactory ℕ ℕ ℕ ℕ
adder = record { service = 100; factory_fn = λ service client request cq. service + request }

abbrev fresh : ExecutionContext Sent (ℕ → ℕ → ℕ)
fresh = construct 2 3

abbrev world : World ℕ ℕ ℕ ℕ ℕ
world = record {
  contexts = λ k. if k == 0 then record fresh { state = stopped } else fresh;
  calls = [];
  sent = [];
}

abbrev acts : List (Action ℕ ℕ ℕ ℕ ℕ)
acts =
    make_call adder 1 7
    ∷ make_call adder 0 8
    ∷ connect_and_start (record { context = 1; call_data = 0 }) 5 found
    ∷ connect_and_start (record { context = 0; call_data = 1 }) 6 found
    ∷ connect_and_start (record { context = 1; call_data = 0 }) 5 found
    ∷ []

run_actions-completed_example :
    (w' : World ℕ ℕ ℕ ℕ ℕ) × (run_actions false calm same acts world ≡ some w')
    × ((r : ℕ)
        → completed r w'.sent ≡ completed r world.sent + count r (receivers false calm same acts))
    × ((k : ℕ) → count k (used false calm same acts) ≡ 0 → w'.contexts k ≡ world.contexts k)
run_actions-completed_example = run_actions-completed false calm same acts world (omega arith)
