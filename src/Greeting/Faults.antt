-- ===== src/Greeting/Faults.antt =====
-- How the building of a server fails.
use Prim.Native.String.{String}
use grpc_p.Base.{ℕ, ◌≡◌, ◌≢◌, ◌↔◌, ◌⊎◌, arith}
use grpc_p.Context.State.{rank}
use grpc_p.Context.Defs.{ExecutionContext}
use grpc_p.Context.Lifecycle.{attach_server}
use grpc_p.Server.Container as Container
use grpc_p.Server.Container.{Container, init, make, attached}
use grpc_p.Greeting.{threw, fault, stop, unwind, build}

module _ (decimal : ℕ → String) (selected : String → ℕ) where
  -- A `build` never ends with an exception: if there is no work queue to make, or the context is not ready
  -- any more, it uses a null pointer, and otherwise it returns.
  pub build_faults {ℓ κ} :
      {T : Type ℓ} {F : Type κ} (queues port : ℕ) (c : ExecutionContext T F)
      → ((build decimal selected queues port c ≡ fault) ↔ (queues ≡ 0 ⊎ rank c.state ≢ 0))
        × ((e : Container.Error) → build decimal selected queues port c ≢ threw e)
  unfolding build make init attached attach_server unwind stop
  build_faults queues port c = (ground arith, λ e. ground arith)
