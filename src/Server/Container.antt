-- ===== src/Server/Container.antt =====
-- generic_server_container.hpp: how a GenericServerContainer is made, and attached to a context. What the
-- caller's `wire_rpcs` and gRPC are asked for is a list of calls. A work queue is named by its index.
mod Counts
pub mod Wiring
mod Examples
use Prim.Native.String.{String}
use Prim.Native.String.{◌++◌ as str_append}
use grpc_p.Base.{ℕ, zero, suc, ◌%◌, ◌^◌, List, [], ◌∷◌, ◌++◌, replicate, if◌then◌else◌, ◌==◌}
use grpc_p.Context.Defs.{ExecutionContext}
use grpc_p.Context.Lifecycle.{attach_server}
use grpc_p.Context.Lifecycle as Lifecycle

-- `std::invalid_argument` from `init`, and what `attach_server` throws.
pub data Error : Type 0 where
  invalid_argument : (what : String) → Error
  not_attached : Lifecycle.Error → Error

pub data Result {ℓ} (A : Type ℓ) : Type ℓ where
  ok : A → Result A
  threw : Error → Result A

pub data Call : Type 0 where
  add_listening_port : (address : String) → Call
  register_service add_completion_queue build_and_start : Call
  wire_rpcs : (cq : ℕ) → Call

-- The members that an operation reads: how many queues `cqs_` holds, and `port_`.
pub record Container : Type 0 where
  pub cqs : ℕ
  pub port : ℕ

-- What has been called, in order, and how the operation ended.
pub record Made {ℓ} (A : Type ℓ) : Type ℓ where
  pub calls : List Call
  pub result : Result A

-- `for(auto& cq : cqs_) wire_rpcs(…)`, from queue `i` on.
unfoldable pub wire_all : (left i : ℕ) → List Call
wire_all zero i = []
wire_all (suc left) i = wire_rpcs i ∷ wire_all left (suc i)

-- `decimal` is fmt's text of a number; `selected` is the port that the builder writes to
-- `selected_port` for an address.
module _ (decimal : ℕ → String) (selected : String → ℕ) where
  unfoldable pub init : (number_work_queues port : ℕ) → Container → Made Container
  unfolding wire_all
  init number_work_queues port c =
      let server_address : String = str_append "0.0.0.0:" (decimal port) in
      let selected_port : ℕ = selected server_address % 2 ^ 16 in
      if number_work_queues == 0
      then record { calls = []; result = threw (invalid_argument "requires at least 1 work queue") }
      else record {
        calls =
            add_listening_port server_address
            ∷ register_service
            ∷ (replicate number_work_queues add_completion_queue
                ++ (build_and_start ∷ wire_all number_work_queues 0));
        result = ok (record {
          cqs = number_work_queues;
          port = if c.port == 0 then selected_port else c.port;
        });
      }

  module _ {ℓ κ} {T : Type ℓ} {F : Type κ} where
    unfoldable pub attached :
        Container
        → Lifecycle.Result (ExecutionContext T F)
        → Result (Container × ExecutionContext T F)
    attached k (Lifecycle.ok c) = ok (k, c)
    attached k (Lifecycle.threw e) = threw (not_attached e)

    made :
        ExecutionContext T F
        → List Call
        → Result Container
        → Made (Container × ExecutionContext T F)
    unfolding attached
    made c calls (ok k) = record { calls = calls; result = attached k (attach_server k.cqs c) }
    made c calls (threw e) = record { calls = calls; result = threw e }

    -- `make`, on a context: the container, and the context that it is attached to.
    unfoldable pub make :
        (number_work_queues port : ℕ)
        → ExecutionContext T F
        → Made (Container × ExecutionContext T F)
    unfolding made
    make number_work_queues port c =
        let inited : Made Container = init number_work_queues port (record { cqs = 0; port = 0 }) in
        made c inited.calls inited.result
