-- ===== src/Greeting.antt =====
-- greeting-grpc/greeting-server.h, greeting-server.cpp and greeting-client.cpp: the greeting service, its
-- client, and the handle on a running server. The messages are those of protos/helloworld.proto.
pub mod Exchange
pub mod Faults
pub mod Client
mod Examples
use Prim.Native.String.{String}
use Prim.Native.String.{◌++◌ as str_append}
use grpc_p.Base.{ℕ, false, Option, none, some, List, [], ◌∷◌}
use grpc_p.Status.RpcStatus.{RpcStatus}
use grpc_p.Context.Defs.{ExecutionContext}
use grpc_p.Rpc.Signal.{Exception, Signal}
use grpc_p.Rpc.Wrapped.{Converted, converted}
use grpc_p.Rpc.Inflight.{Event}
use grpc_p.Rpc.Once.{Answer}
use grpc_p.Rpc.Erased.{erased_invoke}
use grpc_p.Server.Handler.{World, new_handler}
use grpc_p.Server.Container as Container
use grpc_p.Server.Container.{Container, make}

pub record HelloRequest : Type 0 where
  pub name : String

pub record HelloReply : Type 0 where
  pub message : String

-- `HelloReply{}`
abbrev pub empty : HelloReply
empty = record { message = "" }

-- `Server::say_hello`
unfoldable pub say_hello : HelloRequest → HelloReply
say_hello request = record { message = str_append "Say, request='" (str_append request.name "'") }

-- `wire_rpcs`, for one queue with its handlers: the logic of the handler is `say_hello`.
unfoldable pub wire_rpcs : World HelloReply → World HelloReply
wire_rpcs w = new_handler w

-- `Client::say_hello`
unfoldable pub hello_request : (user : String) → HelloRequest
hello_request user = record { name = user }

unfoldable pub convert_result : HelloReply → Converted String
convert_result reply = converted reply.message

-- What a receiver is sent that is connected to the sender of `Client::say_hello` and started, given
-- gRPC's answer. `factory` makes the call with the request.
unfoldable pub client_say_hello {ℓ κ} :
    {T : Type ℓ} {F : Type κ}
    → (throws : Option String → Option Exception) → (factory : HelloRequest → F) → (user : String)
    → ExecutionContext T F
    → Answer HelloReply
    → List (Event (Signal (Option String) RpcStatus))
client_say_hello throws factory user c a =
    erased_invoke false throws convert_result (factory (hello_request user)) c a

-- What is asked of the `grpc::Server`.
pub data ServerCall : Type 0 where
  shut_down wait : ServerCall

-- How an operation on a handle ends. A fault is the use of a null pointer.
pub data Outcome {ℓ} (A : Type ℓ) : Type ℓ where
  returned : A → Outcome A
  threw : Container.Error → Outcome A
  fault : Outcome A

-- `ServerContainer::stop`, which is also what the destructor does, of a handle by its `container_`.
unfoldable pub stop : (container : Option Container) → Outcome (List ServerCall)
stop none = fault
stop (some k) = returned (shut_down ∷ wait ∷ [])

-- An exception leaves a block in which a handle exists: the handle is destroyed first.
unfoldable pub unwind {ℓ} :
    {A : Type ℓ} → Container.Error → (destroyed : Outcome (List ServerCall)) → Outcome A
unwind e (returned calls) = threw e
unwind e (threw e') = fault
unwind e fault = fault

module _ (decimal : ℕ → String) (selected : String → ℕ) where
  -- The end of `build`: `container_` is null until `make` has returned.
  built {ℓ} : {A : Type ℓ} → Container.Result A → Outcome A
  unfolding unwind stop
  built (Container.ok a) = returned a
  built (Container.threw e) = unwind e (stop none)

  -- `ServerContainer::build`, on a context: the container of the handle, and the context.
  unfoldable pub build {ℓ κ} :
      {T : Type ℓ} {F : Type κ}
      → (number_server_work_queues port : ℕ) → ExecutionContext T F
      → Outcome (Container × ExecutionContext T F)
  unfolding built
  build number_server_work_queues port c =
      built (make decimal selected number_server_work_queues port c).result
