-- ===== src/Greeting/Examples.antt =====
-- Greetings and servers at concrete values.
use Prim.Native.String.{String}
use grpc_p.Base.{ℕ, ◌≡◌, ◌≢◌, ◌↔◌, ◌⊎◌, refl, true, false, some, [], ◌∷◌, get_elem?}
use grpc_p.Context.State.{rank, can_post, running}
use grpc_p.Context.Defs.{ExecutionContext}
use grpc_p.Context.Post.{construct}
use grpc_p.Rpc.Once.{Answer}
use grpc_p.Server.Container as Container
use grpc_p.Server.Handler as Handler
use grpc_p.Server.Handler.{World, LogicResult, new_handler}
use grpc_p.Greeting.{HelloRequest, HelloReply, hello_request, wire_rpcs, threw, fault, build}
use grpc_p.Greeting.Exchange.{Finished, Carries, exchange, told, exchange-told}
use grpc_p.Greeting.Faults.{build_faults}

abbrev fresh : ExecutionContext ℕ HelloRequest
fresh = construct 2 1

fresh-can_post : can_post fresh.state ≡ true
unfolding construct
fresh-can_post = refl

-- One handler, which waits.
abbrev one_handler : World HelloReply
one_handler = wire_rpcs (record { objects = []; calls = [] })

one_handler-waits : get_elem? one_handler.objects 0 ≡ some (Handler.handler false)
unfolding wire_rpcs new_handler
one_handler-waits = refl

abbrev carry : Finished → Answer HelloReply
carry (r, code, message) = record {
  rpc_ok = true;
  status = record { code = code; message = message };
  response = r;
}

carry-Carries : Carries carry
carry-Carries r code message = (refl, refl, λ e. refl)

abbrev same : HelloRequest → HelloRequest
same request = request

-- Logic that always throws.
abbrev throws : HelloRequest → LogicResult HelloReply
throws request = Handler.threw

exchange-told_example :
    exchange carry throws same "Tritarch" 0 one_handler fresh
    ≡ some (told (throws (hello_request "Tritarch")) ∷ [])
exchange-told_example =
    exchange-told carry throws same "Tritarch" 0 one_handler fresh carry-Carries one_handler-waits
      fresh-can_post

abbrev text : ℕ → String
text p = "0"

abbrev selected : String → ℕ
selected address = 50051

abbrev busy : ExecutionContext ℕ HelloRequest
busy = record fresh { state = running }

build_faults_example :
    ((build text selected 1 0 busy ≡ fault) ↔ (◌≡◌ {A = ℕ} 1 0 ⊎ rank running ≢ 0))
    × ((e : Container.Error) → build text selected 1 0 busy ≢ threw e)
build_faults_example = build_faults text selected 1 0 busy
