-- ===== src/Greeting/Exchange.antt =====
-- A greeting from the client's request to its receiver, through a handler of the server.
use Prim.Native.String.{String}
use Prim.Native.String.{◌++◌ as str_append}
use grpc_p.Base.{ℕ, ◌≡◌, ap, refl, true, false, Option, none, some, List, [], ◌∷◌, get_elem?}
use grpc_p.Status.GrpcCode.{StatusCode}
use grpc_p.Status.RpcCode.{RpcStatusCode}
use grpc_p.Status.Convert.{to_rpc_status_code}
use grpc_p.Status.RpcStatus.{RpcStatus, make}
use grpc_p.Context.State.{can_post}
use grpc_p.Context.Defs.{ExecutionContext}
use grpc_p.Context.Post.{post_rpc}
use grpc_p.Rpc.Signal.{Signal, value, error}
use grpc_p.Rpc.Wrapped.{curried_completion, handler}
use grpc_p.Rpc.Inflight.{sent_by}
use grpc_p.Rpc.Once.{Answer, sent_by-invoke, post_rpc-taken}
use grpc_p.Rpc.Erased.{erased_invoke}
use grpc_p.Server.Handler as Handler
use grpc_p.Server.Handler.{
  World, LogicResult, returned, threw, complete, finish, serve, finish_with, new_handler, reply,
}
use grpc_p.Greeting.{
  HelloRequest, HelloReply, empty, say_hello, hello_request, convert_result, client_say_hello,
}

-- A call of `Finish` as gRPC is given it: the response, the code and the message.
abbrev pub Finished : Type 0
Finished = HelloReply × StatusCode × String

-- The latest call, if it is of `Finish`.
abbrev pub latest : List (Handler.Call HelloReply) → Option Finished
latest (finish tag r code message ∷ cs) = some (r, code, message)
latest _ = none

-- What gRPC documents of a call that is finished: the client's call succeeds, its status is the one of
-- `Finish`, and if that is OK its response is, too.
abbrev pub Carries : (Finished → Answer HelloReply) → Type 0
Carries carry =
    (r : HelloReply) (code : StatusCode) (message : String)
    → ((carry (r, code, message)).rpc_ok ≡ true)
      × ((carry (r, code, message)).status ≡ record { code = code; message = message })
      × (code ≡ StatusCode.ok → (carry (r, code, message)).response ≡ r)

-- What the client is told of what the logic did.
abbrev pub told : LogicResult HelloReply → Signal (Option String) RpcStatus
told (returned r) = value (some r.message)
told threw = error (make RpcStatusCode.internal "")

module _ (carry : Finished → Answer HelloReply) where
  -- What the client's receiver is sent of a call that a handler finished.
  abbrev pub receive {ℓ κ} :
      {T : Type ℓ} {F : Type κ}
      → (factory : HelloRequest → F) → (user : String) → ExecutionContext T F
      → Option Finished
      → Option (List (Signal (Option String) RpcStatus))
  receive factory user c none = none
  receive factory user c (some f) =
      some (sent_by (client_say_hello (λ s. none) factory user c (carry f)))

  abbrev pub after_completion {ℓ κ} :
      {T : Type ℓ} {F : Type κ}
      → (factory : HelloRequest → F) → (user : String) → ExecutionContext T F
      → Option (World HelloReply)
      → Option (List (Signal (Option String) RpcStatus))
  after_completion factory user c none = none
  after_completion factory user c (some w) = receive factory user c (latest w.calls)

  -- The handler with number `tag` is completed with a request, and the client's call with its reply.
  abbrev pub exchange {ℓ κ} :
      {T : Type ℓ} {F : Type κ}
      → (logic : HelloRequest → LogicResult HelloReply) → (factory : HelloRequest → F)
      → (user : String) → (tag : ℕ) → World HelloReply
      → ExecutionContext T F
      → Option (List (Signal (Option String) RpcStatus))
  exchange logic factory user tag w c =
      after_completion factory user c (complete empty tag true (logic (hello_request user)) w)

  -- What the client's receiver is sent, if the context takes the call.
  client-told {ℓ κ} :
      {T : Type ℓ} {F : Type κ} (factory : HelloRequest → F) (user : String)
      (c : ExecutionContext T F) (l : LogicResult HelloReply)
      → Carries carry
      → can_post c.state ≡ true
      → sent_by (client_say_hello (λ s. none) factory user c (carry (reply empty l))) ≡ told l ∷ []
  unfolding client_say_hello erased_invoke curried_completion handler convert_result
      to_rpc_status_code reply
  client-told factory user c (returned r) carries taken =
      let (okay, status, response) = carries r StatusCode.ok "" in
      rw
        (
          sent_by-invoke (post_rpc (factory (hello_request user)) c).0 _ _,
          post_rpc-taken (factory (hello_request user)) c,
          taken,
          okay,
          status,
          response refl,
        )
        refl
  client-told factory user c threw carries taken =
      let (okay, status, response) = carries empty StatusCode.internal "" in
      rw
        (
          sent_by-invoke (post_rpc (factory (hello_request user)) c).0 _ _,
          post_rpc-taken (factory (hello_request user)) c,
          taken,
          okay,
          status,
        )
        refl

  -- A handler that waits for a request is completed with that of a client whose context takes its call,
  -- and gRPC carries replies as it documents. Whatever the logic does with the request, the handler
  -- exists and answers, and the client's receiver, if it does not throw, is sent exactly one signal: the
  -- reply's message, or `Internal` if the logic threw.
  pub exchange-told {ℓ κ} :
      {T : Type ℓ} {F : Type κ} (logic : HelloRequest → LogicResult HelloReply)
      (factory : HelloRequest → F) (user : String) (tag : ℕ) (w : World HelloReply)
      (c : ExecutionContext T F)
      → Carries carry
      → get_elem? w.objects tag ≡ some (Handler.handler false)
      → can_post c.state ≡ true
      → exchange logic factory user tag w c ≡ some (told (logic (hello_request user)) ∷ [])
  unfolding complete serve finish_with new_handler
  exchange-told logic factory user tag w c carries waits taken =
      rw waits (ap some (client-told factory user c (logic (hello_request user)) carries taken))

  -- The greeting: a receiver of the client's sender that does not throw is sent the text with the user's
  -- name in it, and nothing else, if the server's handler waits for a request, the client's context takes
  -- the call, and gRPC carries replies as it documents.
  pub greeting {ℓ κ} :
      {T : Type ℓ} {F : Type κ} (factory : HelloRequest → F) (user : String) (tag : ℕ)
      (w : World HelloReply) (c : ExecutionContext T F)
      → Carries carry
      → get_elem? w.objects tag ≡ some (Handler.handler false)
      → can_post c.state ≡ true
      → exchange (λ request. returned (say_hello request)) factory user tag w c
        ≡ some (value (some (str_append "Say, request='" (str_append user "'"))) ∷ [])
  unfolding say_hello hello_request
  greeting factory user tag w c carries waits taken =
      exchange-told (λ request. returned (say_hello request)) factory user tag w c carries waits
        taken
