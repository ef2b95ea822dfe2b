-- ===== src/Greeting/Client.antt =====
-- greeting-grpc/greeting-client.cpp: the client, with its stub, on the contexts and CallData of Rpc/Senders.
-- The generated stub, and the readers that its `PrepareAsyncSayHello` makes, are parameters.
use Prim.Native.String.{String}
use grpc_p.Base.{ℕ, ◌≡◌, ◌∙◌, false, Option, none, some, ◌++◌, arith, length, get_elem?-append_one}
use grpc_p.Context.Post.{post_rpc}
use grpc_p.Rpc.Signal.{Exception}
use grpc_p.Rpc.Inflight.{sent_by}
use grpc_p.Rpc.Once.{Answer}
use grpc_p.Rpc.Shared.{to}
use grpc_p.Rpc.Senders.{
  ResponseReaderFactory, ClientRpcSender, CallObject, connect, World, call, start, read_with,
}
use grpc_p.Rpc.Senders.Sends.{start-erased}
use grpc_p.Greeting.{HelloRequest, HelloReply, hello_request, convert_result, client_say_hello}

-- `Client::Impl_`. `stub_` is in the reader factory.
pub record Client (Stub ClientContext Reader : Type 0) : Type 0 where
  pub context : ℕ
  pub stub_say_hello : ResponseReaderFactory Stub ClientContext HelloRequest Reader

module _ {Channel Stub ClientContext Reader : Type 0} (new_stub : Channel → Stub)
    (prepare_async_say_hello : Stub → ClientContext → HelloRequest → (cq : ℕ) → Reader) where
  -- `Client::Client`
  unfoldable pub new_client : (context : ℕ) → Channel → Client Stub ClientContext Reader
  new_client context channel = record {
    context = context;
    stub_say_hello = record { service = new_stub channel; factory_fn = prepare_async_say_hello };
  }

module _ {Stub ClientContext Reader : Type 0} (throws : Option String → Option Exception) where
  -- `Client::say_hello`
  unfoldable pub say_hello :
      Client Stub ClientContext Reader
      → (user : String) → World Stub ClientContext HelloRequest Reader String
      → ClientRpcSender × World Stub ClientContext HelloRequest Reader String
  say_hello client user w =
      call false throws convert_result client.stub_say_hello client.context (hello_request user) w

module _ {Channel Stub ClientContext Reader : Type 0} (new_stub : Channel → Stub)
    (prepare : Stub → ClientContext → HelloRequest → (cq : ℕ) → Reader)
    (throws : Option String → Option Exception) where
  -- A client of a channel, on any of the contexts: the sender of `say_hello` is connected to a receiver and
  -- started. The context is then posted the call that the stub of that channel makes of the user's name,
  -- and what is sent is, to that receiver alone, what the signals of `client_say_hello` are for that
  -- context and gRPC's answer.
  say_hello-sends :
      (context : ℕ) (channel : Channel) (user : String) (receiver : ℕ) (a : Answer HelloReply)
      (w : World Stub ClientContext HelloRequest Reader String)
      → let (s, w1) = say_hello throws (new_client new_stub prepare context channel) user w in
        let factory = λ (request : HelloRequest) (client_context : ClientContext) (cq : ℕ).
          prepare (new_stub channel) client_context request cq in
        (w2 : World Stub ClientContext HelloRequest Reader String) × (start false throws
            convert_result
            (connect s receiver)
            a
            w1
          ≡ some w2)
        × (w2.contexts context ≡ (post_rpc (factory (hello_request user)) (w.contexts context)).1)
        × (w2.sent
            ≡ w.sent
              ++ to false throws convert_result receiver
                  (sent_by (client_say_hello throws factory user (w.contexts context) a)))
  unfolding say_hello new_client call connect read_with client_say_hello
  say_hello-sends context channel user receiver a w =
      start-erased false throws convert_result (connect s receiver) a w1 d
        (get_elem?-append_one w.calls d (length w.calls) ∙ ground arith)
    where
      d : CallObject Stub ClientContext HelloRequest Reader
      d = record {
        context = context;
        factory_fn = (new_client new_stub prepare context channel).stub_say_hello;
        request = hello_request user;
        completion = none;
      }

      s : ClientRpcSender
      s = (say_hello throws (new_client new_stub prepare context channel) user w).0

      w1 : World Stub ClientContext HelloRequest Reader String
      w1 = (say_hello throws (new_client new_stub prepare context channel) user w).1
