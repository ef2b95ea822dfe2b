-- ===== src/Program/Prints.antt =====
-- What the program prints, from the server's logic through an RPC to its last line.
use Prim.Native.String.{String}
use Prim.Native.String.{◌++◌ as str_append}
use grpc_p.Base.{ℕ, ◌%◌, ◌^◌, ◌≡◌, refl, Bool, true, some, [], ◌∷◌, get_elem?}
use grpc_p.Status.RpcStatus.{RpcStatus}
use grpc_p.Context.State.{running, can_post, set_state}
use grpc_p.Context.Defs.{ExecutionContext}
use grpc_p.Context.Post.{construct}
use grpc_p.Context.Lifecycle.{run_while, attach_server}
use grpc_p.Rpc.Once.{Answer}
use grpc_p.Rpc.Signal.{value}
use grpc_p.Server.Handler as Handler
use grpc_p.Server.Handler.{World, new_handler}
use grpc_p.Server.Container.{init, make, attached}
use grpc_p.Greeting.{HelloRequest, HelloReply, say_hello, wire_rpcs, build, returned}
use grpc_p.Greeting.Exchange.{Finished, Carries, exchange, greeting}
use grpc_p.Program.{succeeded, terminated, compute, sumit, work, main}
use grpc_p.Program.Algorithms as Algorithms
use grpc_p.Program.Algorithms.{Stdexec, Outcome, error}

-- What `Server::say_hello` answers a user.
abbrev pub said : String → String
said user = str_append "Say, request='" (str_append user "'")

-- The handlers of the server's queue, and the context, when the client makes its calls.
unfoldable pub handlers : World HelloReply
unfolding wire_rpcs
handlers = wire_rpcs (record { objects = []; calls = [] })

unfoldable pub context : ExecutionContext (Unit {0}) HelloRequest
context = run_while (record (construct 2 1) { servers = 1 ∷ [] })

pub handlers-wait : get_elem? handlers.objects 0 ≡ some (Handler.handler Bool.false)
unfolding handlers new_handler
handlers-wait = refl

pub context-can_post : can_post context.state ≡ true
unfolding context run_while construct set_state
context-can_post = refl

module _ (decimal : ℕ → String) (selected : String → ℕ) where
  -- The port in 16 bits, and the address of the server.
  abbrev pub port : ℕ
  port = selected (str_append "0.0.0.0:" (decimal 0)) % 2 ^ 16

  abbrev pub address : String
  address = str_append "localhost:" (decimal port)

  abbrev pub listening : String
  listening = str_append "server listening on port:" (str_append (decimal port) "\n")

  built :
      build decimal selected {T = Unit {0}} {F = HelloRequest} 1 0 (construct 2 1)
      ≡ returned (record { cqs = 1; port = port }, record (construct 2 1) { servers = 1 ∷ [] })
  unfolding build make init attached attach_server construct
  built = refl

  module _ (ex : Stdexec) (client : (address : String) → String → ex.Sender String) where
    -- A sender of the client completes as its receiver is told by an exchange with a handler of the server.
    abbrev pub Greets : (Finished → Answer HelloReply) → Type 0
    Greets carry =
        (user text : String)
        → exchange carry (λ request. Handler.returned (say_hello request)) (λ request. request) user
            0 handlers context
          ≡ some (value (some text) ∷ [])
        → ex.Completes (client address user) (Algorithms.value text)

    launched :
        (first : String) (o : Outcome String)
        → ex.Completes (client address "Tritarch") (Algorithms.value first)
        → ex.Completes (client address (sumit decimal (1, 2, 3, first))) o
        → ex.Completes
            (ex.let_value
              (ex.then_
                (ex.when_all
                  (ex.on running (ex.then_ (ex.just 0) compute))
                  (ex.on running (ex.then_ (ex.just 1) compute))
                  (ex.on running (ex.then_ (ex.just 2) compute))
                  (client address "Tritarch"))
                (sumit decimal))
              (client address))
            o
    unfolding compute
    launched first o h g =
        ex.let_value_value _ _ _ o
          (ex.then_value _ (sumit decimal) (1, 2, 3, first)
            (ex.when_all_value _ _ _ _ 1 2 3 first (task 0) (task 1) (task 2) h))
          g
      where
        task :
            (n : ℕ)
            → ex.Completes
                (ex.on running (ex.then_ (ex.just n) compute))
                (Algorithms.value (compute n))
        task n = ex.on_completes _ _ (ex.then_value _ compute n (ex.just_value n))

    greeted :
        (carry : Finished → Answer HelloReply) (user : String)
        → Carries carry
        → Greets carry
        → ex.Completes (client address user) (Algorithms.value (said user))
    greeted carry user carries greets = greets user (said user) (
        greeting carry (λ request. request) user 0 handlers context carries handlers-wait
          context-can_post)

    -- If the algorithms of stdexec do as documented, gRPC carries replies as documented, and the senders
    -- of the client complete as their receivers are told by the server's handler, then the program
    -- succeeds, and it has printed the port, the greeting of the text that the first part of the work has
    -- put together with a greeting, and the greeting of the first user.
    pub main_prints :
        (carry : Finished → Answer HelloReply)
        → Carries carry
        → Greets carry
        → main decimal ex selected client
          ≡ succeeded (
              str_append "response: " (str_append (said "Tritarch") "\n")
              ∷ str_append "result:   "
                  (str_append (said (sumit decimal (1, 2, 3, said "Tritarch"))) "\n")
              ∷ listening
              ∷ [])
    unfolding main work run_while construct set_state
    main_prints carry carries greets =
        let first = greeted carry "Tritarch" carries greets in
        let second = greeted carry (sumit decimal (1, 2, 3, said "Tritarch")) carries greets in
        rw (
          built,
          ex.sync_wait_value _ _ (
              ex.upon_error_value _ (λ arg. "there was an error of some kind") _
                (launched (said "Tritarch") _ first second)),
          ex.sync_wait_value _ _ first,
        )

    -- If the calls of `say_hello` complete with an error, then the program ends by an exception, after
    -- it has printed the port: the first wait handles the error, and the second one throws it.
    main_unanswered :
        (e : RpcStatus)
        → ((user : String) → ex.Completes (client address user) (error e))
        → main decimal ex selected client ≡ terminated (listening ∷ [])
    unfolding main work run_while construct set_state compute
    main_unanswered e fails =
        let task : (n : ℕ)
            → ex.Completes (ex.on running (ex.then_ (ex.just n) compute))
                (Algorithms.value (compute n)) =
          λ n. ex.on_completes _ _ (ex.then_value _ compute n (ex.just_value n)) in
        rw (
          built,
          ex.sync_wait_value _ _ (
              ex.upon_error_error _ (λ arg. "there was an error of some kind") e
                (ex.let_value_error _ (client address) e (
                  ex.then_error _ (sumit decimal) e (
                    ex.when_all_error _ _ _ _ 1 2 3 e (task 0) (task 1) (task 2)
                      (fails "Tritarch"))))),
          ex.sync_wait_error _ e (fails "Tritarch"),
        )
