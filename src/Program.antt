-- ===== src/Program.antt =====
-- main.cpp: the demonstration program, a server and a client of the greeting service on one context.
pub mod Algorithms
pub mod Prints
mod Examples
use Prim.Native.String.{String}
use Prim.Native.String.{◌++◌ as str_append}
use grpc_p.Base.{ℕ, suc, ◌+◌, Option, none, some, List, [], ◌∷◌}
use grpc_p.Status.RpcStatus.{RpcStatus}
use grpc_p.Context.State.{ExecutionState}
use grpc_p.Context.Defs.{ExecutionContext}
use grpc_p.Context.Post.{construct}
use grpc_p.Context.Lifecycle.{run_while}
use grpc_p.Server.Container.{Container}
use grpc_p.Greeting.{build}
use grpc_p.Greeting as Greeting
use grpc_p.Program.Algorithms as Algorithms
use grpc_p.Program.Algorithms.{Stdexec, Waited}

-- How the program ends: what it has printed by then, and whether by `EXIT_SUCCESS`, by an exception that
-- nothing catches, or by the use of a null pointer.
pub data Ended : Type 0 where
  succeeded : (printed : List String) → Ended
  terminated : (printed : List String) → Ended
  fault : Ended

unfoldable pub compute : ℕ → ℕ
compute x = x + 1

-- `decimal` is fmt's text of a number.
module _ (decimal : ℕ → String) where
  unfoldable pub sumit : ℕ × ℕ × ℕ × String → String
  sumit (x, y, z, s) = str_append "(" (
      str_append (decimal x) (
        str_append ", " (
          str_append (decimal y)
            (str_append ", " (str_append (decimal z) (str_append "), " (str_append s "\n")))))))

  -- `say_hello` of a client of the server at an address, and the schedulers, are those of `ex`, a version
  -- of stdexec.
  module _ (ex : Stdexec) where
    open ex use {Sender, just, then_, on, when_all, let_value, upon_error, sync_wait}

    unfoldable pub work :
        (state : ExecutionState)
        → (say_hello : String → Sender String) → Sender String
        → Sender String
    work state say_hello snd =
        upon_error
          (let_value
            (then_
              (when_all (on state (then_ (just 0) compute)) (on state (then_ (just 1) compute))
                (on state (then_ (just 2) compute)) snd)
              (sumit))
            say_hello)
          (λ arg. "there was an error of some kind")

    -- The end of `main`, from the second `sync_wait` on.
    respond : (printed : List String) → (result : String) → Waited String → Ended
    respond printed result (Algorithms.returned (some response)) = succeeded (
        str_append "response: " (str_append response "\n")
        ∷ str_append "result:   " (str_append result "\n")
        ∷ printed)
    respond printed result _ = terminated printed

    -- From the first `sync_wait` on.
    launch : (printed : List String) → Waited String → (snd : Sender String) → Ended
    unfolding respond
    launch printed (Algorithms.returned (some result)) snd = respond printed result (sync_wait snd)
    launch printed _ snd = terminated printed

    serve :
        (client : (address : String) → String → Sender String)
        → Greeting.Outcome (Container × ExecutionContext (Unit {0}) Greeting.HelloRequest)
        → Ended
    unfolding launch work
    serve client (Greeting.returned (k, c)) =
        let address : String = str_append "localhost:" (decimal k.port) in
        let listening : String =
          str_append "server listening on port:" (str_append (decimal k.port) "\n") in
        let snd : Sender String = client address "Tritarch" in
        launch (listening ∷ []) (sync_wait (work (run_while c).state (client address) snd)) snd
    serve client (Greeting.threw e) = terminated []
    serve client Greeting.fault = fault

    -- `main`. `selected` is the port that gRPC finds for an address to listen on; `client` are the senders
    -- of `Client::say_hello`, for a channel to an address.
    unfoldable pub main :
        (selected : String → ℕ) → (client : (address : String) → String → Sender String) → Ended
    unfolding serve
    main selected client = serve client (build decimal selected 1 0 (construct 2 1))
