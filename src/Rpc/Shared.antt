-- ===== src/Rpc/Shared.antt =====
-- client_rpc_stub.hpp and rpc_sender.hpp: the senders that one `call` returns. Every copy of such a sender
-- holds the same CallData, through a `std::shared_ptr`, and every operation is made from a copy. To start
-- an operation is two steps on the shared CallData, `call_factory_(…)` and then `post(…)`.
pub mod Starts
mod Examples
use grpc_p.Base.{
  ℕ, Bool, true, false, Option, none, some, List, [], ◌∷◌, ◌++◌, map, if◌then◌else◌, ◌==◌,
}
use grpc_p.Status.RpcStatus.{RpcStatus}
use grpc_p.Rpc.Signal.{GrpcStatus, Exception, std_exception, Signal, completions}
use grpc_p.Rpc.Wrapped.{Handled, Converted, curried_completion, handler, after_post}
use grpc_p.Rpc.Once.{Answer}

-- The CallData, as far as the operations change it: the operation whose completion it holds, or `none`
-- for a `std::function` that has been moved from, which is taken to be empty. (The request is read.)
pub record CallData : Type 0 where
  pub completion : Option ℕ

-- A step of one operation, on whichever thread. `post` has what the context said and what gRPC answers
-- if the call is made.
pub data Action {ℓ} (V : Type ℓ) : Type ℓ where
  call_factory : (op : ℕ) → Action V  -- `data->completion = std::move(completion)`
  post : (op : ℕ) → (accepted : Bool) → Answer V → Action V

-- `start` of an operation, with no other thread in between.
abbrev pub start {ℓ} : {V : Type ℓ} → ℕ × (Bool × Answer V) → List (Action V)
start (op, (accepted, a)) = call_factory op ∷ post op accepted a ∷ []

module _ {κ τ} {R : Type κ} {V : Type τ} (is_void : Bool) (throws : Option R → Option Exception)
    (convert : V → Converted R) where
  -- What is sent, each signal to the receiver of an operation.
  abbrev pub Sent : Type κ
  Sent = List (ℕ × Signal (Option R) RpcStatus)

  abbrev pub to : ℕ → List (Signal (Option R) RpcStatus) → Sent
  to op = map (λ s. (op, s))

  -- A call of the completion that the CallData held: a call of an empty `std::function` throws.
  call_completion :
      Option ℕ → Bool → GrpcStatus → Option R → Handled (ℕ × Signal (Option R) RpcStatus)
  call_completion none rpc_ok status result = record {
    sent = [];
    thrown = some (std_exception "bad_function_call");
  }
  call_completion (some op) rpc_ok status result =
      let h = handler is_void throws rpc_ok status result in
      record { sent = to op h.sent; thrown = h.thrown }

  -- `(*data)(cq)`, and then the answer: the completion is moved out of the CallData.
  unfoldable pub answer_call : Option ℕ → Answer V → Sent
  unfolding call_completion
  answer_call completion a =
      (curried_completion convert (call_completion completion) a.rpc_ok a.status a.response).sent

  unfoldable pub run : List (Action V) → CallData → Sent
  unfolding answer_call
  run [] d = []
  run (call_factory op ∷ acts) d = run acts (record d { completion = some op })
  run (post op false a ∷ acts) d = to op (after_post is_void throws false) ++ run acts d
  run (post op true a ∷ acts) d =
      answer_call d.completion a ++ run acts (record d { completion = none })

  abbrev pub starts : List (ℕ × (Bool × Answer V)) → List (Action V)
  starts [] = []
  starts (s ∷ ss) = start s ++ starts ss
