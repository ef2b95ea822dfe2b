-- ===== src/Rpc/Senders.antt =====
-- client_rpc_stub.hpp, rpc_sender.hpp, scheduler.hpp and detail/response_reader_factory.hpp: stubs, senders
-- and schedulers as values that refer to a context, and the operations that connect makes of them. A
-- context and a CallData are named by numbers; so is a receiver.
pub mod Starts
pub mod Sends
mod Examples
use grpc_p.Base.{
  ℕ, ◌+◌, Bool, true, false, Option, none, some, List, [], ◌∷◌, ◌++◌, length, get_elem?, set,
  if◌then◌else◌, ◌==◌,
}
use grpc_p.Status.RpcStatus.{RpcStatus}
use grpc_p.Context.Defs.{ExecutionContext}
use grpc_p.Context.Post.{post_rpc}
use grpc_p.Rpc.Signal.{Exception, Signal}
use grpc_p.Rpc.Wrapped.{Converted, after_post}
use grpc_p.Rpc.Once.{Answer}
use grpc_p.Rpc.Shared.{Sent, to, answer_call}
use grpc_p.Scheduler as Schedule

-- `ResponseReaderFactory`: a service, and the member function of it that makes a reader.
pub record ResponseReaderFactory (Service Client Req Reader : Type 0) : Type 0 where
  pub service : Service
  pub factory_fn : Service → Client → Req → (cq : ℕ) → Reader

unfoldable pub read_with :
    {Service Client Req Reader : Type 0}
    → ResponseReaderFactory Service Client Req Reader
    → (client_context : Client) → (request : Req) → (cq : ℕ) → Reader
read_with f client_context request cq = f.factory_fn f.service client_context request cq

pub record Scheduler : Type 0 where
  pub context : ℕ

-- `operator==`
unfoldable pub same_scheduler : Scheduler → Scheduler → Bool
same_scheduler s o = s.context == o.context

-- `Scheduler::Sender_` and `Scheduler::Op_`.
pub record ScheduleSender : Type 0 where
  pub context : ℕ

pub record ScheduleOp : Type 0 where
  pub context : ℕ
  pub throws : Option Exception  -- by the receiver's `set_value`

unfoldable pub schedule : Scheduler → ScheduleSender
schedule s = record { context = s.context }

unfoldable pub connect_schedule : ScheduleSender → (throws : Option Exception) → ScheduleOp
connect_schedule self throws = record { context = self.context; throws = throws }

unfoldable pub schedule_completion_scheduler : ScheduleSender → Scheduler
schedule_completion_scheduler self = record { context = self.context }

-- The sender of an RPC: its context, and the CallData that its `call_factory_` refers to.
pub record ClientRpcSender : Type 0 where
  pub context : ℕ
  pub call_data : ℕ

-- `RpcSenderOpState`
pub record RpcOp : Type 0 where
  pub context : ℕ
  pub call_data : ℕ
  pub receiver : ℕ

unfoldable pub connect : ClientRpcSender → (receiver : ℕ) → RpcOp
connect self receiver = record {
  context = self.context;
  call_data = self.call_data;
  receiver = receiver;
}

unfoldable pub completion_scheduler : ClientRpcSender → Scheduler
completion_scheduler self = record { context = self.context }

-- A CallData on the heap. It is there as long as a sender or an operation shares it, so that those that
-- are used are never released.
pub record CallObject (Service Client Req Reader : Type 0) : Type 0 where
  pub context : ℕ
  pub factory_fn : ResponseReaderFactory Service Client Req Reader
  pub request : Req
  pub completion : Option ℕ

-- The contexts, for which an RPC factory is what makes the reader of a call; the CallData that have been
-- made; and what receivers have been sent.
pub record World (Service Client Req Reader R : Type 0) : Type 0 where
  pub contexts : ℕ → ExecutionContext Schedule.Sent (Client → ℕ → Reader)
  pub calls : List (CallObject Service Client Req Reader)
  pub sent : List (ℕ × Signal (Option R) RpcStatus)

abbrev pub update : {A : Type 0} → (ℕ → A) → ℕ → A → ℕ → A
update f i v k = if k == i then v else f k

module _ {Service Client Req Reader R V : Type 0} (is_void : Bool)
    (throws : Option R → Option Exception) (convert : V → Converted R) where
  -- `ClientRpcStub::call`, of a stub with the reader factory `factory_fn`.
  unfoldable pub call :
      (factory_fn : ResponseReaderFactory Service Client Req Reader)
      → (context : ℕ) → (request : Req) → World Service Client Req Reader R
      → ClientRpcSender × World Service Client Req Reader R
  call factory_fn context request w = (
    record { context = context; call_data = length w.calls },
    record w {
      calls =
          w.calls
          ++ record {
            context = context;
            factory_fn = factory_fn;
            request = request;
            completion = none;
          }
            ∷ [];
    },
  )

  -- `invoke`, once the completion is in the CallData `d`.
  invoke :
      RpcOp
      → Answer V
      → CallObject Service Client Req Reader
      → World Service Client Req Reader R
      → World Service Client Req Reader R
  invoke op a d w =
      let (invoked, c) =
        post_rpc (λ client_context cq. read_with d.factory_fn client_context d.request cq)
          (w.contexts op.context) in
      record {
        contexts = update w.contexts op.context c;
        calls =
            set w.calls op.call_data
              (record d { completion = if invoked then none else d.completion });
        sent =
            w.sent
            ++ (if invoked
                then answer_call is_void throws convert d.completion a
                else to is_void throws convert op.receiver (after_post is_void throws false));
      }

  invoke_at :
      Option (CallObject Service Client Req Reader)
      → RpcOp
      → Answer V
      → World Service Client Req Reader R
      → Option (World Service Client Req Reader R)
  unfolding invoke
  invoke_at none op a w = none
  invoke_at (some d) op a w = some (invoke op a (record d { completion = some op.receiver }) w)

  -- `start` of an operation, with gRPC's answer to the call if one is made, and no other operation in
  -- between; `none` is the use of a CallData that does not exist.
  unfoldable pub start :
      RpcOp
      → Answer V
      → World Service Client Req Reader R
      → Option (World Service Client Req Reader R)
  unfolding invoke_at
  start op a w = invoke_at (get_elem? w.calls op.call_data) op a w

  -- `start` of an operation of `schedule`.
  unfoldable pub start_schedule :
      (locks : ℕ → ℕ → Bool)
      → (fuel : ℕ) → ScheduleOp
      → World Service Client Req Reader R
      → Option (World Service Client Req Reader R)
  start_schedule locks fuel op w =
      elim (Schedule.start locks fuel op.throws (w.contexts op.context)) [
        | none ↦ none
        | some c ↦ some (record w { contexts = update w.contexts op.context c })
      ]
