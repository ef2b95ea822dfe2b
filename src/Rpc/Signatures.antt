-- ===== src/Rpc/Signatures.antt =====
-- rpc_sender.hpp: the completion signatures that the senders declare, and what their operations send.
pub mod Exact
mod Examples
use grpc_p.Base.{Option, none, some, List, [], ◌∷◌, ◌≡◌, ◌⊎◌}
use grpc_p.Status.RpcStatus.{RpcStatus}
use grpc_p.Rpc.Signal.{GrpcStatus, Signal, value, value_threw, error}

-- The types that the signatures name: the template's `ResponseType` and `ResultType`, and the errors.
pub data TypeName : Type 0 where
  response_type result_type grpc_status rpc_status : TypeName

-- `set_value_t()`, `set_value_t(T)`, `set_error_t(T)` and `set_stopped_t()`.
pub data CompletionSignature : Type 0 where
  set_nothing : CompletionSignature
  set_value : TypeName → CompletionSignature
  set_error : TypeName → CompletionSignature
  set_stopped : CompletionSignature

-- `PureClientRpcSender::completion_signatures`
abbrev pub pure_completion_signatures : List CompletionSignature
pure_completion_signatures = set_value response_type ∷ set_error grpc_status ∷ []

-- `ClientRpcSender::completion_signatures`
abbrev pub completion_signatures : List CompletionSignature
completion_signatures = set_value result_type ∷ set_error rpc_status ∷ []

-- The call on the receiver that a signal of PureRpcSenderOpState is.
abbrev pub pure_signature : {V : Type 0} → Signal V GrpcStatus → CompletionSignature
pure_signature (value v) = set_value response_type
pure_signature (value_threw v) = set_value response_type
pure_signature (error e) = set_error grpc_status

-- The call on the receiver that a signal of RpcSenderOpState is.
abbrev pub signature : {R : Type 0} → Signal (Option R) RpcStatus → CompletionSignature
signature (value none) = set_nothing
signature (value (some r)) = set_value result_type
signature (value_threw none) = set_nothing
signature (value_threw (some r)) = set_value result_type
signature (error e) = set_error rpc_status

abbrev pub Listed : CompletionSignature → List CompletionSignature → Type 0
Listed σ [] = ⊥
Listed σ (τ ∷ τs) = (σ ≡ τ) ⊎ Listed σ τs

abbrev pub AllListed {ℓ} :
    {S : Type ℓ} → (S → CompletionSignature) → List CompletionSignature → List S → Type 0
AllListed sig declared [] = Unit
AllListed sig declared (s ∷ ss) = Listed (sig s) declared × AllListed sig declared ss

abbrev pub AnyIs {ℓ} :
    {S : Type ℓ} → (S → CompletionSignature) → CompletionSignature → List S → Type 0
AnyIs sig σ [] = ⊥
AnyIs sig σ (s ∷ ss) = (sig s ≡ σ) ⊎ AnyIs sig σ ss
