-- ===== src/Rpc/Wrapped.antt =====
-- detail/rpc_sender_operation_states.hpp: CallData and RpcSenderOpState, the type-erased RPC; with the
-- factory that ClientRpcStub::call makes (client_rpc_stub.hpp).
use Prim.Native.String.{String}
use Prim.Native.String.{◌++◌ as str_append}
use grpc_p.Base.{
  Bool, true, false, not, ◌&&◌, Option, none, some, List, [], ◌∷◌, ◌++◌, if◌then◌else◌,
}
use grpc_p.Status.GrpcCode.{StatusCode}
use grpc_p.Status.RpcCode.{RpcStatusCode}
use grpc_p.Status.Convert.{to_rpc_status_code}
use grpc_p.Status.RpcStatus.{RpcStatus, make, make_code}
use grpc_p.Rpc.Signal.{
  GrpcStatus, is_ok, Exception, std_exception, unknown, Signal, value, value_threw, error,
}

-- What a piece of code has sent before it returned or threw.
pub record Handled {ℓ} (S : Type ℓ) : Type ℓ where
  pub sent : List S
  pub thrown : Option Exception

-- The result of a conversion function.
pub data Converted {ℓ} (R : Type ℓ) : Type ℓ where
  converted : R → Converted R
  threw : Exception → Converted R

-- The message of the status that stands for an exception of the conversion or the completion.
abbrev pub unpacking : Exception → String
unpacking (std_exception what) = str_append "exception unpacking protobuf, " what
unpacking unknown = "exception unpacking protobuf"

module _ {κ μ} {R : Type κ} {S : Type μ} where
  -- `convert` threw, or `completion` did: `completion` is called once more.
  recovered : (Bool → GrpcStatus → Option R → Handled S) → Bool → Handled S → Exception → Handled S
  recovered completion rpc_ok first e =
      let again : Handled S =
        completion rpc_ok (record { code = StatusCode.internal; message = unpacking e }) none in
      record { sent = first.sent ++ again.sent; thrown = again.thrown }

  guarded :
      (Bool → GrpcStatus → Option R → Handled S) → Bool → Handled S → Option Exception → Handled S
  unfolding recovered
  guarded completion rpc_ok first none = first
  guarded completion rpc_ok first (some e) = recovered completion rpc_ok first e

  -- The `curried_completion` of CallData::operator().
  unfoldable pub curried_completion {ℓ} :
      {V : Type ℓ}
      → (V → Converted R)
      → (Bool → GrpcStatus → Option R → Handled S)
      → Bool
      → GrpcStatus
      → V
      → Handled S
  unfolding guarded
  curried_completion convert completion rpc_ok status response = elim (convert response) [
    | converted r ↦
        let first : Handled S = completion rpc_ok status (some r) in
        guarded completion rpc_ok first first.thrown
    | threw e ↦ recovered completion rpc_ok (record { sent = []; thrown = none }) e
  ]

-- RpcSenderOpState. `is_void` is `IsVoidResultType`; `throws` is about the receiver's `set_value`, which
-- is given no result if it is set.
module _ {κ} {R : Type κ} (is_void : Bool) (throws : Option R → Option Exception) where
  -- `stdexec::set_value`, in its `try` block with the two handlers.
  deliver : GrpcStatus → Option R → Option Exception → List (Signal (Option R) RpcStatus)
  deliver status given none = value given ∷ []
  deliver status given (some (std_exception what)) =
      value_threw given ∷ error (make RpcStatusCode.internal status.message) ∷ []
  deliver status given (some unknown) =
      value_threw given ∷ error (make RpcStatusCode.internal "exception unpacking protobuf") ∷ []

  missing : Option R → Bool
  missing none = true
  missing (some r) = false

  -- The completion of `invoke`. Every exception of `set_value` is caught in it.
  unfoldable pub handler : Bool → GrpcStatus → Option R → Handled (Signal (Option R) RpcStatus)
  unfolding deliver missing
  handler rpc_ok status result =
      let given : Option R = if is_void then none else result in
      record {
        sent =
            if not rpc_ok
            then error (make_code RpcStatusCode.unavailable) ∷ []
            else if not (is_ok status.code)
            then error (make (to_rpc_status_code status.code) status.message) ∷ []
            else if missing result && not is_void
            then error (make_code RpcStatusCode.internal) ∷ []
            else deliver status given (throws given);
        thrown = none;
      }

  -- The end of `invoke`, given what `post` returned: the signals sent at once.
  unfoldable pub after_post : (invoked : Bool) → List (Signal (Option R) RpcStatus)
  after_post invoked = if not invoked then error (make_code RpcStatusCode.unavailable) ∷ [] else []
