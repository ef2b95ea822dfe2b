-- ===== src/Rpc/Pure.antt =====
-- detail/rpc_sender_operation_states.hpp: PureRpcSenderOpState, the operation of an RPC on the protobuf
-- types. `throws v` says whether the receiver's `set_value` throws on `v`.
use Prim.Native.String.{◌++◌}
use grpc_p.Base.{Bool, not, Option, none, some, List, [], ◌∷◌, if◌then◌else◌}
use grpc_p.Status.GrpcCode.{unavailable, internal}
use grpc_p.Rpc.Signal.{
  GrpcStatus, is_ok, Exception, std_exception, unknown, Signal, value, value_threw, error,
}

module _ {ℓ} {V : Type ℓ} (throws : V → Option Exception) where
  -- `stdexec::set_value`, in its `try` block with the two handlers.
  deliver : V → Option Exception → List (Signal V GrpcStatus)
  deliver response none = value response ∷ []
  deliver response (some (std_exception what)) =
      value_threw response
      ∷ error (record { code = internal; message = "exception unpacking protobuf, " ++ what })
      ∷ []
  deliver response (some unknown) =
      value_threw response
      ∷ error (record { code = internal; message = "unknown exception unpacking protobuf" })
      ∷ []

  -- The `completion` of `invoke`.
  unfoldable pub completion : Bool → GrpcStatus → V → List (Signal V GrpcStatus)
  unfolding deliver
  completion rpc_ok status response =
      if not rpc_ok
      then error (record { code = unavailable; message = "operation posted after shutdown" }) ∷ []
      else if not (is_ok status.code)
      then error (record { code = status.code; message = status.message }) ∷ []
      else deliver response (throws response)

  -- The end of `invoke`, given what `post` returned: the signals sent at once.
  unfoldable pub after_post : (invoked : Bool) → List (Signal V GrpcStatus)
  after_post invoked =
      if not invoked
      then error (record {
        code = unavailable;
        message = "rpc was not scheduled because the service was unavailable";
      })
        ∷ []
      else []
