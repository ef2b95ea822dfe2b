-- ===== src/Status/Convert.antt =====
-- detail/utils.hpp: the conversions between the two kinds of status code.
use grpc_p.Base.{none, some}
use grpc_p.Base.Int.{ℤ, pos, negsuc}
use grpc_p.Status.RpcCode.{RpcStatusCode, of_int}
use grpc_p.Status.GrpcCode.{StatusCode}

unfoldable pub to_rpc_status_code : StatusCode → RpcStatusCode
to_rpc_status_code StatusCode.ok = RpcStatusCode.ok
to_rpc_status_code StatusCode.cancelled = RpcStatusCode.cancelled
to_rpc_status_code StatusCode.unknown = RpcStatusCode.unknown
to_rpc_status_code StatusCode.invalid_argument = RpcStatusCode.invalid_argument
to_rpc_status_code StatusCode.deadline_exceeded = RpcStatusCode.deadline_exceeded
to_rpc_status_code StatusCode.not_found = RpcStatusCode.not_found
to_rpc_status_code StatusCode.already_exists = RpcStatusCode.already_exists
to_rpc_status_code StatusCode.permission_denied = RpcStatusCode.permission_denied
to_rpc_status_code StatusCode.unauthenticated = RpcStatusCode.unauthenticated
to_rpc_status_code StatusCode.resource_exhausted = RpcStatusCode.resource_exhausted
to_rpc_status_code StatusCode.failed_precondition = RpcStatusCode.failed_precondition
to_rpc_status_code StatusCode.aborted = RpcStatusCode.aborted
to_rpc_status_code StatusCode.out_of_range = RpcStatusCode.out_of_range
to_rpc_status_code StatusCode.unimplemented = RpcStatusCode.unimplemented
to_rpc_status_code StatusCode.internal = RpcStatusCode.internal
to_rpc_status_code StatusCode.unavailable = RpcStatusCode.unavailable
to_rpc_status_code StatusCode.data_loss = RpcStatusCode.data_loss
to_rpc_status_code StatusCode.do_not_use = RpcStatusCode.unspecified
to_rpc_status_code (StatusCode.other _) = RpcStatusCode.unspecified

unfoldable pub to_grpc_status_code : RpcStatusCode → StatusCode
to_grpc_status_code RpcStatusCode.ok = StatusCode.ok
to_grpc_status_code RpcStatusCode.cancelled = StatusCode.cancelled
to_grpc_status_code RpcStatusCode.unknown = StatusCode.unknown
to_grpc_status_code RpcStatusCode.invalid_argument = StatusCode.invalid_argument
to_grpc_status_code RpcStatusCode.deadline_exceeded = StatusCode.deadline_exceeded
to_grpc_status_code RpcStatusCode.not_found = StatusCode.not_found
to_grpc_status_code RpcStatusCode.already_exists = StatusCode.already_exists
to_grpc_status_code RpcStatusCode.permission_denied = StatusCode.permission_denied
to_grpc_status_code RpcStatusCode.unauthenticated = StatusCode.unauthenticated
to_grpc_status_code RpcStatusCode.resource_exhausted = StatusCode.resource_exhausted
to_grpc_status_code RpcStatusCode.failed_precondition = StatusCode.failed_precondition
to_grpc_status_code RpcStatusCode.aborted = StatusCode.aborted
to_grpc_status_code RpcStatusCode.out_of_range = StatusCode.out_of_range
to_grpc_status_code RpcStatusCode.unimplemented = StatusCode.unimplemented
to_grpc_status_code RpcStatusCode.internal = StatusCode.internal
to_grpc_status_code RpcStatusCode.unavailable = StatusCode.unavailable
to_grpc_status_code RpcStatusCode.data_loss = StatusCode.data_loss
to_grpc_status_code RpcStatusCode.unspecified = StatusCode.do_not_use

-- `to_grpc_status_code` of a value of the type's `int`: one that no enumerator has falls through.
unfoldable pub to_grpc_of_value : ℤ → StatusCode
unfolding to_grpc_status_code
to_grpc_of_value (pos n) = elim (of_int n) [
  | none ↦ StatusCode.unknown
  | some code ↦ to_grpc_status_code code
]
to_grpc_of_value (negsuc n) = StatusCode.unknown
