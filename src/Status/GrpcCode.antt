-- ===== src/Status/GrpcCode.antt =====
-- grpc::StatusCode, as detail/utils.hpp names its enumerators. The enumeration is gRPC's; `other` stands
-- for a value of it that the source does not name.
use grpc_p.Base.{ℕ}

pub data StatusCode : Type 0 where
  ok cancelled unknown invalid_argument deadline_exceeded not_found already_exists permission_denied
        unauthenticated :
      StatusCode
  resource_exhausted failed_precondition aborted out_of_range unimplemented internal unavailable
        data_loss do_not_use :
      StatusCode
  other : ℕ → StatusCode
