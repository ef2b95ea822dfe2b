-- ===== src/Status.antt =====
-- The status codes and their conversions, and the time conversion beside them in detail/utils.hpp.
pub mod RpcCode
pub mod GrpcCode
pub mod Convert
pub mod RoundTrip
pub mod RpcStatus
pub mod Getters
pub mod Timespec
mod Examples
