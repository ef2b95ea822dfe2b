-- ===== src/Rpc.antt =====
-- The client side of an RPC: rpc_sender.hpp, client_rpc_stub.hpp, detail/rpc_sender_operation_states.hpp,
-- detail/inflight_rpc.hpp and detail/alarm.hpp.
pub mod Signal
pub mod Pure
pub mod Wrapped
pub mod Inflight
pub mod Once
pub mod Erased
pub mod Signatures
pub mod Shared
pub mod Senders
pub mod Delivery
mod Examples
