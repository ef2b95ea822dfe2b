-- ===== src/Rpc/Delivery/Told.antt =====
-- When a worker leaves its loop, no RPC is left in the completion queues.
use grpc_p.Base.{◌≡◌, false}
use grpc_p.Base.Rows.{total}
use grpc_p.Context.State.{can_post}
use grpc_p.Rpc.Delivery.{State}
use grpc_p.Rpc.Delivery.Invariant.{is_allowed}
use grpc_p.Rpc.Delivery.Ends.{Told}

-- What is so once the worker has been told that all queues are shut down.
pub record Over {R V : Type 0} (s : State R V) : Type 0 where
  pub told : Told s
  pub no_more_posts : can_post s.context.state ≡ false
  pub none_on_the_way : total is_allowed s.posts ≡ 0
