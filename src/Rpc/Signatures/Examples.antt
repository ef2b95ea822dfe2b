-- ===== src/Rpc/Signatures/Examples.antt =====
-- The theorem on completion signatures at a sender of numbers.
use grpc_p.Base.{ℕ, ◌≡◌, refl, true, false, Option, none}
use grpc_p.Context.State.{can_post}
use grpc_p.Context.Defs.{ExecutionContext}
use grpc_p.Context.Post.{construct}
use grpc_p.Rpc.Signal.{Exception}
use grpc_p.Rpc.Wrapped.{Converted, converted}
use grpc_p.Rpc.Inflight.{sent_by}
use grpc_p.Rpc.Once.{Answer}
use grpc_p.Rpc.Erased.{erased_invoke}
use grpc_p.Rpc.Signatures.{
  CompletionSignature, completion_signatures, signature, Listed, AllListed, AnyIs,
}
use grpc_p.Rpc.Signatures.Exact.{declared_exactly}

abbrev calm : Option ℕ → Option Exception
calm v = none

abbrev keep : ℕ → Converted ℕ
keep v = converted v

abbrev fresh : ExecutionContext ℕ ℕ
fresh = construct 2 1

fresh-can_post : can_post fresh.state ≡ true
unfolding construct
fresh-can_post = refl

declared_exactly_example :
    ((c : ExecutionContext ℕ ℕ) (a : Answer ℕ)
      → AllListed signature completion_signatures (sent_by (erased_invoke false calm keep 7 c a)))
    × ((σ : CompletionSignature)
        → Listed σ completion_signatures
        → (a : Answer ℕ) × AnyIs signature σ (sent_by (erased_invoke false calm keep 7 fresh a)))
declared_exactly_example = declared_exactly calm keep 7 fresh 4 4 fresh-can_post refl
