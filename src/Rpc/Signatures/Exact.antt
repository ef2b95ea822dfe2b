-- ===== src/Rpc/Signatures/Exact.antt =====
-- The declared signatures are those of the signals sent, no fewer and no more.
use grpc_p.Base.{◌≡◌, refl, Bool, true, false, Option, arith, inl, inr, if◌then◌else◌}
use grpc_p.Status.GrpcCode.{StatusCode}
use grpc_p.Context.State.{can_post}
use grpc_p.Context.Defs.{ExecutionContext}
use grpc_p.Context.Post.{post_rpc}
use grpc_p.Rpc.Signal.{Exception}
use grpc_p.Rpc.Pure as Pure
use grpc_p.Rpc.Wrapped.{Converted, converted, curried_completion, handler, after_post}
use grpc_p.Rpc.Inflight.{sent_by}
use grpc_p.Rpc.Once.{Answer, pure_invoke, sent_by-invoke, post_rpc-taken}
use grpc_p.Rpc.Erased.{erased_invoke}
use grpc_p.Rpc.Signatures.{
  CompletionSignature, set_value, set_error, result_type, rpc_status, completion_signatures,
  pure_completion_signatures, signature, pure_signature, Listed, AllListed, AnyIs,
}

module _ {R V : Type 0} (throws : Option R → Option Exception) (convert : V → Converted R) where
  answered-AllListed :
      (a : Answer V)
      → AllListed signature completion_signatures
          (curried_completion convert (handler false throws) a.rpc_ok a.status a.response).sent
  unfolding curried_completion handler
  answered-AllListed a = ground arith

  sent-AllListed :
      (invoked : Bool) (a : Answer V)
      → AllListed signature completion_signatures (
          if invoked
          then (curried_completion convert (handler false throws) a.rpc_ok a.status a.response).sent
          else after_post false throws invoked)
  unfolding after_post
  sent-AllListed true a = answered-AllListed a
  sent-AllListed false a = (inr (inl refl), tt)

  -- Answers of gRPC that lead to a value and to an error.
  abbrev value_answer : V → Answer V
  value_answer v = record {
    rpc_ok = true;
    status = record { code = StatusCode.ok; message = "" };
    response = v;
  }

  abbrev error_answer : V → Answer V
  error_answer v = record {
    rpc_ok = true;
    status = record { code = StatusCode.not_found; message = "" };
    response = v;
  }

  abbrev Sends : CompletionSignature → Answer V → Type 0
  Sends σ a =
      AnyIs signature σ
        (curried_completion convert (handler false throws) a.rpc_ok a.status a.response).sent

  Sends-value :
      (v : V) (r : R) → convert v ≡ converted r → Sends (set_value result_type) (value_answer v)
  unfolding curried_completion handler
  Sends-value v r e = ground arith

  Sends-error :
      (v : V) (r : R) → convert v ≡ converted r → Sends (set_error rpc_status) (error_answer v)
  unfolding curried_completion handler
  Sends-error v r e = ground arith

  -- Of a sender whose result type is not void, and a response that can be converted. Whatever the context
  -- says and whatever gRPC answers, each call on the receiver that its operation makes has one of the
  -- signatures that the sender declares; and each of these is that of a call which the operation makes,
  -- if the context takes the RPC, on some answer of gRPC.
  pub declared_exactly :
      {T F : Type 0} (factory : F) (c : ExecutionContext T F) (v : V) (r : R)
      → can_post c.state ≡ true
      → convert v ≡ converted r
      → ((c' : ExecutionContext T F) (a : Answer V)
          → AllListed signature completion_signatures
              (sent_by (erased_invoke false throws convert factory c' a)))
        × ((σ : CompletionSignature)
            → Listed σ completion_signatures
            → (a : Answer V) × AnyIs signature σ
                (sent_by (erased_invoke false throws convert factory c a)))
  unfolding erased_invoke
  declared_exactly {T} {F} factory c v r taken e = (
    λ c' a.
        rw (sent_by-invoke (post_rpc factory c').0 _ _) (sent-AllListed (post_rpc factory c').0 a),
    λ σ listed. elim listed [
      | inl s ↦ (value_answer v, came _ (value_answer v) (rw s (Sends-value v r e)))
      | inr rest ↦ elim rest [
        | inl s ↦ (error_answer v, came _ (error_answer v) (rw s (Sends-error v r e)))
        | inr nothing ↦ absurd nothing
      ]
    ],
  )
    where
      came :
          (σ : CompletionSignature) (a : Answer V)
          → Sends σ a
          → AnyIs signature σ (sent_by (erased_invoke false throws convert factory c a))
      came σ a h = rw (sent_by-invoke (post_rpc factory c).0 _ _, post_rpc-taken factory c, taken) h

module _ {V : Type 0} (throws : V → Option Exception) where
  completion-AllListed :
      (a : Answer V)
      → AllListed pure_signature pure_completion_signatures
          (Pure.completion throws a.rpc_ok a.status a.response)
  unfolding Pure.completion
  completion-AllListed a = ground arith

  -- The same, without the converse, of the operation of an RPC on the protobuf types.
  pure_declared :
      {T F : Type 0} (factory : F) (c : ExecutionContext T F) (a : Answer V)
      → AllListed pure_signature pure_completion_signatures
          (sent_by (pure_invoke throws factory c a))
  unfolding pure_invoke
  pure_declared factory c a =
      rw (sent_by-invoke (post_rpc factory c).0 _ _) (by_post (post_rpc factory c).0)
    where
      by_post :
          (invoked : Bool)
          → AllListed pure_signature pure_completion_signatures (
              if invoked
              then Pure.completion throws a.rpc_ok a.status a.response
              else Pure.after_post throws invoked)
      by_post true = completion-AllListed a
      by_post false = unfold Pure.after_post in (inr (inl refl), tt)
