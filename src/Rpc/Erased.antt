-- ===== src/Rpc/Erased.antt =====
-- What the receiver of a type-erased RPC is sent.
use grpc_p.Base.{
  ◌≡◌, ◌↔◌, refl, ap, ◌∙◌, Bool, true, false, Option, none, some, List, [], ◌∷◌, arith,
  if◌then◌else◌,
}
use grpc_p.Status.RpcCode.{RpcStatusCode}
use grpc_p.Status.Convert.{to_rpc_status_code}
use grpc_p.Status.RpcStatus.{RpcStatus, make}
use grpc_p.Context.Defs.{ExecutionContext}
use grpc_p.Context.Post.{post_rpc}
use grpc_p.Context.State.{can_post}
use grpc_p.Rpc.Signal.{is_ok, Exception, Signal, value, error, completions}
use grpc_p.Rpc.Wrapped.{
  Converted, converted, threw, curried_completion, handler, after_post, unpacking,
}
use grpc_p.Rpc.Inflight.{Event, deletions, sent_by}
use grpc_p.Rpc.Once.{Answer, invoke, sent_by-invoke, deletions-invoke, post_rpc-taken}

module _ {κ τ} {R : Type κ} {V : Type τ} (is_void : Bool) (throws : Option R → Option Exception)
    (convert : V → Converted R) where
  -- RpcSenderOpState::invoke on a context, and the answer that gRPC gives if a call is made.
  unfoldable pub erased_invoke {ℓ μ} :
      {T : Type ℓ} {F : Type μ}
      → F
      → ExecutionContext T F
      → Answer V
      → List (Event (Signal (Option R) RpcStatus))
  erased_invoke factory c a =
      let invoked : Bool = (post_rpc factory c).0 in
      invoke invoked
        (curried_completion convert (handler is_void throws) a.rpc_ok a.status a.response)
        (after_post is_void throws invoked)

  -- The value that a receiver has been given, if it has.
  abbrev pub given : List (Signal (Option R) RpcStatus) → Option (Option R)
  given [] = none
  given (value r ∷ ss) = some r
  given (_ ∷ ss) = given ss

  answered : Answer V → List (Signal (Option R) RpcStatus)
  answered a =
      (curried_completion convert (handler is_void throws) a.rpc_ok a.status a.response).sent

  answered-once : (a : Answer V) → completions (answered a) ≡ 1
  unfolding answered curried_completion handler
  answered-once a = ground arith

  erased-once :
      (invoked : Bool) (a : Answer V)
      → completions (
          if invoked
          then (curried_completion convert
              (handler is_void throws)
              a.rpc_ok
              a.status
              a.response).sent
          else after_post is_void throws invoked)
        ≡ 1
  unfolding after_post answered
  erased-once true a = answered-once a
  erased-once false a = refl

  answered-given :
      (a : Answer V) (r : R)
      → is_void ≡ false
      → (given
            (curried_completion convert (handler is_void throws) a.rpc_ok a.status a.response).sent
          ≡ some (some r))
        ↔ ((a.rpc_ok ≡ true)
            × (is_ok a.status.code ≡ true)
            × (convert a.response ≡ converted r)
            × (throws (some r) ≡ none))
  unfolding curried_completion handler
  answered-given a r typed = ground (arith)

  -- Whatever the state of the context, whatever gRPC answers, whether or not the conversion throws and
  -- whatever the receiver throws, a type-erased RPC completes its receiver exactly once; and its
  -- InflightRpc is deleted exactly once if the context took the call, which is while it is ready or
  -- running.
  pub erased_invoke-once {ℓ μ} :
      {T : Type ℓ} {F : Type μ} (factory : F) (c : ExecutionContext T F) (a : Answer V)
      → (completions (sent_by (erased_invoke factory c a)) ≡ 1)
        × (deletions (erased_invoke factory c a) ≡ (if can_post c.state then 1 else 0))
  unfolding erased_invoke
  erased_invoke-once factory c a = (
    rw (sent_by-invoke (post_rpc factory c).0 _ _) (erased-once (post_rpc factory c).0 a),
    deletions-invoke (post_rpc factory c).0 _ _
        ∙ ap (λ b. if b then 1 else 0) (post_rpc-taken factory c),
  )

  erased-given :
      (invoked : Bool) (a : Answer V) (r : R)
      → is_void ≡ false
      → (given (
            if invoked
            then (curried_completion convert
                (handler is_void throws)
                a.rpc_ok
                a.status
                a.response).sent
            else after_post is_void throws invoked)
          ≡ some (some r))
        ↔ ((invoked ≡ true)
            × (a.rpc_ok ≡ true)
            × (is_ok a.status.code ≡ true)
            × (convert a.response ≡ converted r)
            × (throws (some r) ≡ none))
  unfolding after_post
  erased-given true a r typed =
      let g = answered-given a r typed in
      (λ e. let (x, y, z, w) = g.0 e in (refl, x, y, z, w), λ h. g.1 (h.1, h.2, h.3, h.4))
  erased-given false a r typed = (λ e. cc, λ h. cc (h.0))

  -- A value of a type other than void arrives exactly when the context took the call, gRPC reports
  -- success, the response could be converted and the receiver did not throw; and it is then the
  -- response converted.
  pub erased_invoke-given {ℓ μ} :
      {T : Type ℓ} {F : Type μ} (factory : F) (c : ExecutionContext T F) (a : Answer V) (r : R)
      → is_void ≡ false
      → (given (sent_by (erased_invoke factory c a)) ≡ some (some r)) ↔ (
          (can_post c.state ≡ true)
          × (a.rpc_ok ≡ true)
          × (is_ok a.status.code ≡ true)
          × (convert a.response ≡ converted r)
          × (throws (some r) ≡ none))
  unfolding erased_invoke
  erased_invoke-given factory c a r typed =
      rw (sent_by-invoke (post_rpc factory c).0 _ _, post_rpc-taken factory c)
        (erased-given (can_post c.state) a r typed)

  -- A conversion that throws hides what gRPC reported: for a call that the context took and that
  -- gRPC answered, whatever its status, the receiver is told `Internal` and the text of the
  -- exception, and nothing else.
  pub erased_invoke-masks {ℓ μ} :
      {T : Type ℓ} {F : Type μ} (factory : F) (c : ExecutionContext T F) (a : Answer V)
      (e : Exception)
      → can_post c.state ≡ true
      → a.rpc_ok ≡ true
      → convert a.response ≡ threw e
      → sent_by (erased_invoke factory c a) ≡ error (make RpcStatusCode.internal (unpacking e)) ∷ []
  unfolding erased_invoke curried_completion handler to_rpc_status_code
  erased_invoke-masks factory c a e taken answered_ok fails =
      rw (sent_by-invoke (post_rpc factory c).0 _ _, post_rpc-taken factory c, taken) (ground arith)
