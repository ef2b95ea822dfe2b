-- ===== src/Rpc/Once.antt =====
-- A started RPC completes its receiver once, and deletes its heap object once.
use mathlib.Core.List.{append-nil}
use grpc_p.Base.{
  ◌≡◌, refl, sym, ap, ◌∙◌, Bool, true, false, Option, none, List, [], ◌∷◌, ◌++◌, map, arith,
  if◌then◌else◌,
}
use grpc_p.Context.Defs.{ExecutionContext}
use grpc_p.Context.Post.{post_rpc}
use grpc_p.Context.State.{can_post}
use grpc_p.Rpc.Signal.{GrpcStatus, Exception, Signal, completions}
use grpc_p.Rpc.Pure as Pure
use grpc_p.Rpc.Wrapped.{Handled}
use grpc_p.Rpc.Inflight.{Event, sends, deleted, inflight_rpc, inflight_complete, deletions, sent_by}

-- What gRPC reports of a call that was made: it completes each tag once.
pub record Answer {ℓ} (V : Type ℓ) : Type ℓ where
  pub rpc_ok : Bool
  pub status : GrpcStatus
  pub response : V

-- `invoke`: if the context takes the factory, an InflightRpc is made, and gRPC's answer completes it; if
-- not, the signals are sent at once.
unfoldable pub invoke {ℓ} :
    {S : Type ℓ} → (invoked : Bool) → (done : Handled S) → (refused : List S) → List (Event S)
invoke invoked done refused =
    if invoked then inflight_rpc ++ inflight_complete done else map sends refused

pub post_rpc-taken {ℓ κ} :
    {T : Type ℓ} {F : Type κ} (factory : F) (c : ExecutionContext T F)
    → (post_rpc factory c).0 ≡ can_post c.state
unfolding post_rpc
post_rpc-taken factory c = ground arith

module _ {ℓ} {S : Type ℓ} where
  sent_by-sends :
      (ss : List S) (es : List (Event S)) → sent_by (map sends ss ++ es) ≡ ss ++ sent_by es
  sent_by-sends [] es = refl
  sent_by-sends (s ∷ ss) es = ap (◌∷◌ s) (sent_by-sends ss es)

  deletions-sends :
      (ss : List S) (es : List (Event S)) → deletions (map sends ss ++ es) ≡ deletions es
  deletions-sends [] es = refl
  deletions-sends (s ∷ ss) es = deletions-sends ss es

-- All that one RPC sends to its receiver.
abbrev pub signals {ℓ κ} : {V : Type ℓ} {E : Type κ} → List (Event (Signal V E)) → List (Signal V E)
signals = sent_by

pub sent_by-invoke {ℓ} :
    {S : Type ℓ} (invoked : Bool) (done : Handled S) (refused : List S)
    → sent_by (invoke invoked done refused) ≡ (if invoked then done.sent else refused)
unfolding invoke inflight_complete
sent_by-invoke true done refused = sent_by-sends done.sent (deleted ∷ []) ∙ append-nil done.sent
sent_by-invoke false done refused =
    ap sent_by (sym (append-nil (map sends refused)))
    ∙ sent_by-sends refused []
    ∙ append-nil refused

pub deletions-invoke {ℓ} :
    {S : Type ℓ} (invoked : Bool) (done : Handled S) (refused : List S)
    → deletions (invoke invoked done refused) ≡ (if invoked then 1 else 0)
unfolding invoke inflight_complete
deletions-invoke true done refused = deletions-sends done.sent (deleted ∷ [])
deletions-invoke false done refused =
    ap deletions (sym (append-nil (map sends refused))) ∙ deletions-sends refused []

module _ {τ} {V : Type τ} (throws : V → Option Exception) where
  -- PureRpcSenderOpState::invoke on a context, and the answer that gRPC gives if a call is made.
  unfoldable pub pure_invoke {ℓ κ} :
      {T : Type ℓ} {F : Type κ}
      → F
      → ExecutionContext T F
      → Answer V
      → List (Event (Signal V GrpcStatus))
  pure_invoke factory c a =
      let invoked : Bool = (post_rpc factory c).0 in
      invoke invoked
        (record { sent = Pure.completion throws a.rpc_ok a.status a.response; thrown = none })
        (Pure.after_post throws invoked)

  completion-once :
      (rpc_ok : Bool) (status : GrpcStatus) (response : V)
      → completions (Pure.completion throws rpc_ok status response) ≡ 1
  unfolding Pure.completion
  completion-once rpc_ok status response = ground arith

  pure-once :
      (invoked rpc_ok : Bool) (status : GrpcStatus) (response : V)
      → completions (
          if invoked
          then Pure.completion throws rpc_ok status response
          else Pure.after_post throws invoked)
        ≡ 1
  unfolding Pure.after_post
  pure-once true rpc_ok status response = completion-once rpc_ok status response
  pure-once false rpc_ok status response = refl

  -- Whatever the state of the context, whatever gRPC answers and whatever the receiver throws, an RPC
  -- on the protobuf types completes its receiver exactly once; and its InflightRpc is deleted exactly
  -- once if the context took the call, which is while it is ready or running.
  pure_invoke-once {ℓ κ} :
      {T : Type ℓ} {F : Type κ} (factory : F) (c : ExecutionContext T F) (a : Answer V)
      → (completions (sent_by (pure_invoke factory c a)) ≡ 1)
        × (deletions (pure_invoke factory c a) ≡ (if can_post c.state then 1 else 0))
  unfolding pure_invoke
  pure_invoke-once factory c a = (
    rw (sent_by-invoke (post_rpc factory c).0 _ _)
        (pure-once (post_rpc factory c).0 a.rpc_ok a.status a.response),
    deletions-invoke (post_rpc factory c).0 _ _
        ∙ ap (λ b. if b then 1 else 0) (post_rpc-taken factory c),
  )
