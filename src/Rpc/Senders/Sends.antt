-- ===== src/Rpc/Senders/Sends.antt =====
-- The operations of Rpc/Senders do what those of Rpc/Erased say.
use grpc_p.Base.{
  ℕ, ◌≡◌, ◌⊎◌, inl, inr, refl, sym, ap, ◌∙◌, Bool, true, false, Option, some, ◌++◌, arith,
  get_elem?, if◌then◌else◌,
}
use grpc_p.Context.Post.{post_rpc}
use grpc_p.Rpc.Signal.{Exception}
use grpc_p.Rpc.Wrapped.{Converted, converted, threw, curried_completion, handler, after_post}
use grpc_p.Rpc.Inflight.{sent_by}
use grpc_p.Rpc.Once.{Answer, sent_by-invoke}
use grpc_p.Rpc.Erased.{erased_invoke}
use grpc_p.Rpc.Shared.{to, answer_call}
use grpc_p.Rpc.Senders.{read_with, CallObject, RpcOp, World, start, invoke}

Converted-cases {ℓ} :
    {R : Type ℓ} (c : Converted R)
    → ((r : R) × (c ≡ converted r)) ⊎ ((e : Exception) × (c ≡ threw e))
Converted-cases (converted r) = inl (r, refl)
Converted-cases (threw e) = inr (e, refl)

module _ {R V : Type 0} (is_void : Bool) (throws : Option R → Option Exception)
    (convert : V → Converted R) where
  answer_call-erased :
      (op : ℕ) (a : Answer V)
      → answer_call is_void throws convert (some op) a
        ≡ to is_void throws convert op
            (curried_completion convert (handler is_void throws) a.rpc_ok a.status a.response).sent
  unfolding answer_call curried_completion handler
  answer_call-erased op a = elim (Converted-cases (convert a.response)) [
    | inl (r, e) ↦ rw (e, answer_call, curried_completion) refl
    | inr (x, e) ↦ rw (e, answer_call, curried_completion) refl
  ]

module _ {Service Client Req Reader R V : Type 0} (is_void : Bool)
    (throws : Option R → Option Exception) (convert : V → Converted R) where
  -- What `post` is given for a CallData.
  abbrev pub factory_of : CallObject Service Client Req Reader → Client → ℕ → Reader
  factory_of d client_context cq = read_with d.factory_fn client_context d.request cq

  pub start-erased :
      (op : RpcOp) (a : Answer V) (w : World Service Client Req Reader R)
      (d : CallObject Service Client Req Reader)
      → get_elem? w.calls op.call_data ≡ some d
      → (w' : World Service Client Req Reader R) × (start is_void throws convert op a w ≡ some w')
        × (w'.contexts op.context ≡ (post_rpc (factory_of d) (w.contexts op.context)).1)
        × (w'.sent
            ≡ w.sent
              ++ to is_void throws convert op.receiver (
                  sent_by (
                    erased_invoke is_void throws convert (factory_of d) (w.contexts op.context) a)))
  unfolding start invoke erased_invoke
  start-erased op a w d here = (
    invoke is_void throws convert op a (record d { completion = some op.receiver }) w,
    rw here refl,
    ground arith,
    ap (◌++◌ w.sent) (
        by_post invoked
        ∙ sym (ap (to is_void throws convert op.receiver) (sent_by-invoke invoked _ _))),
  )
    where
      invoked : Bool
      invoked = (post_rpc (factory_of d) (w.contexts op.context)).0

      by_post :
          (b : Bool)
          → (if b
              then answer_call is_void throws convert (some op.receiver) a
              else to is_void throws convert op.receiver (after_post is_void throws false))
            ≡ to is_void throws convert op.receiver (
                if b
                then (curried_completion convert
                    (handler is_void throws)
                    a.rpc_ok
                    a.status
                    a.response).sent
                else after_post is_void throws b)
      by_post true = answer_call-erased is_void throws convert op.receiver a
      by_post false = refl
