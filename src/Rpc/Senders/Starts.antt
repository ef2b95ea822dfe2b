-- ===== src/Rpc/Senders/Starts.antt =====
-- What the operations of any senders do to the contexts and to the receivers, where one thread starts
-- them and each call is answered before the next action. (What two threads do that start operations of one
-- sender at once is in Rpc/Shared.)
use grpc_p.Base.{
  ℕ, suc, ◌+◌, ◌<◌, ◌≡◌, ◌≢◌, refl, subst, ◌∙◌, Bool, true, false, Option, none, some, List, [],
  ◌∷◌, arith, length, get_elem?-some, length-set, length-append, if◌then◌else◌, ◌==◌,
}
use grpc_p.Base.Rows.{count, one_if}
use grpc_p.Context.Post.{post_rpc}
use grpc_p.Rpc.Signal.{Exception}
use grpc_p.Rpc.Wrapped.{Converted, after_post}
use grpc_p.Rpc.Once.{Answer}
use grpc_p.Rpc.Shared.{answer_call, to}
use grpc_p.Rpc.Shared.Starts.{completed, completed-append, answer_call-some}
use grpc_p.Rpc.Senders.{
  ResponseReaderFactory, read_with, ClientRpcSender, RpcOp, connect, World, call, start, invoke,
}

-- What one thread does with stubs and senders, one thing after the other. A call that the context takes
-- is answered at once.
pub data Action (Service Client Req Reader V : Type 0) : Type 0 where
  make_call :
      ResponseReaderFactory Service Client Req Reader
      → (context : ℕ) → Req
      → Action Service Client Req Reader V
  connect_and_start :
      ClientRpcSender → (receiver : ℕ) → Answer V → Action Service Client Req Reader V

ne_test : (a b : ℕ) → a ≢ b → (a == b) ≡ false
ne_test a b ne = ground arith

module _ {R V : Type 0} (is_void : Bool) (throws : Option R → Option Exception)
    (convert : V → Converted R) where
  told :
      (receiver : ℕ) (a : Answer V) (invoked : Bool) (r : ℕ)
      → completed r (
          if invoked
          then answer_call is_void throws convert (some receiver) a
          else to is_void throws convert receiver (after_post is_void throws false))
        ≡ one_if r receiver
  unfolding after_post
  told receiver a true r = answer_call-some is_void throws convert r receiver a
  told receiver a false r = omega arith

module _ {Service Client Req Reader R V : Type 0} (is_void : Bool)
    (throws : Option R → Option Exception) (convert : V → Converted R) where
  unfoldable pub run_actions :
      List (Action Service Client Req Reader V)
      → World Service Client Req Reader R
      → Option (World Service Client Req Reader R)
  run_actions [] w = some w
  run_actions (make_call f c request ∷ acts) w =
      run_actions acts (call is_void throws convert f c request w).1
  run_actions (connect_and_start s receiver a ∷ acts) w =
      elim (start is_void throws convert (connect s receiver) a w) [
        | none ↦ none
        | some w' ↦ run_actions acts w'
      ]

  -- A started operation whose CallData exists.
  record Started (op : RpcOp) (w w' : World Service Client Req Reader R) : Type 0 where
    tells : (r : ℕ) → completed r w'.sent ≡ completed r w.sent + one_if r op.receiver
    same_calls : length w'.calls ≡ length w.calls
    keeps : (k : ℕ) → k ≢ op.context → w'.contexts k ≡ w.contexts k

  start-Started :
      (op : RpcOp) (a : Answer V) (w : World Service Client Req Reader R)
      → op.call_data < length w.calls
      → (w' : World Service Client Req Reader R) × (start is_void throws convert op a w ≡ some w')
        × Started op w w'
  unfolding start invoke
  start-Started op a w small =
      let (d, here) = get_elem?-some w.calls op.call_data small in
      let w' = invoke is_void throws convert op a (record d { completion = some op.receiver }) w in
      let invoked : Bool =
        (post_rpc (λ client_context cq. read_with d.factory_fn client_context d.request cq)
          (w.contexts op.context)).0 in
      (
        w',
        rw here,
        record {
          tells = λ r. omega (
            arith,
            completed-append r w.sent (
                if invoked
                then answer_call is_void throws convert (some op.receiver) a
                else to is_void throws convert op.receiver (after_post is_void throws false)),
            told is_void throws convert op.receiver a invoked r,
          );
          same_calls = length-set w.calls op.call_data _;
          keeps = λ k other. rw (ne_test k op.context other);
        },
      )

  -- The senders that are started refer to CallData that have been made, of which there are `n` at first.
  abbrev pub Made : ℕ → List (Action Service Client Req Reader V) → Type 0
  Made n [] = Unit
  Made n (make_call f c request ∷ acts) = Made (suc n) acts
  Made n (connect_and_start s receiver a ∷ acts) = (s.call_data < n) × Made n acts

  -- The receivers of the operations started, and the contexts of their senders.
  abbrev pub receivers : List (Action Service Client Req Reader V) → List ℕ
  receivers [] = []
  receivers (make_call f c request ∷ acts) = receivers acts
  receivers (connect_and_start s receiver a ∷ acts) = receiver ∷ receivers acts

  abbrev pub used : List (Action Service Client Req Reader V) → List ℕ
  used [] = []
  used (make_call f c request ∷ acts) = used acts
  used (connect_and_start s receiver a ∷ acts) = s.context ∷ used acts

  -- One thread makes calls on any stubs, and connects and starts senders of any of the calls made so
  -- far, one action after the other, on contexts in any state; gRPC answers each call that a context
  -- takes before the next action, in any way. Then the actions run to their end, each receiver is
  -- completed as often as an operation of it was started, and a context whose senders are not started
  -- stays as it is.
  pub run_actions-completed :
      (acts : List (Action Service Client Req Reader V)) (w : World Service Client Req Reader R)
      → Made (length w.calls) acts
      → (w' : World Service Client Req Reader R) × (run_actions acts w ≡ some w')
        × ((r : ℕ) → completed r w'.sent ≡ completed r w.sent + count r (receivers acts))
        × ((k : ℕ) → count k (used acts) ≡ 0 → w'.contexts k ≡ w.contexts k)
  unfolding run_actions call connect
  run_actions-completed [] w made = (w, refl, λ r. omega arith, λ k none_used. refl)
  run_actions-completed (make_call f c request ∷ acts) w made =
      run_actions-completed acts (call is_void throws convert f c request w).1
        (subst (λ n. Made n acts) (omega (arith, length-append w.calls)) made)
  run_actions-completed (connect_and_start s receiver a ∷ acts) w (small, made) =
      let (w1, e, st) = start-Started (connect s receiver) a w small in
      let (w', e', tells, keeps) = run_actions-completed acts w1 (rw st.same_calls made) in
      (
        w',
        rw (run_actions, e) e',
        λ r. omega (arith, tells r, st.tells r),
        λ k unused. keeps k (omega (arith, unused)) ∙ st.keeps k (ground (arith, unused)),
      )
