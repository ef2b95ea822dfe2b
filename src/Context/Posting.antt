-- ===== src/Context/Posting.antt =====
-- What a post does to the context, and which completion queue it goes to.
use grpc_p.Base.{
  ℕ, ◌+◌, ◌-◌, ◌%◌, ◌^◌, ◌<◌, ◌≡◌, ◌⊎◌, ◌↔◌, Bool, true, false, [], ◌∷◌, ◌++◌, arith, if◌then◌else◌,
}
use grpc_p.Base.Int.{ℤ}
use grpc_p.Status.Timespec.{duration_to_grp_timespec}
use grpc_p.Context.State.{ready, running, can_post}
use grpc_p.Context.Defs.{ExecutionContext, Call, set_alarm, make_rpc, u64}
use grpc_p.Context.Post.{post_delta, post_rpc}

leave-enter : (n : ℕ) → n + 1 < 2 ^ 64 → u64 (u64 (n + 1) + 2 ^ 64 - 1) ≡ n
leave-enter n h = omega arith

module _ {ℓ κ} {T : Type ℓ} {F : Type κ} where
  -- The context after `call` has been made on the next completion queue, and nothing else.
  abbrev pub called : (ℕ → Call T F) → ExecutionContext T F → ExecutionContext T F
  called call c = record c {
    next_cq_write_index = u64 (c.next_cq_write_index + 1);
    calls = c.calls ++ call (c.next_cq_write_index % c.cqs) ∷ [];
  }

  pub post_delta_lem :
      (thunk : Bool → T) (delta : ℤ) (c : ExecutionContext T F)
      → c.within_cq_post + 1 < 2 ^ 64
      → post_delta thunk delta c ≡ (
          if can_post c.state
          then (true, called (λ cq. set_alarm cq thunk (duration_to_grp_timespec delta)) c)
          else (false, c))
  unfolding post_delta
  post_delta_lem thunk delta c fits = rw (leave-enter c.within_cq_post fits)

  -- With fewer than 2^64 - 1 posts under way: the two posts to the completion queues are accepted
  -- exactly in the states `Ready` and `Running`. An accepted post makes one call, on the queue
  -- whose turn it is, and moves the turn on; a refused one changes nothing; the count of posts
  -- under way is afterwards what it was.
  post_rpc-post_delta :
      (factory : F) (thunk : Bool → T) (delta : ℤ) (c : ExecutionContext T F)
      → c.within_cq_post + 1 < 2 ^ 64
      → ((can_post c.state ≡ true) ↔ ((c.state ≡ ready) ⊎ (c.state ≡ running)))
        × (post_rpc factory c ≡ (
            if can_post c.state then (true, called (λ cq. make_rpc cq factory) c) else (false, c)))
        × (post_delta thunk delta c ≡ (
            if can_post c.state
            then (true, called (λ cq. set_alarm cq thunk (duration_to_grp_timespec delta)) c)
            else (false, c)))
  unfolding post_rpc
  post_rpc-post_delta factory thunk delta c fits =
      (ground arith, rw (leave-enter c.within_cq_post fits), post_delta_lem thunk delta c fits)
