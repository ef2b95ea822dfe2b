-- ===== src/Context/Deadline.antt =====
-- The post with a deadline tests it the wrong way round.
use mathlib.Core.List.{Perm}
use grpc_p.Base.{
  ℕ, ◌+◌, ◌^◌, ◌<◌, ◌≤◌, ◌≡◌, ◌⊎◌, refl, Bool, true, false, some, ◌∷◌, arith, if◌then◌else◌, leb,
}
use grpc_p.Base.Int.{ℤ, ◌-ℤ◌, ◌≤ℤ◌, pos_part, neg_part, -ℤ_parts, ◌+ℤ◌, ◌*ℤ◌, pos}
use grpc_p.Status.Timespec.{
  Timespec, duration_to_grp_timespec, duration_to_grp_timespec_lem, billion,
}
use grpc_p.Queue.Stealing.{push, StealingQueue}
use grpc_p.Queue.Content.{contents}
use grpc_p.Queue.Push.{IsValid, Grown, push-Pushes, Pushes}
use grpc_p.Context.State.{can_post}
use grpc_p.Context.Defs.{ExecutionContext, set_alarm}
use grpc_p.Context.Post.{post, post_delta, post_deadline}
use grpc_p.Context.Posting.{called, post_delta_lem}

one_sided : (a : ℤ) → (pos_part a ≡ 0) ⊎ (neg_part a ≡ 0)
one_sided a = ground arith

not-leb : {a b : ℕ} → ¬ (a ≤ b) → leb a b ≡ false
not-leb h = ground arith

module _ {ℓ κ} {T : Type ℓ} {F : Type κ} where
  -- A post to a task queue that is not done, where some try in time gets its lock.
  post-accepts :
      (locks : ℕ → ℕ → Bool) (fuel r i : ℕ) (thunk : T) (c : ExecutionContext T F)
      → IsValid c.task_queue
      → r < fuel
      → i < c.task_queue.n_queues
      → locks r i ≡ true
      → c.task_queue.is_done ≡ false
      → (q : StealingQueue T) × (post locks fuel thunk c ≡ some (true, record c { task_queue = q }))
        × Grown thunk c.task_queue q
  unfolding post
  post-accepts locks fuel r i thunk c v in_time small got live =
      accepted (push-Pushes locks thunk fuel r i c.task_queue v in_time small got)
    where
      accepted :
          (b : Bool) × (q : StealingQueue T) × (push locks fuel thunk c.task_queue ≡ some (b, q))
            × Pushes thunk c.task_queue b q
          → (q : StealingQueue T) × (post locks fuel thunk c
              ≡ some (true, record c { task_queue = q }))
            × Grown thunk c.task_queue q
      accepted (true, q, e, p) = (q, rw (e, post) refl, p.1)
      accepted (false, q, e, p) = cc (p.0)

  -- For a deadline that has not passed, and a task queue that is well-formed, not done, and gives
  -- some try within the fuel its lock: the thunk goes to the task queue at once, with the argument
  -- false, and no alarm is set, nor any other call made.
  pub post_deadline_early :
      (locks : ℕ → ℕ → Bool) (fuel r i : ℕ) (now deadline : ℤ) (thunk : Bool → T)
      (c : ExecutionContext T F)
      → IsValid c.task_queue
      → r < fuel
      → i < c.task_queue.n_queues
      → locks r i ≡ true
      → c.task_queue.is_done ≡ false
      → now ≤ℤ deadline
      → (c' : ExecutionContext T F) × (post_deadline locks fuel now thunk deadline c
          ≡ some (true, c'))
        × Perm (contents c'.task_queue.queues) (thunk false ∷ contents c.task_queue.queues)
        × (c'.calls ≡ c.calls)
  unfolding post_deadline
  post_deadline_early locks fuel r i now deadline thunk c v in_time small got live early =
      let (q, e, g) = post-accepts locks fuel r i (thunk false) c v in_time small got live in
      (record c { task_queue = q }, ground (arith, e), g.added, refl)

  -- For a deadline that has passed, in a state that takes posts and with fewer than 2^64 - 1 posts
  -- under way: an alarm is set, for a time that is no later than the present and lies as far back
  -- as the deadline.
  post_deadline_late :
      (locks : ℕ → ℕ → Bool) (fuel : ℕ) (now deadline : ℤ) (thunk : Bool → T)
      (c : ExecutionContext T F)
      → c.within_cq_post + 1 < 2 ^ 64
      → can_post c.state ≡ true
      → ¬ (now ≤ℤ deadline)
      → (t : Timespec) × (post_deadline locks fuel now thunk deadline c
          ≡ some (true, called (λ cq. set_alarm cq thunk t) c))
        × (t.tv_sec *ℤ pos billion +ℤ t.tv_nsec ≡ deadline -ℤ now)
        × (pos_part t.tv_sec + pos_part t.tv_nsec ≡ 0)
  unfolding post_deadline
  post_deadline_late locks fuel now deadline thunk c fits taken late =
      let delta : ℤ = deadline -ℤ now in
      let split = duration_to_grp_timespec_lem delta in
      (
        duration_to_grp_timespec delta,
        set_after (post_delta_lem thunk delta c fits),
        split.0,
        omega (arith, split.2, -ℤ_parts deadline now, one_sided delta),
      )
    where
      set_after :
          (post_delta thunk (deadline -ℤ now) c ≡ (
            if can_post c.state
            then (
              true,
              called (λ cq. set_alarm cq thunk (duration_to_grp_timespec (deadline -ℤ now))) c,
            )
            else (false, c)))
          → post_deadline locks fuel now thunk deadline c
            ≡ some (
              true,
              called (λ cq. set_alarm cq thunk (duration_to_grp_timespec (deadline -ℤ now))) c,
            )
      set_after e = rw (not-leb late, e, taken)
