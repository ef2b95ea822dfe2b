-- ===== src/Context/Post.antt =====
-- execution_context.cpp: the constructor and the four ways to post, by one thread. What other threads
-- do between the steps of a post is in Context/Gate.antt.
use grpc_p.Base.{
  ℕ, ◌+◌, ◌-◌, ◌%◌, ◌^◌, Bool, true, false, Option, none, some, [], ◌∷◌, ◌++◌, if◌then◌else◌,
}
use grpc_p.Base.Int.{ℤ, ◌-ℤ◌, leb_ℤ}
use grpc_p.Status.Timespec.{duration_to_grp_timespec}
use grpc_p.Queue.Stealing.{u32, make, push}
use grpc_p.Context.State.{ready, can_post}
use grpc_p.Context.Defs.{ExecutionContext, Call, set_alarm, make_rpc, u64}

module _ {ℓ κ} {T : Type ℓ} {F : Type κ} where
  -- `ExecutionContext(unsigned n_threads, unsigned number_cqs)`: one task queue more than threads.
  unfoldable pub construct : (n_threads number_cqs : ℕ) → ExecutionContext T F
  unfolding make
  construct n_threads number_cqs = record {
    threads = 0;
    task_queue = make (u32 (n_threads + 1));
    cqs = number_cqs;
    servers = [];
    notifications = [];
    state = ready;
    next_cq_write_index = 0;
    within_cq_post = 0;
    n_threads = n_threads;
    calls = [];
  }

  -- `get_next_cq_`: the queue chosen, and the context after.
  unfoldable pub get_next_cq : ExecutionContext T F → ℕ × ExecutionContext T F
  get_next_cq c = (
    c.next_cq_write_index % c.cqs,
    record c { next_cq_write_index = u64 (c.next_cq_write_index + 1) },
  )

  abbrev pub enter_post : ExecutionContext T F → ExecutionContext T F
  enter_post c = record c { within_cq_post = u64 (c.within_cq_post + 1) }

  abbrev pub leave_post : ExecutionContext T F → ExecutionContext T F
  leave_post c = record c { within_cq_post = u64 (c.within_cq_post + 2 ^ 64 - 1) }

  -- Makes a call that names the next completion queue.
  unfoldable pub call_on_next : (ℕ → Call T F) → ExecutionContext T F → ExecutionContext T F
  unfolding get_next_cq
  call_on_next call c =
      let (cq, c') = get_next_cq c in record c' { calls = c'.calls ++ call cq ∷ [] }

  -- `bool post(ThunkType thunk)`. `locks` and `fuel` are those of `push`; `none` means that it spins.
  unfoldable pub post :
      (ℕ → ℕ → Bool) → ℕ → T → ExecutionContext T F → Option (Bool × ExecutionContext T F)
  post locks fuel thunk c = elim (push locks fuel thunk c.task_queue) [
    | none ↦ none
    | some (done, q) ↦ some (done, record c { task_queue = q })
  ]

  -- `bool post(DeadlinedThunkType thunk, std::chrono::nanoseconds delta)`
  unfoldable pub post_delta : (Bool → T) → ℤ → ExecutionContext T F → Bool × ExecutionContext T F
  unfolding call_on_next
  post_delta thunk delta c =
      if can_post c.state
      then (
        true,
        leave_post (
            call_on_next (λ cq. set_alarm cq thunk (duration_to_grp_timespec delta))
              (enter_post c)),
      )
      else (false, leave_post (enter_post c))

  -- `bool post(DeadlinedThunkType thunk, steady_clock::time_point deadline)`, called at time `now`.
  unfoldable pub post_deadline :
      (ℕ → ℕ → Bool)
      → ℕ
      → (now : ℤ) → (Bool → T)
      → (deadline : ℤ) → ExecutionContext T F
      → Option (Bool × ExecutionContext T F)
  unfolding post post_delta
  post_deadline locks fuel now thunk deadline c =
      if leb_ℤ now deadline
      then post locks fuel (thunk false) c
      else some (post_delta thunk (deadline -ℤ now) c)

  -- `bool post(RpcFactory call_factory)`
  unfoldable pub post_rpc : F → ExecutionContext T F → Bool × ExecutionContext T F
  unfolding call_on_next
  post_rpc factory c =
      if can_post c.state
      then (true, leave_post (call_on_next (λ cq. make_rpc cq factory) (enter_post c)))
      else (false, leave_post (enter_post c))
