-- ===== src/Context/Gate/Unjoined.antt =====
-- A stop may pass by the threads that a `run_while` is about to start: `run_while` sets the state under
-- its lock, and makes the threads after it.
use grpc_p.Base.{ℕ, suc, ◌≡◌, refl, List, [], ◌∷◌}
use grpc_p.Context.State.{ExecutionState, set_state}
use grpc_p.Context.Defs.{Call}
use grpc_p.Context.Post.{construct}
use grpc_p.Context.Lifecycle.{shutdowns, all_server_shutdowns, joins}
use grpc_p.Context.Gate.{
  idle, System, Reach, start, later, pick, run, stop, waited, halt_one, join_all, joined,
  notified_all, start_threads,
}

module _ {ℓ κ} {T : Type ℓ} {F : Type κ} where
  -- How many joins there are among the calls.
  abbrev pub joins_made : List (Call T F) → ℕ
  joins_made [] = 0
  joins_made (Call.join i ∷ cs) = suc (joins_made cs)
  joins_made (_ ∷ cs) = joins_made cs

module _ {ℓ κ} (T : Type ℓ) (F : Type κ) (n : ℕ) where
  -- For any number of threads there is a reachable state of a context with one queue in which the two
  -- callers have come to rest, the context is stopped, its threads have been started and none of them
  -- has been joined.
  pub unjoined_threads :
      (s : System T F) × Reach n 1 2 s
      × (s.threads ≡ idle ∷ idle ∷ [])
      × (s.context.state ≡ ExecutionState.stopped)
      × (s.context.threads ≡ n)
      × (joins_made s.context.calls ≡ 0)
  unfolding construct set_state shutdowns all_server_shutdowns joins
  unjoined_threads = (
    _,
    later
        (later
          (later
            (later
              (later
                (later (later (later start (pick 0 refl (run refl))) (pick 1 refl (stop refl)))
                  (pick 1 refl (waited refl)))
                (pick 1 refl halt_one))
              (pick 1 refl (join_all refl)))
            (pick 1 refl joined))
          (pick 1 refl notified_all))
        (pick 0 refl start_threads),
    refl,
    refl,
    refl,
    refl,
  )
