-- ===== src/Context/Worker/Examples.antt =====
-- The theorems on a worker at a concrete task queue and concrete answers.
use grpc_p.Base.{ℕ, zero, suc, ◌≡◌, ◌↔◌, refl, Bool, true, false, none, some, ◌==◌, [], ◌∷◌, arith}
use grpc_p.Base.Rows.{total}
use grpc_p.Queue.Stealing.{StealingQueue, steal}
use grpc_p.Queue.Push.{IsValid}
use grpc_p.Context.Worker.{NextStatus, shutdown, timeout, turn}
use grpc_p.Context.Worker.Leaves.{AllShut, NoneReady, turn-leaves-sleeps}
use grpc_p.Context.Worker.Throws.{Ended, run_throwing, Ends, run_throwing-Ends}

abbrev two_thunks : StealingQueue ℕ
two_thunks = record {
  queues = record { queue = 5 ∷ [] } ∷ record { queue = 6 ∷ [] } ∷ [];
  n_queues = 2;
  push_index = 2;
  pop_index = 0;
  in_push = 0;
  is_done = false;
}

two_thunks-IsValid : IsValid two_thunks
two_thunks-IsValid = record {
  sized = refl;
  some_queue = omega arith;
  small = omega arith;
  counted = omega arith;
  push_fits = omega arith;
  pop_fits = omega arith;
}

-- Every queue is idle in the first iteration, and shut down in the next.
abbrev answers : ℕ → ℕ → ℕ → NextStatus
answers zero s i = timeout
answers (suc r) s i = shutdown

abbrev get_all : ℕ → Bool
get_all k = true

turn-leaves-sleeps_example :
    (((turn get_all (answers 0) 1 (2 ∷ 1 ∷ []) two_thunks).leaves ≡ true)
      ↔ AllShut (answers 0) (2 ∷ 1 ∷ []))
    × (((turn get_all (answers 0) 1 (2 ∷ 1 ∷ []) two_thunks).sleeps ≡ true) ↔ (
        ((turn get_all (answers 0) 1 (2 ∷ 1 ∷ []) two_thunks).leaves ≡ false)
        × ((steal get_all two_thunks).0 ≡ none)
        × NoneReady (answers 0) (2 ∷ 1 ∷ [])))
unfolding total
turn-leaves-sleeps_example =
    turn-leaves-sleeps get_all (answers 0) 1 (2 ∷ 1 ∷ []) two_thunks (omega arith) (omega arith)

-- Thunk 5 throws.
abbrev throws : ℕ → Bool
throws t = t == 5

run_throwing-Ends_example :
    (e : Ended ℕ) × (run_throwing throws (λ r. get_all) answers 1 (2 ∷ 1 ∷ []) 3 0 two_thunks
      ≡ some e)
    × Ends throws two_thunks e
unfolding total
run_throwing-Ends_example =
    run_throwing-Ends throws (λ r. get_all) answers 1 (2 ∷ 1 ∷ []) 3 0 1 two_thunks
      two_thunks-IsValid refl (omega arith) (omega arith) (omega arith) (λ s i h. refl)
