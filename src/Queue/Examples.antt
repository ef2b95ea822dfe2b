-- ===== src/Queue/Examples.antt =====
-- The queue's theorems at concrete queues, and runs that can be followed in the source.
use grpc_p.Queue.Fifo.{Op, add, take, outputs, queue_outputs}
use grpc_p.Queue.Fifo.Refines.{outputs-fifo}
use grpc_p.Base.{
  ℕ, zero, suc, ◌^◌, ◌-◌, ◌≡◌, ◌≢◌, refl, Bool, true, false, none, some, List, [], ◌∷◌, arith,
  get_or,
}
use grpc_p.Queue.Locking as Locking
use grpc_p.Queue.Locking.{LockingQueue, try_push}
use grpc_p.Queue.Stealing.{
  make, StealingQueue, no_queue, push, push_loop, push_round, pop_round, steal,
}
use grpc_p.Queue.Push.{IsValid}
use grpc_p.Queue.Pop.{steal_misses_last}

abbrev row : List ℕ → List ℕ → List ℕ → List (LockingQueue ℕ)
row a b c = record { queue = a } ∷ record { queue = b } ∷ record { queue = c } ∷ []

abbrev three : StealingQueue ℕ
three = record {
  queues = row (1 ∷ []) [] (2 ∷ 3 ∷ []);
  n_queues = 3;
  push_index = 4;
  pop_index = 1;
  in_push = 0;
  is_done = false;
}

three-IsValid : IsValid three
three-IsValid = omega arith

-- The first try of a round finds its queue locked.
abbrev second_try : ℕ → ℕ → Bool
second_try r i = elim i [ zero ↦ false | suc j ↦ true ]

-- Queue 4 % 3 is locked, so the thunk goes to the next.
push_runs :
    push second_try 1 7 three
    ≡ some (true, record three { queues = row (1 ∷ []) [] (2 ∷ 3 ∷ 7 ∷ []); push_index = 5 })
unfolding push push_loop push_round try_push
push_runs = refl

-- Queue 1 is empty, so the thunk comes from the next.
steal_runs :
    steal (λ i. true) three
    ≡ (some 2, record three { queues = row (1 ∷ []) [] (3 ∷ []); pop_index = 2 })
unfolding steal pop_round Locking.try_pop
steal_runs = refl

-- A thunk in the last of three queues, and the index about to wrap.
abbrev wrapping : StealingQueue ℕ
wrapping = record three { queues = row [] [] (9 ∷ []); pop_index = 2 ^ 32 - 1 }

wrapping_others : (k : ℕ) → k ≢ 2 → (get_or wrapping.queues k no_queue).queue ≡ []
wrapping_others zero h = refl
wrapping_others (suc zero) h = refl
wrapping_others (suc (suc zero)) h = absurd (h refl)
wrapping_others (suc (suc (suc k))) h = refl

steal_misses_last_example : (steal (λ i. true) wrapping).0 ≡ none
steal_misses_last_example =
    steal_misses_last (λ i. true) wrapping (omega arith) (omega arith) refl wrapping_others

-- Three inner queues; five pushes and four pops.
abbrev ops : List (Op ℕ)
ops = add 7 ∷ add 8 ∷ take ∷ add 9 ∷ take ∷ take ∷ add 10 ∷ add 11 ∷ take ∷ []

outputs-fifo_example : outputs (make 3) ops ≡ some (queue_outputs [] ops)
outputs-fifo_example = outputs-fifo 3 ops (omega arith) tt (omega arith)
