-- ===== src/Queue/Bag/Examples.antt =====
-- The refinement at a history in which a lock is taken, and the queue is closed.
use mathlib.Core.Option
use grpc_p.Base.{none, ℕ, zero, suc, ◌≡◌, refl, Bool, true, false, some, List, [], ◌∷◌, arith}
use grpc_p.Queue.Stealing.{
  StealingQueue, make, push, steal, stop_and_eject, push_loop, push_round, drain_loop, pop_round,
}
use grpc_p.Queue.Locking as Locking
use grpc_p.Queue.Bag.{
  Op, submit, fetch, close, Answer, perform, submitted, fetched, closed, perform_all, AllAllowed,
  empty, view,
}
use grpc_p.Queue.Bag.Refines.{perform_all-AllAllowed}

-- The first try of each round finds its queue locked.
abbrev second_try : ℕ → ℕ → Bool
second_try r i = elim i [ zero ↦ false | suc j ↦ true ]

abbrev history : List (Op ℕ)
history =
    submit second_try 1 7
    ∷ submit second_try 1 8
    ∷ fetch (λ k. true)
    ∷ close
    ∷ submit second_try 1 9
    ∷ fetch (λ k. true)
    ∷ []

perform_all-AllAllowed_example :
    (answers : List (Answer ℕ)) × (after : StealingQueue ℕ) × (perform_all history (make 3)
      ≡ some (answers, after))
    × AllAllowed (record { bag = empty; is_closed = false }) history answers (view after)
perform_all-AllAllowed_example =
    perform_all-AllAllowed 3 history (omega arith) (omega arith) (omega arith) (
      (0, 1, omega arith, omega arith, refl),
      ((0, 1, omega arith, omega arith, refl), ((0, 1, omega arith, omega arith, refl), tt)),
    )

-- The answers, which can be followed in the source.
history_answers :
    Option.map (λ (r : List (Answer ℕ) × StealingQueue ℕ). r.0) (perform_all history (make 3))
    ≡ some (
        submitted true
        ∷ submitted true
        ∷ fetched (some 7)
        ∷ closed (8 ∷ [])
        ∷ submitted false
        ∷ fetched none
        ∷ [])
unfolding perform_all perform make push steal stop_and_eject push_loop push_round Locking.try_push
    drain_loop pop_round Locking.try_pop Locking.eject
history_answers = refl
