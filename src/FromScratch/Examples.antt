-- ===== src/FromScratch/Examples.antt =====
-- The loop and the senders on the inputs of the source's examples.
use grpc_p.Base.{◌≡◌, refl, [], ◌∷◌, arith}
use grpc_p.FromScratch.RunLoop.{Loop, new_loop, push_back, finish, run, returned, push_all}
use grpc_p.FromScratch.RunLoop.Chain.{IsQueue, push_back-IsQueue}
use grpc_p.FromScratch.RunLoop.Fifo.{
  run-push_all, outputs, queue_outputs, outputs-queue_outputs, push, pop, new_loop-IsQueue,
}

run_of_two : run 3 (finish (push_all (4 ∷ 5 ∷ []) new_loop)) ≡ returned (4 ∷ 5 ∷ [])
run_of_two = run-push_all (4 ∷ 5 ∷ []) 3 (λ a. ground arith) (omega arith)

outputs-queue_outputs_example :
    outputs new_loop (push 4 ∷ push 5 ∷ pop ∷ push 4 ∷ pop ∷ [])
    ≡ queue_outputs [] (push 4 ∷ push 5 ∷ pop ∷ push 4 ∷ pop ∷ [])
outputs-queue_outputs_example =
    outputs-queue_outputs (push 4 ∷ push 5 ∷ pop ∷ push 4 ∷ pop ∷ []) [] new_loop new_loop-IsQueue
      (refl, (refl, (refl, tt)))

abbrev one_task : Loop
one_task = finish (push_back 4 new_loop)

one_task-IsQueue : IsQueue one_task (4 ∷ [])
unfolding finish
one_task-IsQueue =
    let q = push_back-IsQueue 4 new_loop [] new_loop-IsQueue refl in
    record { chain = q.chain; tail_last = q.tail_last; distinct = q.distinct }
