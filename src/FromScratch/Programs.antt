-- ===== src/FromScratch/Programs.antt =====
-- examples/from-scratch.cpp: the example programs that need no second thread.
use mathlib.Core.Option
use grpc_p.Base.{ℕ, ◌<◌, ◌≡◌, ◌≢◌, refl, ◌∙◌, none, some, [], ◌∷◌, ◌++◌, if◌then◌else◌, ◌==◌, arith}
use grpc_p.FromScratch.RunLoop.{head, new_loop, finish, run, push_all}
use grpc_p.FromScratch.RunLoop.Chain.{Distinct}
use grpc_p.FromScratch.Senders.{just, then_, Waited, returned, sync_wait}
use grpc_p.FromScratch.Scheduled.{Output, printing_receiver, printed, printed-run}

module _ (E : Type 0) where
  -- The `value()` of what `sync_wait` returned is printed; the exception of an empty one is not caught.
  after_wait : Waited ℕ E → Output → Output
  after_wait (returned (some v)) out = Option.map (λ shown. shown ++ v ∷ []) out
  after_wait _ out = none

  -- The numbers that example_1_inline prints, for the function `f` and the value `v`.
  unfoldable pub example_1_inline : (v : ℕ) → (f : ℕ → ℕ) → Output
  unfolding after_wait
  example_1_inline v f =
      let op1 = just {E = E} v (Output → Output) printing_receiver in
      let op2 = then_ (just {E = E} v) f (Output → Output) printing_receiver in
      after_wait (sync_wait (then_ (just v) f)) (op2 (op1 (some [])))

  -- The numbers that example_2_scheduler prints, with its two operations at addresses `op4` and `op5`, and
  -- `fuel` rounds of the loop.
  unfoldable pub example_2_scheduler : (op4 op5 fuel : ℕ) → Output
  example_2_scheduler op4 op5 fuel =
      printed E (λ op _. if op == op4 then 42 else 43)
        (run fuel (finish (push_all (op4 ∷ op5 ∷ []) new_loop)))

  example_1_inline_lem : (v : ℕ) (f : ℕ → ℕ) → example_1_inline v f ≡ some (v ∷ f v ∷ f v ∷ [])
  unfolding example_1_inline just then_ sync_wait printing_receiver
  example_1_inline_lem v f = refl

  -- Two operations with addresses of their own: the loop ends, and the first prints before the second.
  example_2_scheduler_lem :
      (op4 op5 fuel : ℕ)
      → Distinct (head ∷ op4 ∷ op5 ∷ [])
      → op4 ≢ op5
      → 2 < fuel
      → example_2_scheduler op4 op5 fuel ≡ some (42 ∷ 43 ∷ [])
  unfolding example_2_scheduler
  example_2_scheduler_lem op4 op5 fuel once ne enough =
      printed-run E (λ op _. if op == op4 then 42 else 43) (op4 ∷ op5 ∷ []) fuel once enough
      ∙ ground arith
