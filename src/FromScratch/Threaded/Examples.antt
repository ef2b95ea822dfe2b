-- ===== src/FromScratch/Threaded/Examples.antt =====
-- The sender of example_3_threaded_execution, and two waits for it.
use grpc_p.Base.{ℕ, ◌<◌, ◌≤◌, ◌≡◌, ◌≢◌, refl, List, [], ◌∷◌}
use grpc_p.FromScratch.RunLoop.{head, pop_front, push_back, finish}
use grpc_p.FromScratch.Senders.{Sender, then_, then_receiver, waited, sync_wait_receiver}
use grpc_p.FromScratch.Senders.Laws.{Completes, value}
use grpc_p.FromScratch.Scheduled.{scheduled}
use grpc_p.FromScratch.Threaded.{
  State, Step, Steps, by_main, by_worker, worker_step, here, after, init, main_step, example_sender,
  waiting, finished,
}
use grpc_p.FromScratch.Threaded.Ends.{one_wait_ends, second_wait_blocks}

abbrev work : ℕ → Sender ℕ ℕ
work op = example_sender

works : Completes (work 3) (value 43)
unfolding example_sender scheduled then_ then_receiver
works W r = refl

three : ◌≢◌ {A = ℕ} 3 head
three e = cc

four : ◌≢◌ {A = ℕ} 4 head
four e = cc

-- A whole run.
abbrev Run : ℕ → List ℕ → Type 0
Run n todo = (t : State ℕ) × Steps work (init todo) n t

four_steps : (todo : List ℕ) → Run 4 (3 ∷ todo)
unfolding main_step worker_step pop_front push_back waited sync_wait_receiver example_sender
    scheduled then_ then_receiver
four_steps todo = (
  _,
  after
      (after (after (after (here refl) (by_main refl) refl) (by_worker refl) refl) (by_worker refl)
        refl)
      (by_main refl) refl,
)

seven_steps : Run 7 (3 ∷ [])
unfolding four_steps main_step worker_step pop_front push_back waited sync_wait_receiver
    example_sender scheduled then_ then_receiver finish
seven_steps = (
  _,
  after (after (after (four_steps []).1 (by_main refl) refl) (by_worker refl) refl) (by_main refl)
      refl,
)

five_steps : Run 5 (3 ∷ 4 ∷ [])
unfolding four_steps main_step worker_step pop_front push_back waited sync_wait_receiver
    example_sender scheduled then_ then_receiver
five_steps = (_, after (four_steps (4 ∷ [])).1 (by_main refl) refl)

one_wait_ends_example :
    (7 ≤ 7)
    × (7 < 7 → (u : State ℕ) × Step work seven_steps.0 u)
    × (◌≡◌ {A = ℕ} 7 7 → (seven_steps.0.main ≡ finished) × (seven_steps.0.values ≡ 43 ∷ []))
one_wait_ends_example = one_wait_ends work 3 43 three works seven_steps.1

second_wait_blocks_example :
    (5 ≤ 5)
    × (5 < 5 → (u : State ℕ) × Step work five_steps.0 u)
    × (◌≡◌ {A = ℕ} 5 5
        → (five_steps.0.main ≡ waiting [])
          × (five_steps.0.values ≡ 43 ∷ [])
          × ((u : State ℕ) → ¬ Step work five_steps.0 u))
second_wait_blocks_example = second_wait_blocks work 3 43 three works 4 [] four five_steps.1
