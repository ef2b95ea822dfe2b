-- ===== src/Server/Handler/Examples.antt =====
-- A queue that takes two requests, which two workers serve at the same time. The logic throws on the
-- second, which is answered first; the queue is then shut down.
use grpc_p.Base.{
  ℕ, zero, suc, ◌+◌, ◌≤◌, ◌<◌, ◌≡◌, refl, Bool, true, false, some, List, [], ◌∷◌, ◌++◌, map, length,
  get_elem?, arith,
}
use grpc_p.Base.Rows.{total, count}
use grpc_p.Server.Handler.{
  LogicResult, returned, threw, World, complete, asked, new_handler, mark, finish_with, delete_this,
  reply,
}
use grpc_p.Server.Handler.Steps.{
  Task, bound, System, Reach, start, later, dequeues, proceeds, advance,
}
use grpc_p.Server.Handler.Invariant.{
  live, waiting, deletes, replies, Given, reply_to, tag_of, busy, is_bound, due,
}
use grpc_p.Server.Handler.Safety.{Reach-no_fault, Reach-replied, Reach-all_freed}

abbrev double : ℕ → LogicResult ℕ
double zero = threw
double (suc n) = returned (n + suc n + 1)

abbrev Runs : System ℕ ℕ → Type 0
Runs s = Reach double 0 s

-- The second request has been answered, and the first handler is between its new handler and its flag.
abbrev Midway : Type 0
Midway =
    (s : System ℕ ℕ) × Runs s
    × (s.requests ≡ (1, 0) ∷ (0, 5) ∷ [])
    × (s.tasks ≡ record { tag = 0; phase = bound 5 } ∷ [])

answered_out_of_order : Midway
unfolding new_handler mark finish_with reply advance
answered_out_of_order =
    let r1 : Runs _ = later start (dequeues 0 true 5 (omega arith)) in
    let r2 : Runs _ = later r1 (proceeds [] [] _ refl refl) in
    let r3 : Runs _ = later r2 (dequeues 1 true 0 (omega arith)) in
    let r4 : Runs _ = later r3 (proceeds [] _ _ refl refl) in
    let r5 : Runs _ = later r4 (proceeds [] _ _ refl refl) in
    let r6 : Runs _ = later r5 (proceeds [] _ _ refl refl) in (_, r6, refl, refl)

abbrev midway : System ℕ ℕ
midway = answered_out_of_order.0

abbrev Finished : Type 0
Finished =
    (s : System ℕ ℕ) × Runs s
    × ((tag : ℕ) → asked tag s.world.calls ≡ count tag s.answered)
    × (s.tasks ≡ [])
    × (length s.world.objects ≡ 3)

finished : Finished
unfolding new_handler mark finish_with delete_this reply advance answered_out_of_order
finished =
    let r7 : Runs _ = later answered_out_of_order.1 (proceeds [] [] _ refl refl) in
    let r8 : Runs _ = later r7 (proceeds [] [] _ refl refl) in
    let r9 : Runs _ = later r8 (dequeues 1 true 0 (omega arith)) in
    let r10 : Runs _ = later r9 (dequeues 0 false 0 (omega arith)) in
    let r11 : Runs _ = later r10 (dequeues 2 false 0 (omega arith)) in
    let r12 : Runs _ = later r11 (proceeds [] _ _ refl refl) in
    let r13 : Runs _ = later r12 (proceeds [] _ _ refl refl) in
    let r14 : Runs _ = later r13 (proceeds [] _ _ refl refl) in
    (_, r14, λ tag. ground arith, refl, refl)

abbrev after_all : System ℕ ℕ
after_all = finished.0

Reach-no_fault_example :
    ((tag : ℕ)
      → asked tag midway.world.calls + total (busy double 0 tag) midway.tasks
        ≡ count tag midway.answered + live (get_elem? midway.world.objects tag))
    × ((xs ys : List (Task ℕ)) (t : Task ℕ)
        → midway.tasks ≡ xs ++ t ∷ ys
        → (next : World ℕ × List (Task ℕ)) × (advance double 0 t midway.world ≡ some next))
    × ((tag : ℕ) (is_okay : Bool) (request : ℕ)
        → count tag midway.answered < asked tag midway.world.calls
        → (w' : World ℕ) × (complete 0 tag is_okay (double request) midway.world ≡ some w'))
Reach-no_fault_example = Reach-no_fault double 0 answered_out_of_order.1

Reach-replied_example :
    ((weight : Given double 0 → ℕ)
      → total weight (replies midway.world.calls) + total (due double 0 weight) midway.tasks
        ≡ total weight (map (reply_to double 0) midway.requests))
    × ((tag : ℕ) → count tag (map (tag_of double 0) midway.requests) ≤ 1)
    × (total waiting midway.world.objects + midway.refused
        ≡ 1 + total (is_bound double 0) midway.tasks)
Reach-replied_example = Reach-replied double 0 answered_out_of_order.1

Reach-all_freed_example :
    ((tag : ℕ) → tag < length after_all.world.objects → deletes tag after_all.world.calls ≡ 1)
    × (length after_all.world.objects ≡ 1 + length after_all.requests)
    × (after_all.refused ≡ 1)
Reach-all_freed_example = Reach-all_freed double 0 finished.1 finished.2 finished.3
