-- ===== src/Context/Worker/Drains.antt =====
-- A worker that is told to shut down runs all that is left in the task queue.
use mathlib.Core.List.Perm
use mathlib.Core.List.{Perm}
use grpc_p.Base.{
  ℕ, zero, suc, ◌+◌, ◌-◌, ◌^◌, ◌<◌, ◌≡◌, inl, inr, Bool, true, false, Option, none, some, refl, ◌∙◌,
  List, ◌++◌, arith, length, ℕ_discrete, if◌then◌else◌, ◌==◌, Bool-cases, subst,
}
use grpc_p.Base.Rows.{total}
use grpc_p.Queue.Stealing.{StealingQueue, steal, stop_and_eject}
use grpc_p.Queue.Content.{contents}
use grpc_p.Queue.Push.{IsValid}
use grpc_p.Queue.Pop.{steal-Steals, steal-IsValid, Steals}
use grpc_p.Queue.Drain.{Drained, stop_and_eject-Drained}
use grpc_p.Context.Worker.{
  NextStatus, run_all_queues, no_counts, Turn, turn, thunk_list, ran_then, run_one_thread,
}
use grpc_p.Context.Worker.Leaves.{AllShut, turn-leaves-sleeps}

module _ {ℓ} {T : Type ℓ} where
  -- An iteration runs what it takes out of the queue, and takes nothing when it leaves.
  record Kept (q : StealingQueue T) (t : Turn T) : Type ℓ where
    same : Perm (contents q.queues) (thunk_list t.ran ++ contents t.queue.queues)
    valid : IsValid t.queue
    quiet : t.queue.in_push ≡ q.in_push
    stays : t.leaves ≡ true → t.ran ≡ none

  stolen :
      (q : StealingQueue T) (r : Option T × StealingQueue T)
      → Steals q r
      → Perm (contents q.queues) (thunk_list r.0 ++ contents r.1.queues)
  unfolding thunk_list
  stolen q (none, q') e = rw e (Perm.refl _)
  stolen q (some f, q') (p, size) = p

  either :
      {q : StealingQueue T} (b : Bool) (x y : Turn T)
      → Kept q x
      → Kept q y
      → Kept q (if b then x else y)
  either true x y kx ky = kx
  either false x y kx ky = ky

  turn-Kept :
      (locks : ℕ → Bool) (answers : ℕ → ℕ → NextStatus) (t : ℕ) (sizes : List ℕ)
      (q : StealingQueue T)
      → IsValid q
      → Kept q (turn locks answers t sizes q)
  unfolding turn thunk_list
  turn-Kept locks answers t sizes q v =
      let k = run_all_queues answers t sizes no_counts in
      either (k.shutdown_cq == k.total_cq) _ _
        (record { same = Perm.refl _; valid = v; quiet = refl; stays = λ e. refl })
        (record {
          same = stolen q (steal locks q) (steal-Steals locks q);
          valid = (steal-IsValid locks q v).0;
          quiet = (steal-IsValid locks q v).1;
          stays = λ e. cc e;
        })

  -- A worker has returned, with what was in `q` run.
  abbrev pub RanAll : StealingQueue T → Option (List T × StealingQueue T) → Type ℓ
  RanAll q o =
      (ran : List T) × (q' : StealingQueue T) × (o ≡ some (ran, q'))
      × Perm (contents q.queues) ran
      × Drained q'

  leaves_now :
      (q : StealingQueue T) (t : Turn T) (fuel : ℕ) (other : Option (List T × StealingQueue T))
      → Kept q t
      → q.in_push ≡ 0
      → t.leaves ≡ true
      → RanAll q (if t.leaves then stop_and_eject (suc fuel) t.queue else other)
  unfolding thunk_list
  leaves_now q t fuel other k quiet out =
      let (q', e, drained) = stop_and_eject-Drained fuel t.queue k.valid (k.quiet ∙ quiet) in
      let same : Perm (contents q.queues) (contents t.queue.queues) = rw (k.stays out) at k.same in
      (contents t.queue.queues, q', rw out e, same, drained)

  goes_on :
      (q : StealingQueue T) (t : Turn T) (other rest : Option (List T × StealingQueue T))
      → Kept q t
      → t.leaves ≡ false
      → RanAll t.queue rest
      → RanAll q (if t.leaves then other else ran_then (thunk_list t.ran) rest)
  unfolding ran_then
  goes_on q t other rest k on (ran, q', e, p, drained) = (
    thunk_list t.ran ++ ran,
    q',
    rw (on, e) refl,
    Perm.trans k.same (Perm.append_left (thunk_list t.ran) p),
    drained,
  )

  -- An iteration that does not leave is not yet the one in which all queues are shut.
  not_now :
      (locks : ℕ → Bool) (answers : ℕ → ℕ → ℕ → NextStatus) (t : ℕ) (sizes : List ℕ) (r d : ℕ)
      (q : StealingQueue T)
      → t + total (λ n. n) sizes < 2 ^ 32
      → length sizes + 1 < 2 ^ 32
      → AllShut (answers (r + d)) sizes
      → (turn locks (answers r) t sizes q).leaves ≡ false
      → 0 < d
  not_now locks answers t sizes r d q near few shut on = elim (ℕ_discrete d 0) [
    | yes now ↦ cc (
      on,
      (turn-leaves-sleeps locks (answers r) t sizes q near few).0.1
          (subst (λ n. AllShut (answers n) sizes) (omega arith) shut),
    )
    | no wait ↦ omega arith
  ]

  -- On a well-formed task queue with no push in progress, where the worker's number and the number
  -- of queues fit 32 bits together and so does the number of servers: if all completion queues
  -- answer, in some iteration within the fuel, that they have been shut down, the worker returns.
  -- It has then run each thunk that was in the task queue, as often as it was there, and no other,
  -- and the task queue is empty and done.
  pub run_one_thread-Drained :
      (locks : ℕ → ℕ → Bool) (answers : ℕ → ℕ → ℕ → NextStatus) (t : ℕ) (sizes : List ℕ)
      (fuel r d : ℕ) (q : StealingQueue T)
      → IsValid q
      → q.in_push ≡ 0
      → t + total (λ n. n) sizes < 2 ^ 32
      → length sizes + 1 < 2 ^ 32
      → d < fuel
      → AllShut (answers (r + d)) sizes
      → RanAll q (run_one_thread locks answers t sizes fuel r q)
  unfolding run_one_thread
  run_one_thread-Drained locks answers t sizes zero r d q v quiet near few in_time shut =
      absurd (omega arith)
  run_one_thread-Drained locks answers t sizes (suc fuel) r d q v quiet near few in_time shut =
      let it = turn (locks r) (answers r) t sizes q in
      let k = turn-Kept (locks r) (answers r) t sizes q v in
      elim (Bool-cases it.leaves) [
        | inl out ↦ leaves_now q it fuel _ k quiet out
        | inr on ↦ goes_on q it _ _ k on (
            run_one_thread-Drained locks answers t sizes fuel (suc r) (d - 1) it.queue k.valid
              (k.quiet ∙ quiet) near few (omega (arith, later on))
              (subst (λ n. AllShut (answers n) sizes) (omega (arith, later on)) shut))
      ]
    where
      later : (turn (locks r) (answers r) t sizes q).leaves ≡ false → 0 < d
      later = not_now (locks r) answers t sizes r d q near few shut
