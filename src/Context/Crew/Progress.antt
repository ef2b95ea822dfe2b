-- ===== src/Context/Crew/Progress.antt =====
-- No thread is ever blocked: each is at rest, or has a step of its own.
use grpc_p.Base.{
  ℕ, ◌≤◌, ◌≡◌, ◌⊎◌, inl, inr, refl, true, some, List, [], ◌∷◌, arith, get_or, get_elem?, Bool-cases,
  Option-cases, dec_lt,
}
use grpc_p.Context.Worker.{NextStatus}
use grpc_p.Queue.Locking as Locking
use grpc_p.Queue.Locking.{LockingQueue, try_push}
use grpc_p.Queue.Stealing.{slot, no_queue}
use grpc_p.Queue.Threads.{
  Pc, idle, entered, choosing, trying, leaving, refusing, popping, draining, testing, Shared,
  see_done, see_live, choose, put, again, leave, leave_refused, start_pop, take, pass, give_up,
  start_drain, eject_one, end_pass, repeat, return,
}
use grpc_p.Context.Crew.Defs.{
  shutdown, looping, Duty, outside, turning, stealing, ejecting, calling, in_thunk, done, all_shut,
  Access, inside, pushed, refused, begin_pop, popped, empty, begin_eject, ejected, Turn, call, back,
  next, finish, Crew, Reach,
}
use grpc_p.Context.Crew.Fits.{Closing, free, Fits, Reach-AllFit}

-- What thread `i` can do next, by what the completion queues answer it: where all are shut down, it begins
-- no post and takes no thunk for itself.
pub data Next (sizes : List ℕ) (answers : ℕ → ℕ → NextStatus) (s : Crew) (i : ℕ) (d : Duty) (p : Pc)
    : Type 0 where
  accesses :
      {m' : Shared} {d' : Duty} {p' : Pc}
      → (acc : Access sizes i s.system.shared d p m' d' p')
      → (all_shut answers i sizes ≡ true → Closing acc)
      → Next sizes answers s i d p
  turns : {ran' : List ℕ} {d' : Duty} → p ≡ idle → Turn s.ran d ran' d' → Next sizes answers s i d p
  rests : p ≡ idle → (d ≡ outside) ⊎ (d ≡ done) → Next sizes answers s i d p

module _ {sizes : List ℕ} (answers : ℕ → ℕ → NextStatus) (s : Crew) (i : ℕ) where
  turning_goes_on : Next sizes answers s i turning idle
  turning_goes_on = elim (Bool-cases (all_shut answers i sizes)) [
    | inl all ↦ accesses (begin_eject answers all start_drain) (λ h. tt)
    | inr some_open ↦ accesses (begin_pop answers some_open start_pop) (λ h. cc (some_open, h))
  ]

  idle_goes_on : (d : Duty) → free d ≡ true → Next sizes answers s i d idle
  idle_goes_on outside f = rests refl (inl refl)
  idle_goes_on turning f = turning_goes_on
  idle_goes_on stealing f = cc
  idle_goes_on ejecting f = cc
  idle_goes_on (calling mode (x ∷ xs)) f = turns refl call
  idle_goes_on (calling looping []) f = turns refl next
  idle_goes_on (calling shutdown []) f = turns refl finish
  idle_goes_on (in_thunk mode xs) f = turns refl back
  idle_goes_on done f = rests refl (inr refl)

  trying_goes_on :
      (d : Duty) (x o j : ℕ)
      → j ≤ s.system.shared.n_queues
      → Next sizes answers s i d (trying x o j)
  unfolding try_push
  trying_goes_on d x o j h = elim (dec_lt j s.system.shared.n_queues) [
    | yes small ↦ accesses (inside (cc) (cc) (put small refl)) (λ h. tt)
    | no end ↦ accesses (inside (cc) (cc) (again (omega arith))) (λ h. tt)
  ]

  popping_goes_on :
      (o j : ℕ) → j ≤ s.system.shared.n_queues → Next sizes answers s i stealing (popping o j)
  popping_goes_on o j h = elim (dec_lt j s.system.shared.n_queues) [
    | yes small ↦
        elim (Option-cases (
          Locking.try_pop true
            (get_or s.system.shared.queues (slot o j s.system.shared.n_queues) no_queue))) [
              | inl e ↦ accesses (inside (cc) (cc) (pass true small e)) (λ h. tt)
              | inr ((x, q), e) ↦ accesses (popped (take small e) refl) (λ h. tt)
            ]
    | no end ↦ accesses (empty (give_up (omega arith))) (λ h. tt)
  ]

  ejecting_goes_on :
      (got : List ℕ) (j : ℕ)
      → j ≤ s.system.shared.n_queues
      → Next sizes answers s i ejecting (draining got j)
  ejecting_goes_on got j h = elim (dec_lt j s.system.shared.n_queues) [
    | yes small ↦ accesses (inside (cc) (cc) (eject_one small)) (λ h. tt)
    | no end ↦ accesses (inside (cc) (cc) (end_pass (omega arith))) (λ h. tt)
  ]

  testing_goes_on : (got : List ℕ) → Next sizes answers s i ejecting (testing got)
  testing_goes_on got = elim (dec_lt 0 s.system.shared.in_push) [
    | yes some_push ↦ accesses (inside (cc) (cc) (repeat some_push)) (λ h. tt)
    | no quiet ↦ accesses (ejected (return (omega arith))) (λ h. tt)
  ]

  Fits-Next : (d : Duty) (p : Pc) → Fits s.system.shared.n_queues d p → Next sizes answers s i d p
  Fits-Next d idle f = idle_goes_on d f
  Fits-Next d (entered x) f = elim (Bool-cases s.system.shared.is_done) [
    | inl e ↦ accesses (inside (cc) (cc) (see_done e)) (λ h. tt)
    | inr e ↦ accesses (inside (cc) (cc) (see_live e)) (λ h. tt)
  ]
  Fits-Next d (choosing x) f = accesses (inside (cc) (cc) choose) (λ h. tt)
  Fits-Next d (trying x o j) f = trying_goes_on d x o j f.1
  Fits-Next d (leaving x) f = accesses (pushed leave) (λ h. tt)
  Fits-Next d (refusing x) f = accesses (refused leave_refused) (λ h. tt)
  Fits-Next d (popping o j) f = rw (f.0) (popping_goes_on o j f.1)
  Fits-Next d (draining got j) f = rw (f.0) (ejecting_goes_on got j f.1)
  Fits-Next d (testing got) f = rw f (testing_goes_on got)

-- In every reachable state, whatever the completion queues would answer it, no thread is blocked: thread
-- `i` has a step of its own (an access to the task queue, a thunk to call or to return from, or the end
-- of its loop), or it is a worker that has returned or a thread outside of the pool between two posts. If
-- the queues would answer it that they are all shut down, that step begins no post and no `try_pop`.
pub Reach-Next :
    {sizes : List ℕ} {n_queues n_workers n_outside : ℕ} {s : Crew} (answers : ℕ → ℕ → NextStatus)
    (i : ℕ) {d : Duty} {p : Pc}
    → Reach sizes n_queues n_workers n_outside s
    → get_elem? s.duties i ≡ some d
    → get_elem? s.system.threads i ≡ some p
    → Next sizes answers s i d p
Reach-Next {s} answers i {d} {p} r h h' = Fits-Next answers s i d p (Reach-AllFit r i d p h h')
