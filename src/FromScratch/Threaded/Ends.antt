-- ===== src/FromScratch/Threaded/Ends.antt =====
-- How the two threads end, in every schedule.
use grpc_p.Base.{
  ℕ, ◌<◌, ◌≤◌, ◌≡◌, ◌≢◌, refl, ap, subst, true, none, some, List, [], ◌∷◌, arith, get_elem?,
  get_elem?-lt,
}
use grpc_p.FromScratch.RunLoop.{
  head, Loop, blocked, null, task, new_loop, push_back, pop_front, finish,
}
use grpc_p.FromScratch.Senders.{Sender, Control, new_control, sync_wait_receiver, waited}
use grpc_p.FromScratch.Senders.Laws.{Completes, value}
use grpc_p.FromScratch.Threaded.{
  Main, calling, waiting, joining, finished, Worker, looping, executing, returned, State, main_step,
  worker_step, Step, Steps, init,
}
use grpc_p.FromScratch.Threaded.Trace.{
  Trace, Trace-Steps, Trace-next, Trace-last, main_moves, worker_moves, none_moves,
}

module _ {E : Type 0} (work : ℕ → Sender ℕ E) where
  module _ (op : ℕ) (v : ℕ) (own : op ≢ head) (completes : Completes (work op) (value v)) where
    loop1 : Loop
    loop1 = push_back op new_loop

    loop2 : Loop
    loop2 = (pop_front loop1).1

    idle : pop_front new_loop ≡ (blocked, new_loop)
    unfolding pop_front
    idle = refl

    first : pop_front loop1 ≡ (task op, loop2)
    unfolding loop1 loop2 push_back pop_front
    first = ground arith

    then_empty : pop_front loop2 ≡ (blocked, loop2)
    unfolding loop1 loop2 push_back pop_front
    then_empty = ground arith

    then_ends : pop_front (finish loop2) ≡ (null, finish loop2)
    unfolding loop1 loop2 push_back pop_front finish
    then_ends = ground arith

    then_loses : (q : ℕ) → q ≢ head → pop_front (push_back q loop2) ≡ (blocked, push_back q loop2)
    unfolding loop1 loop2 push_back pop_front
    then_loses q other = ground arith

    -- What `execute` leaves in the control block.
    told : Control ℕ E
    told = record { value = some v; ex = none; is_done = true }

    executed : work op (Control ℕ E → Control ℕ E) sync_wait_receiver new_control ≡ told
    unfolding sync_wait_receiver told
    executed = ap (λ f. f new_control) (completes (Control ℕ E → Control ℕ E) sync_wait_receiver)

    at : Loop → Control ℕ E → Main → Worker → List ℕ → State E
    at l c m w vs = record { loop = l; control = c; main = m; worker = w; values = vs }

    -- The states up to the return of the first `sync_wait`, and then to the end.
    waits : List ℕ → List (State E) → List (State E)
    waits todo rest =
        at new_loop new_control (calling (op ∷ todo)) looping []
        ∷ at loop1 new_control (waiting todo) looping []
        ∷ at loop2 new_control (waiting todo) (executing op) []
        ∷ at loop2 told (waiting todo) looping []
        ∷ at loop2 told (calling todo) looping (v ∷ [])
        ∷ rest

    ends : List (State E)
    ends =
        at (finish loop2) told joining looping (v ∷ [])
        ∷ at (finish loop2) told joining returned (v ∷ [])
        ∷ at (finish loop2) told finished returned (v ∷ [])
        ∷ []

    Trace-waits :
        (todo : List ℕ) (y : State E) (rest : List (State E))
        → main_step work (at loop2 told (calling todo) looping (v ∷ [])) ≡ some y
        → Trace work (y ∷ rest)
        → Trace work (waits todo (y ∷ rest))
    unfolding waits at main_step worker_step loop1 told waited
    Trace-waits todo y rest e line = main_moves work _ _ _ refl (rw idle) (
        worker_moves work _ _ _ refl (rw first) (
          worker_moves work _ _ _ refl (rw executed) (
            main_moves work _ _ _ refl (rw then_empty)
              (main_moves work _ _ _ e (rw then_empty) line))))

    Trace-ends : Trace work (waits [] ends)
    unfolding ends at main_step worker_step
    Trace-ends = Trace-waits [] _ _ refl (
        worker_moves work _ _ _ refl (rw then_ends)
          (main_moves work _ _ _ refl refl (none_moves work _ refl refl)))

    -- The state in which the second `sync_wait` waits.
    blocked_at : (q : ℕ) → List ℕ → State E
    blocked_at q todo = at (push_back q loop2) new_control (waiting todo) looping (v ∷ [])

    Trace-blocked :
        (q : ℕ) (todo : List ℕ) → q ≢ head → Trace work (waits (q ∷ todo) (blocked_at q todo ∷ []))
    unfolding blocked_at at main_step worker_step waited
    Trace-blocked q todo other =
        Trace-waits (q ∷ todo) _ _ refl (none_moves work _ refl (rw (then_loses q other)))

    -- One `sync_wait`, of an operation that completes with `v`: no schedule has more than seven steps,
    -- some thread can step as long as there have been fewer, and after seven the main thread has
    -- finished, and its `sync_wait` has returned `v`.
    pub one_wait_ends :
        {n : ℕ} {t : State E}
        → Steps work (init (op ∷ [])) n t
        → (n ≤ 7)
          × (n < 7 → (u : State E) × Step work t u)
          × (n ≡ 7 → (t.main ≡ finished) × (t.values ≡ v ∷ []))
    unfolding waits ends at
    one_wait_ends {n} {t} ss =
        let e : get_elem? (waits [] ends) n ≡ some t = Trace-Steps work _ _ Trace-ends ss in
        (
          omega (arith, get_elem?-lt (waits [] ends) n t e),
          λ small. Trace-next work (waits [] ends) n t Trace-ends e (omega (arith, small)),
          λ end.
              let e7 : get_elem? (waits [] ends) 7 ≡ some t =
                subst (λ k. get_elem? (waits [] ends) k ≡ some t) end e in
              let same : t ≡ at (finish loop2) told finished returned (v ∷ []) = cc in
              (ap (λ s. s.main) same, ap (λ s. s.values) same),
        )

    -- Two or more calls of `sync_wait`, the first of an operation that completes with `v`: no schedule has
    -- more than five steps, some thread can step as long as there have been fewer, and after five none
    -- can: the second `sync_wait` waits for ever.
    pub second_wait_blocks :
        (q : ℕ) (todo : List ℕ) {n : ℕ} {t : State E}
        → q ≢ head
        → Steps work (init (op ∷ q ∷ todo)) n t
        → (n ≤ 5)
          × (n < 5 → (u : State E) × Step work t u)
          × (n ≡ 5
              → (t.main ≡ waiting todo) × (t.values ≡ v ∷ []) × ((u : State E) → ¬ Step work t u))
    unfolding waits blocked_at at
    second_wait_blocks q todo {n} {t} other ss =
        let xs : List (State E) = waits (q ∷ todo) (blocked_at q todo ∷ []) in
        let e : get_elem? xs n ≡ some t = Trace-Steps work _ _ (Trace-blocked q todo other) ss in
        (
          omega (arith, get_elem?-lt xs n t e),
          λ small. Trace-next work xs n t (Trace-blocked q todo other) e (omega (arith, small)),
          λ end.
              let e5 : get_elem? xs 5 ≡ some t = subst (λ k. get_elem? xs k ≡ some t) end e in
              let same : t ≡ blocked_at q todo = cc in
              (
                ap (λ s. s.main) same,
                ap (λ s. s.values) same,
                λ u. Trace-last work xs n t u (Trace-blocked q todo other) e (omega (arith, end)),
              ),
        )
