-- ===== src/Context/Crew/Ends.antt =====
-- When all completion queues are shut down and nothing is posted any more, the pool comes to rest.
use grpc_p.Base.{
  true, inl, inr, ◌⊎◌, subst, sym, ℕ, ◌+◌, ◌*◌, ◌^◌, ◌≤◌, ◌<◌, ◌≡◌, ◌≢◌, refl, some, List, arith,
  set, get_elem?, length,
}
use grpc_p.Base.Rows.{total, total-set}
use grpc_p.Queue.Content.{contents}
use grpc_p.Queue.Threads.{Pc, idle, Shared, Move, start_push}
use grpc_p.Queue.Threads.Invariant as Queues
use grpc_p.Queue.Threads.Invariant.{in_progress}
use grpc_p.Context.Crew.Defs.{
  Duty, outside, done, all_shut, Access, begin_push, inside, pushed, refused, begin_pop, popped,
  empty, begin_eject, ejected, Crew, Step, access, go_on, Reach, later,
}
use grpc_p.Context.Crew.Invariant.{Access-Move, Reach-system}
use grpc_p.Context.Crew.Fits.{Closing, Move-n_queues}
use grpc_p.Context.Crew.Progress.{Next, accesses, turns, rests, Reach-Next}
use grpc_p.Context.Worker.{NextStatus}
use grpc_p.Context.Crew.Measure.{
  weights, weights-set, weights-set_duty, measure, Access-less, Turn-less,
}

-- A schedule of `k` such steps.
abbrev pub Closes : {sizes : List ℕ} {s t : Crew} → Step sizes s t → Type 0
Closes (access i e e' acc) = Closing acc
Closes (go_on i e e' t) = Unit

pub data Schedule (sizes : List ℕ) (s : Crew) : ℕ → Crew → Type 0 where
  here : {k : ℕ} → k ≡ 0 → Schedule sizes s k s
  longer :
      {k k' : ℕ} {t u : Crew}
      → Schedule sizes s k t
      → (st : Step sizes t u) → Closes st
      → k' ≡ k + 1
      → Schedule sizes s k' u

-- No post is under way.
abbrev pub NoPosts : Crew → Type 0
NoPosts s = total in_progress s.system.threads ≡ 0

Move-quiet :
    {m m' : Shared} {p p' : Pc} → p ≢ idle → Move m p m' p' → in_progress p ≡ 0 → in_progress p' ≡ 0
Move-quiet ne (start_push x) quiet = absurd (ne refl)
Move-quiet ne mv quiet = ground arith

Access-quiet :
    {sizes : List ℕ} {i : ℕ} {m m' : Shared} {d d' : Duty} {p p' : Pc}
    (acc : Access sizes i m d p m' d' p')
    → Closing acc
    → in_progress p ≡ 0
    → in_progress p' ≡ 0
Access-quiet (begin_push x h mv) c quiet = elim c [ ]
Access-quiet (inside h h' mv) c quiet = Move-quiet h mv quiet
Access-quiet (pushed mv) c quiet = refl
Access-quiet (refused mv) c quiet = refl
Access-quiet (begin_pop answers h mv) c quiet = elim c [ ]
Access-quiet (popped mv e) c quiet = refl
Access-quiet (empty mv) c quiet = refl
Access-quiet (begin_eject answers h mv) c quiet = refl
Access-quiet (ejected mv) c quiet = refl

Step-less :
    {sizes : List ℕ} {s t : Crew} (st : Step sizes s t)
    → Closes st
    → Queues.Inv s.system.shared s.system.threads
    → NoPosts s
    → (measure t < measure s) × NoPosts t
Step-less {s} (access i {d} {d'} {p} {p'} {m'} e e' acc) c inv none_in =
    let quiet : in_progress p ≡ 0 =
      omega (arith, none_in, total-set in_progress s.system.threads i p idle e') in
    (
      subst
          (λ n.
            2 * length (contents m'.queues)
              + weights n (set s.duties i d') (set s.system.threads i p')
            < measure s)
          (sym (Move-n_queues (Access-Move acc)))
          (omega (
            arith,
            Access-less acc c inv.sized inv.some_queue quiet (omega (arith, inv.counted, none_in)),
            weights-set s.system.shared.n_queues s.duties s.system.threads i d d' p p' e e',
          )),
      omega (
        arith,
        none_in,
        total-set in_progress s.system.threads i p p' e',
        Access-quiet acc c quiet,
      ),
    )
Step-less {s} (go_on i {d} {d'} e e' t) c inv none_in = (
  omega (
    arith,
    Turn-less s.system.shared.n_queues t,
    weights-set_duty s.system.shared.n_queues s.duties s.system.threads i d d' idle e e',
  ),
  none_in,
)

record Bounded (sizes : List ℕ) (n_queues n_workers n_outside : ℕ) (s : Crew) (k : ℕ) (t : Crew)
    : Type 0 where
  reached : Reach sizes n_queues n_workers n_outside t
  none_in : NoPosts t
  bound : k + measure t ≤ measure s

-- What a thread does that is not at rest, once all completion queues are shut down.
abbrev pub GoesOn : List ℕ → (t : Crew) → Duty → Pc → Type 0
GoesOn sizes t d p =
    ((p ≡ idle) × ((d ≡ outside) ⊎ (d ≡ done))) ⊎ ((u : Crew) × (st : Step sizes t u) × Closes st)

Next-GoesOn :
    {sizes : List ℕ} {answers : ℕ → ℕ → NextStatus} {t : Crew} (i : ℕ) {d : Duty} {p : Pc}
    → all_shut answers i sizes ≡ true
    → get_elem? t.duties i ≡ some d
    → get_elem? t.system.threads i ≡ some p
    → Next sizes answers t i d p
    → GoesOn sizes t d p
Next-GoesOn i shut e e' (accesses acc closes) = inr (_, access i e e' acc, closes shut)
Next-GoesOn i shut e e' (turns at t) = inr (_, go_on i e (rw (← at) e') t, tt)
Next-GoesOn i shut e e' (rests at resting) = inl (at, resting)

module _ {sizes : List ℕ} {n_queues n_workers n_outside : ℕ} (some_queue : 0 < n_queues)
    (few : n_workers + n_outside < 2 ^ 32) where
  Schedule-Bounded :
      {s t : Crew} {k : ℕ}
      → Reach sizes n_queues n_workers n_outside s
      → NoPosts s
      → Schedule sizes s k t
      → Bounded sizes n_queues n_workers n_outside s k t
  Schedule-Bounded r quiet (here e) = record {
    reached = r;
    none_in = quiet;
    bound = omega (arith, e);
  }
  Schedule-Bounded r quiet (longer sch st c e) =
      let b = Schedule-Bounded r quiet sch in
      let (less, quiet') =
        Step-less st c (Queues.Reach-Inv some_queue few (Reach-system b.reached)) b.none_in in
      record {
        reached = later b.reached st;
        none_in = quiet';
        bound = omega (arith, b.bound, less);
      }

  -- With at least one queue and fewer than 2^32 threads: from a reachable state in which no post is under
  -- way, as long as no post is begun and each worker finds all its completion queues shut down, no
  -- schedule has more steps than `measure` says; and it can be continued by such a step as long as some
  -- thread is neither a worker that has returned nor a thread outside of the pool between two posts.
  pub Schedule-ends :
      {s t : Crew} {k : ℕ} (answers : ℕ → ℕ → NextStatus)
      → ((i : ℕ) → all_shut answers i sizes ≡ true)
      → Reach sizes n_queues n_workers n_outside s
      → NoPosts s
      → Schedule sizes s k t
      → (k ≤ measure s)
        × ((i : ℕ) (d : Duty) (p : Pc)
            → get_elem? t.duties i ≡ some d
            → get_elem? t.system.threads i ≡ some p
            → GoesOn sizes t d p)
  Schedule-ends answers shut r quiet sch =
      let b = Schedule-Bounded r quiet sch in
      (
        omega (arith, b.bound),
        λ i d p e e'. Next-GoesOn i (shut i) e e' (Reach-Next answers i b.reached e e'),
      )
