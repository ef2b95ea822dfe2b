-- ===== src/Context/Crew/Fits.antt =====
-- Where the threads of a pool may stand.
use grpc_p.Base.{
  ℕ, zero, suc, ◌+◌, ◌≤◌, ◌≡◌, ◌≢◌, refl, sym, subst, ℕ_discrete, Bool, true, false, some, List,
  ◌++◌, arith, replicate, get_elem?, get_elem?-set,
}
use grpc_p.Context.Crew.Invariant.{Access-Move}
use grpc_p.Queue.Stealing.{signal_done}
use grpc_p.Queue.Threads.{
  Pc, idle, entered, choosing, trying, leaving, refusing, popping, draining, testing, Shared, Move,
  start_push, see_done, see_live, choose, put, miss, again, leave, leave_refused, start_pop, take,
  pass, give_up, start_drain, eject_one, end_pass, repeat, return,
}
use grpc_p.Context.Crew.Defs.{
  Duty, outside, turning, stealing, ejecting, may_post, Access, begin_push, inside, pushed, refused,
  begin_pop, popped, empty, begin_eject, ejected, Turn, call, back, next, finish, Crew, Step,
  access, go_on, Reach, start, later,
}

-- A step that begins no post, of a worker that finds all its completion queues shut down.
abbrev pub Closing :
    {sizes : List ℕ} {i : ℕ} {m m' : Shared} {d d' : Duty} {p p' : Pc}
    → Access sizes i m d p m' d' p'
    → Type 0
Closing (begin_push x h mv) = ⊥
Closing (begin_pop answers h mv) = ⊥
Closing _ = Unit

-- Duties of a thread that is not in an operation of the task queue.
abbrev pub free : Duty → Bool
free stealing = false
free ejecting = false
free _ = true

-- Where a thread may stand that has a duty, over `n` queues.
abbrev pub Fits : ℕ → Duty → Pc → Type 0
Fits n d idle = free d ≡ true
Fits n d (entered x) = may_post d ≡ true
Fits n d (choosing x) = may_post d ≡ true
Fits n d (trying x o i) = (may_post d ≡ true) × (i ≤ n)
Fits n d (leaving x) = may_post d ≡ true
Fits n d (refusing x) = may_post d ≡ true
Fits n d (popping o i) = (d ≡ stealing) × (i ≤ n)
Fits n d (draining got i) = (d ≡ ejecting) × (i ≤ n)
Fits n d (testing got) = d ≡ ejecting

free-may_post : (d : Duty) → may_post d ≡ true → free d ≡ true
free-may_post d h = ground arith

pub Move-n_queues : {m m' : Shared} {p p' : Pc} → Move m p m' p' → m'.n_queues ≡ m.n_queues
unfolding signal_done
Move-n_queues (start_push x) = refl
Move-n_queues mv = ground arith

inside-Fits :
    {m m' : Shared} {p p' : Pc} (d : Duty)
    → p ≢ idle
    → p' ≢ idle
    → Move m p m' p'
    → Fits m.n_queues d p
    → Fits m.n_queues d p'
inside-Fits d ne ne' (start_push x) f = absurd (ne refl)
inside-Fits d ne ne' start_pop f = absurd (ne refl)
inside-Fits d ne ne' start_drain f = absurd (ne refl)
inside-Fits d ne ne' (leave) f = absurd (ne' refl)
inside-Fits d ne ne' (leave_refused) f = absurd (ne' refl)
inside-Fits d ne ne' (take h e) f = absurd (ne' refl)
inside-Fits d ne ne' (give_up e) f = absurd (ne' refl)
inside-Fits d ne ne' (return e) f = absurd (ne' refl)
inside-Fits d ne ne' (see_done e) f = f
inside-Fits d ne ne' (see_live e) f = f
inside-Fits d ne ne' choose f = (f, omega arith)
inside-Fits d ne ne' (put h e) f = f.0
inside-Fits d ne ne' (miss h e) f = (f.0, omega arith)
inside-Fits d ne ne' (again e) f = f.0
inside-Fits d ne ne' (pass b h e) f = (f.0, omega arith)
inside-Fits d ne ne' (eject_one h) f = (f.0, omega arith)
inside-Fits d ne ne' (end_pass e) f = f.0
inside-Fits d ne ne' (repeat h) f = (f, omega arith)

Access-Fits :
    {sizes : List ℕ} {i : ℕ} {m m' : Shared} {d d' : Duty} {p p' : Pc}
    → Access sizes i m d p m' d' p'
    → Fits m.n_queues d p
    → Fits m.n_queues d' p'
Access-Fits (begin_push x h mv) f = h
Access-Fits (inside {d} h h' mv) f = inside-Fits d h h' mv f
Access-Fits (pushed {d} mv) f = free-may_post d f
Access-Fits (refused {d} mv) f = free-may_post d f
Access-Fits (begin_pop answers h start_pop) f = (refl, omega arith)
Access-Fits (popped mv e) f = refl
Access-Fits (empty mv) f = refl
Access-Fits (begin_eject answers h start_drain) f = (refl, omega arith)
Access-Fits (ejected mv) f = refl

Turn-free : {ran ran' : List ℕ} {d d' : Duty} → Turn ran d ran' d' → free d' ≡ true
Turn-free call = refl
Turn-free back = refl
Turn-free next = refl
Turn-free finish = refl

-- Every thread stands where it may.
abbrev pub AllFit : Crew → Type 0
AllFit s =
    (i : ℕ) (d : Duty) (p : Pc)
    → get_elem? s.duties i ≡ some d
    → get_elem? s.system.threads i ≡ some p
    → Fits s.system.shared.n_queues d p

Step-AllFit : {sizes : List ℕ} {s t : Crew} → Step sizes s t → AllFit s → AllFit t
Step-AllFit {s} (access k {d = d0} {d' = d1} {p = p0} {p' = p1} e e' acc) all i d p h h' =
    subst (λ n. Fits n d p) (sym (Move-n_queues (Access-Move acc)))
      (elim (ℕ_discrete k i) [
        | yes here ↦
            let same_d : d1 ≡ d = ground (arith, get_elem?-set s.duties k i d0 d1 e) in
            let same_p : p1 ≡ p = ground (arith, get_elem?-set s.system.threads k i p0 p1 e') in
            rw (← same_d, ← same_p) (Access-Fits acc (all k d0 p0 e e'))
        | no other ↦
            all i d p (ground (arith, get_elem?-set s.duties k i d0 d1 e))
              (ground (arith, get_elem?-set s.system.threads k i p0 p1 e'))
      ])
Step-AllFit {s} (go_on k {d = d0} {d' = d1} e e' t) all i d p h h' = elim (ℕ_discrete k i) [
  | yes here ↦
      let same_d : d1 ≡ d = ground (arith, get_elem?-set s.duties k i d0 d1 e) in
      let same_p : idle ≡ p = ground arith in rw (← same_d, ← same_p) (Turn-free t)
  | no other ↦ all i d p (ground (arith, get_elem?-set s.duties k i d0 d1 e)) h'
]

get_elem?-replicate {ℓ} :
    {A : Type ℓ} (n i : ℕ) (a b : A) → get_elem? (replicate n a) i ≡ some b → b ≡ a
get_elem?-replicate zero i a b e = cc
get_elem?-replicate (suc n) zero a b e = cc
get_elem?-replicate (suc n) (suc i) a b e = get_elem?-replicate n i a b e

first_free :
    (n k i : ℕ) (d : Duty)
    → get_elem? (replicate n turning ++ replicate k outside) i ≡ some d
    → free d ≡ true
first_free zero k i d e = rw (get_elem?-replicate k i outside d e) refl
first_free (suc n) k zero d e = ground arith
first_free (suc n) k (suc i) d e = first_free n k i d e

pub Reach-AllFit :
    {sizes : List ℕ} {n_queues n_workers n_outside : ℕ} {s : Crew}
    → Reach sizes n_queues n_workers n_outside s
    → AllFit s
Reach-AllFit {n_queues} {n_workers} {n_outside} start = λ i d p h h'.
    rw (get_elem?-replicate (n_workers + n_outside) i idle p h')
      (first_free n_workers n_outside i d h)
Reach-AllFit (later r st) = Step-AllFit st (Reach-AllFit r)
