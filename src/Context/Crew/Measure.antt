-- ===== src/Context/Crew/Measure.antt =====
-- How many steps the threads of a pool may still take when nothing is posted any more.
use native.Mathlib.Nat.{mod-lt}
use grpc_p.Base.{
  true, ap, ℕ, zero, suc, ◌+◌, ◌-◌, ◌*◌, ◌<◌, ◌≡◌, ◌≢◌, refl, some, List, [], ◌∷◌, ◌++◌, arith, set,
  get_or, get_elem?, length, length-append,
}
use grpc_p.Queue.Locking as Locking
use grpc_p.Queue.Locking.{LockingQueue, eject}
use grpc_p.Queue.Content.{contents}
use grpc_p.Queue.Stealing.{slot, no_queue, signal_done}
use grpc_p.Queue.Threads.{
  Pc, idle, popping, draining, testing, Shared, Move, start_push, see_done, see_live, choose, put,
  miss, again, leave, leave_refused, start_pop, take, pass, give_up, start_drain, eject_one,
  end_pass, repeat, return,
}
use grpc_p.Queue.Threads.Invariant.{in_progress}
use grpc_p.Context.Crew.Defs.{
  shutdown, looping, Duty, turning, calling, in_thunk, Access, begin_push, inside, pushed, refused,
  begin_pop, popped, empty, begin_eject, ejected, Turn, call, back, next, finish, Crew,
}
use grpc_p.Context.Crew.Fits.{Closing}

length-contents-set :
    (qs : List (LockingQueue ℕ)) (i : ℕ) (q : LockingQueue ℕ)
    → i < length qs
    → length (contents (set qs i q)) + length (get_or qs i no_queue).queue
      ≡ length (contents qs) + length q.queue
length-contents-set [] i q h = elim h [ ]
length-contents-set (y ∷ qs) zero q h =
    omega (arith, length-append y.queue (contents qs), length-append q.queue (contents qs))
length-contents-set (y ∷ qs) (suc i) q h = omega (
  arith,
  length-append y.queue (contents qs),
  length-append y.queue (contents (set qs i q)),
  length-contents-set qs i q (omega arith),
)

-- How many steps a thread may still take, over `n` queues, besides two for each thunk that it ejects.
abbrev pub weight : ℕ → Duty → Pc → ℕ
weight n d (popping o j) = n - j + n + 6
weight n d (draining got j) = 2 * length got + 3 + (n - j)
weight n d (testing got) = 2 * length got + 2
weight n turning p = n + 4
weight n (calling looping xs) p = 2 * length xs + n + 5
weight n (calling shutdown xs) p = 2 * length xs + 1
weight n (in_thunk looping xs) p = 2 * length xs + n + 6
weight n (in_thunk shutdown xs) p = 2 * length xs + 2
weight n d p = 0

abbrev pub weights : ℕ → List Duty → List Pc → ℕ
weights n [] ps = 0
weights n (d ∷ ds) [] = 0
weights n (d ∷ ds) (p ∷ ps) = weight n d p + weights n ds ps

pub weights-set :
    (n : ℕ) (ds : List Duty) (ps : List Pc) (i : ℕ) (d d' : Duty) (p p' : Pc)
    → get_elem? ds i ≡ some d
    → get_elem? ps i ≡ some p
    → weights n (set ds i d') (set ps i p') + weight n d p ≡ weights n ds ps + weight n d' p'
weights-set n [] ps i d d' p p' e e' = cc
weights-set n (d0 ∷ ds) [] i d d' p p' e e' = cc
weights-set n (d0 ∷ ds) (p0 ∷ ps) zero d d' p p' e e' =
    let same_d : d0 ≡ d = cc in let same_p : p0 ≡ p = cc in rw (same_d, same_p) (omega arith)
weights-set n (d0 ∷ ds) (p0 ∷ ps) (suc i) d d' p p' e e' =
    omega (arith, weights-set n ds ps i d d' p p' e e')

pub weights-set_duty :
    (n : ℕ) (ds : List Duty) (ps : List Pc) (i : ℕ) (d d' : Duty) (p : Pc)
    → get_elem? ds i ≡ some d
    → get_elem? ps i ≡ some p
    → weights n (set ds i d') ps + weight n d p ≡ weights n ds ps + weight n d' p
weights-set_duty n [] ps i d d' p e e' = cc
weights-set_duty n (d0 ∷ ds) [] i d d' p e e' = cc
weights-set_duty n (d0 ∷ ds) (p0 ∷ ps) zero d d' p e e' =
    let same_d : d0 ≡ d = cc in let same_p : p0 ≡ p = cc in rw (same_d, same_p) (omega arith)
weights-set_duty n (d0 ∷ ds) (p0 ∷ ps) (suc i) d d' p e e' =
    omega (arith, weights-set_duty n ds ps i d d' p e e')

-- The thunks in the task queue count two each.
abbrev pub measure : Crew → ℕ
measure s =
    2 * length (contents s.system.shared.queues)
    + weights s.system.shared.n_queues s.duties s.system.threads

slot-lt : (o j : ℕ) (m : Shared) → 0 < m.n_queues → slot o j m.n_queues < m.n_queues
slot-lt o j m h = mod-lt _ h

taken-length :
    (m : Shared) (o j x : ℕ) {q : LockingQueue ℕ}
    → length m.queues ≡ m.n_queues
    → 0 < m.n_queues
    → Locking.try_pop true (get_or m.queues (slot o j m.n_queues) no_queue) ≡ some (x, q)
    → length (contents (set m.queues (slot o j m.n_queues) q)) + 1 ≡ length (contents m.queues)
unfolding Locking.try_pop
taken-length m o j x {q} sized some_queue e = ground (
  arith,
  length-contents-set m.queues (slot o j m.n_queues) q
      (omega (arith, sized, slot-lt o j m some_queue)),
)

popped-less :
    {o j x : ℕ} {m m' : Shared}
    → Move m (popping o j) m' idle
    → m'.delivered ≡ x ∷ m.delivered
    → length m.queues ≡ m.n_queues
    → 0 < m.n_queues
    → length (contents m'.queues) + 1 ≡ length (contents m.queues)
popped-less {o} {j} {m = m} (take {x} h e) d sized some_queue =
    taken-length m o j x sized some_queue e
popped-less (give_up h) d sized some_queue = absurd (omega (arith, ap length d))

ejected-length :
    (m : Shared) (j : ℕ) (got : List ℕ)
    → length m.queues ≡ m.n_queues
    → j < m.n_queues
    → length (got ++ (eject (get_or m.queues j no_queue)).0)
        + length (contents (set m.queues j (eject (get_or m.queues j no_queue)).1))
      ≡ length got + length (contents m.queues)
unfolding eject
ejected-length m j got sized h = omega (
  arith,
  length-append got (get_or m.queues j no_queue).queue,
  length-contents-set m.queues j no_queue (omega (arith, sized)),
)

inside-less :
    {m m' : Shared} {p p' : Pc} (d : Duty)
    → p ≢ idle
    → p' ≢ idle
    → Move m p m' p'
    → length m.queues ≡ m.n_queues
    → in_progress p ≡ 0
    → m.in_push ≡ 0
    → 2 * length (contents m'.queues) + weight m.n_queues d p'
      < 2 * length (contents m.queues) + weight m.n_queues d p
inside-less d ne ne' (start_push x) sized quiet none_in = absurd (ne refl)
inside-less d ne ne' start_pop sized quiet none_in = absurd (ne refl)
inside-less d ne ne' start_drain sized quiet none_in = absurd (ne refl)
inside-less d ne ne' leave sized quiet none_in = absurd (ne' refl)
inside-less d ne ne' leave_refused sized quiet none_in = absurd (ne' refl)
inside-less d ne ne' (take h e) sized quiet none_in = absurd (ne' refl)
inside-less d ne ne' (give_up e) sized quiet none_in = absurd (ne' refl)
inside-less d ne ne' (return e) sized quiet none_in = absurd (ne' refl)
inside-less d ne ne' (see_done e) sized quiet none_in = absurd (omega (arith, quiet))
inside-less d ne ne' (see_live e) sized quiet none_in = absurd (omega (arith, quiet))
inside-less d ne ne' choose sized quiet none_in = absurd (omega (arith, quiet))
inside-less d ne ne' (put h e) sized quiet none_in = absurd (omega (arith, quiet))
inside-less d ne ne' (miss h e) sized quiet none_in = absurd (omega (arith, quiet))
inside-less d ne ne' (again e) sized quiet none_in = absurd (omega (arith, quiet))
inside-less d ne ne' (pass b h e) sized quiet none_in = omega arith
inside-less {m} d ne ne' (eject_one {got} {i} h) sized quiet none_in =
    omega (arith, ejected-length m i got sized h)
inside-less d ne ne' (end_pass e) sized quiet none_in = omega arith
inside-less d ne ne' (repeat h) sized quiet none_in = absurd (omega (arith, none_in))

pub Access-less :
    {sizes : List ℕ} {i : ℕ} {m m' : Shared} {d d' : Duty} {p p' : Pc}
    (acc : Access sizes i m d p m' d' p')
    → Closing acc
    → length m.queues ≡ m.n_queues
    → 0 < m.n_queues
    → in_progress p ≡ 0
    → m.in_push ≡ 0
    → 2 * length (contents m'.queues) + weight m.n_queues d' p'
      < 2 * length (contents m.queues) + weight m.n_queues d p
unfolding signal_done
Access-less (begin_push x h mv) c sized some_queue quiet none_in = elim c [ ]
Access-less (inside {d} h h' mv) c sized some_queue quiet none_in =
    inside-less d h h' mv sized quiet none_in
Access-less (pushed mv) c sized some_queue quiet none_in = absurd (omega (arith, quiet))
Access-less (refused mv) c sized some_queue quiet none_in = absurd (omega (arith, quiet))
Access-less (begin_pop answers h mv) c sized some_queue quiet none_in = elim c [ ]
Access-less (popped mv e) c sized some_queue quiet none_in =
    omega (arith, popped-less mv e sized some_queue)
Access-less (empty mv) c sized some_queue quiet none_in = omega arith
Access-less (begin_eject answers h start_drain) c sized some_queue quiet none_in = omega arith
Access-less (ejected (return e)) c sized some_queue quiet none_in = omega arith

pub Turn-less :
    (n : ℕ) {ran ran' : List ℕ} {d d' : Duty}
    → Turn ran d ran' d'
    → weight n d' idle < weight n d idle
Turn-less n (call {mode}) = ground arith
Turn-less n (back {mode}) = ground arith
Turn-less n next = omega arith
Turn-less n finish = omega arith
