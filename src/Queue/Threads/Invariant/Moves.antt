-- ===== src/Queue/Threads/Invariant/Moves.antt =====
-- A move of thread `i` keeps each field of the invariant.
use native.Mathlib.Nat.{mod-lt}
use grpc_p.Base.{
  ℕ, zero, suc, ◌+◌, ◌^◌, ◌≤◌, ◌<◌, ◌≡◌, refl, true, some, List, [], ◌∷◌, ◌++◌, arith, length,
  length-set, get_or, set, get_elem?,
}
use grpc_p.Base.Rows.{total, total-set, total_mono, total-le-length, one_if, count, count-append}
use grpc_p.Queue.Locking as Locking
use grpc_p.Queue.Locking.{LockingQueue, try_push, eject}
use grpc_p.Queue.Content.{contents}
use grpc_p.Queue.Stealing.{u32, slot, no_queue, signal_done}
use grpc_p.Queue.Threads.{
  Pc, idle, Shared, Move, start_push, see_live, put, leave, leave_refused, take, start_drain,
  eject_one, return,
}
use grpc_p.Queue.Threads.Invariant.Defs.{
  in_progress, adding, stopping, held, ejected, unreported, Inv,
}

count-set :
    (a : ℕ) (qs : List (LockingQueue ℕ)) (i : ℕ) (q : LockingQueue ℕ)
    → i < length qs
    → count a (contents (set qs i q)) + count a (get_or qs i no_queue).queue
      ≡ count a (contents qs) + count a q.queue
count-set a [] i q h = elim h [ ]
count-set a (y ∷ qs) zero q h =
    omega (arith, count-append a q.queue (contents qs), count-append a y.queue (contents qs))
count-set a (y ∷ qs) (suc i) q h = omega (
  arith,
  count-append a y.queue (contents qs),
  count-append a y.queue (contents (set qs i q)),
  count-set a qs i q (omega arith),
)

in_progress-le : (p : Pc) → in_progress p ≤ 1
in_progress-le p = ground arith

adding-le : (p : Pc) → adding p ≤ in_progress p
adding-le p = ground arith

-- The three changes of one queue, by counts.
count-try_push :
    (a x : ℕ) (y : LockingQueue ℕ) {q : LockingQueue ℕ}
    → try_push true x y ≡ some q
    → count a q.queue ≡ count a y.queue + one_if a x
unfolding try_push
count-try_push a x y e = ground (arith, count-append a y.queue (x ∷ []))

count-try_pop :
    (a x : ℕ) (y : LockingQueue ℕ) {q : LockingQueue ℕ}
    → Locking.try_pop true y ≡ some (x, q)
    → count a y.queue ≡ one_if a x + count a q.queue
unfolding Locking.try_pop
count-try_pop a x y e = ground arith

slot-lt : (o i : ℕ) (m : Shared) → 0 < m.n_queues → slot o i m.n_queues < m.n_queues
slot-lt o i m h = mod-lt (u32 (o + i)) h

-- How each sum changes as thread `i` goes from `p` to `p'`.
module _ {m : Shared} {ps : List Pc} (inv : Inv m ps) (i : ℕ) where
  record Mover (p p' : Pc) : Type 0 where
    progress :
        total in_progress (set ps i p') + in_progress p ≡ total in_progress ps + in_progress p'
    add : total adding (set ps i p') + adding p ≡ total adding ps + adding p'
    stop : total stopping (set ps i p') + stopping p ≡ total stopping ps + stopping p'
    hold : (a : ℕ) → total (held a) (set ps i p') + held a p ≡ total (held a) ps + held a p'
    eject :
        (a : ℕ)
        → total (ejected a) (set ps i p') + ejected a p ≡ total (ejected a) ps + ejected a p'
    report :
        (a : ℕ)
        → total (unreported a) (set ps i p') + unreported a p
          ≡ total (unreported a) ps + unreported a p'
    few : total in_progress ps < 2 ^ 32
    few' : total in_progress (set ps i p') < 2 ^ 32
    fewer : total adding ps ≤ total in_progress ps
    size : length (set ps i p') ≡ length ps

  mover : (p p' : Pc) → get_elem? ps i ≡ some p → Mover p p'
  mover p p' e = record {
    progress = total-set in_progress ps i p p' e;
    add = total-set adding ps i p p' e;
    stop = total-set stopping ps i p p' e;
    hold = λ a. total-set (held a) ps i p p' e;
    eject = λ a. total-set (ejected a) ps i p p' e;
    report = λ a. total-set (unreported a) ps i p p' e;
    few = omega (arith, total-le-length in_progress in_progress-le ps, inv.few);
    few' = omega (
      arith,
      total-le-length in_progress in_progress-le (set ps i p'),
      inv.few,
      length-set ps i p',
    );
    fewer = total_mono adding in_progress adding-le ps;
    size = length-set ps i p';
  }

  slot-in : (o j : ℕ) → slot o j m.n_queues < length m.queues
  slot-in o j = omega (arith, inv.sized, slot-lt o j m inv.some_queue)

  put-count :
      (a x o j : ℕ) {q : LockingQueue ℕ}
      → try_push true x (get_or m.queues (slot o j m.n_queues) no_queue) ≡ some q
      → count a (contents (set m.queues (slot o j m.n_queues) q))
        ≡ count a (contents m.queues) + one_if a x
  put-count a x o j {q} e = omega (
    arith,
    count-set a m.queues (slot o j m.n_queues) q (slot-in o j),
    count-try_push a x (get_or m.queues (slot o j m.n_queues) no_queue) e,
  )

  take-count :
      (a x o j : ℕ) {q : LockingQueue ℕ}
      → Locking.try_pop true (get_or m.queues (slot o j m.n_queues) no_queue) ≡ some (x, q)
      → count a (contents m.queues)
        ≡ count a (contents (set m.queues (slot o j m.n_queues) q)) + one_if a x
  take-count a x o j {q} e = omega (
    arith,
    count-set a m.queues (slot o j m.n_queues) q (slot-in o j),
    count-try_pop a x (get_or m.queues (slot o j m.n_queues) no_queue) e,
  )

  eject-count :
      (a j : ℕ) (got : List ℕ)
      → j < m.n_queues
      → count a (got ++ (eject (get_or m.queues j no_queue)).0)
          + count a (contents (set m.queues j (eject (get_or m.queues j no_queue)).1))
        ≡ count a got + count a (contents m.queues)
  unfolding Locking.eject
  eject-count a j got h = omega (
    arith,
    count-append a got (get_or m.queues j no_queue).queue,
    count-set a m.queues j no_queue (omega (arith, inv.sized)),
  )

  Move-sized :
      {p p' : Pc} {m' : Shared}
      → Move m p m' p'
      → (length m'.queues ≡ m'.n_queues) × (m'.n_queues ≡ m.n_queues)
  unfolding signal_done
  Move-sized (put {o} {i = j} {q} h e) =
      ground (arith, inv.sized, length-set m.queues (slot o j m.n_queues) q)
  Move-sized (take {o} {i = j} {q} h e) =
      ground (arith, inv.sized, length-set m.queues (slot o j m.n_queues) q)
  Move-sized (eject_one {i = j} h) =
      ground (arith, inv.sized, length-set m.queues j (eject (get_or m.queues j no_queue)).1)
  Move-sized _ = ground (arith, inv.sized)

  Move-counted :
      {p p' : Pc} {m' : Shared}
      → Move m p m' p'
      → Mover p p'
      → m'.in_push ≡ total in_progress (set ps i p')
  unfolding signal_done
  Move-counted (start_push x) f = omega (arith, inv.counted, f.few')
  Move-counted leave f = omega (arith, inv.counted, f.progress, f.few)
  Move-counted leave_refused f = omega (arith, inv.counted, f.progress, f.few)
  Move-counted mv f = ground (arith, inv.counted)

  Move-stopped :
      {p p' : Pc} {m' : Shared}
      → Move m p m' p'
      → Mover p p'
      → 0 < total stopping (set ps i p') + m'.drains
      → m'.is_done ≡ true
  unfolding signal_done
  Move-stopped start_drain f h = refl
  Move-stopped (return e) f h = ground (arith, inv.stopped, f.stop)
  Move-stopped mv f h = ground (arith, inv.stopped, f.stop)

  Move-shut :
      {p p' : Pc} {m' : Shared}
      → Move m p m' p'
      → Mover p p'
      → 0 < m'.drains
      → total adding (set ps i p') ≡ 0
  unfolding signal_done
  Move-shut (see_live e) f h = ground (arith, inv.stopped, inv.shut, f.add)
  Move-shut (return e) f h = ground (arith, inv.counted, f.add, f.fewer)
  Move-shut mv f h = ground (arith, inv.shut, f.add)

  Move-kept :
      {p p' : Pc} {m' : Shared}
      → Move m p m' p'
      → Mover p p'
      → (a : ℕ)
      → count a m'.submitted
        ≡ count a m'.refused
          + count a m'.delivered
          + count a (contents m'.queues)
          + total (held a) (set ps i p')
  unfolding signal_done
  Move-kept (put {x} {o} {i = j} h e) f a = omega (arith, inv.kept a, f.hold a, put-count a x o j e)
  Move-kept (take {o} {i = j} {x} h e) f a =
      omega (arith, inv.kept a, f.hold a, take-count a x o j e)
  Move-kept (eject_one {got} {i = j} h) f a =
      omega (arith, inv.kept a, f.hold a, eject-count a j got h)
  Move-kept (return {got} e) f a =
      omega (arith, inv.kept a, f.hold a, count-append a got m.delivered)
  Move-kept mv f a = ground (arith, inv.kept a, f.hold a)

  Move-reported :
      {p p' : Pc} {m' : Shared}
      → Move m p m' p'
      → Mover p p'
      → (a : ℕ)
      → count a m'.accepted + total (unreported a) (set ps i p')
        ≡ count a m'.delivered + count a (contents m'.queues) + total (ejected a) (set ps i p')
  unfolding signal_done
  Move-reported (put {x} {o} {i = j} h e) f a =
      omega (arith, inv.reported a, f.eject a, f.report a, put-count a x o j e)
  Move-reported (take {o} {i = j} {x} h e) f a =
      omega (arith, inv.reported a, f.eject a, f.report a, take-count a x o j e)
  Move-reported (eject_one {got} {i = j} h) f a =
      omega (arith, inv.reported a, f.eject a, f.report a, eject-count a j got h)
  Move-reported (return {got} e) f a =
      omega (arith, inv.reported a, f.eject a, f.report a, count-append a got m.delivered)
  Move-reported mv f a = ground (arith, inv.reported a, f.eject a, f.report a)

  pub Move-Inv :
      {p p' : Pc} {m' : Shared} → get_elem? ps i ≡ some p → Move m p m' p' → Inv m' (set ps i p')
  Move-Inv {p} {p'} e mv = record {
    few = omega (arith, inv.few, f.size);
    some_queue = omega (arith, inv.some_queue, (Move-sized mv).1);
    sized = (Move-sized mv).0;
    counted = Move-counted mv f;
    stopped = Move-stopped mv f;
    shut = Move-shut mv f;
    kept = Move-kept mv f;
    reported = Move-reported mv f;
  }
    where
      f : Mover p p'
      f = mover p p' e

  -- Once a `stop_and_eject` has returned, no thread is on its way to push.
  not-adding : {p : Pc} → get_elem? ps i ≡ some p → 0 < m.drains → adding p ≡ 0
  not-adding {p} e over = omega (arith, inv.shut over, total-set adding ps i p idle e)

  pub Move-accepted :
      {p p' : Pc} {m' : Shared}
      → get_elem? ps i ≡ some p
      → 0 < m.drains
      → Move m p m' p'
      → m'.accepted ≡ m.accepted
  Move-accepted e over leave = absurd (omega (arith, not-adding e over))
  Move-accepted e over mv = ground arith

  pub Move-contents :
      {p p' : Pc} {m' : Shared}
      → get_elem? ps i ≡ some p
      → 0 < m.drains
      → Move m p m' p'
      → (a : ℕ) → count a (contents m'.queues) ≤ count a (contents m.queues)
  unfolding signal_done
  Move-contents e over (put h q) a = absurd (omega (arith, not-adding e over))
  Move-contents e over (take {o} {i = j} {x} h q) a = omega (arith, take-count a x o j q)
  Move-contents e over (eject_one {got} {i = j} h) a =
      omega
        (arith, eject-count a j got h, count-append a got (eject (get_or m.queues j no_queue)).0)
  Move-contents e over mv a = ground arith
