-- ===== src/Context/Crew/Invariant.antt =====
-- What holds of the threads of a pool in every reachable state.
use grpc_p.Base.{ℕ, ◌+◌, ◌≡◌, ◌≢◌, refl, List, ◌++◌, arith, replicate}
use grpc_p.Base.Rows.{total, total-set, total-append, total-replicate, count, count-append}
use grpc_p.Queue.Threads.{
  Pc, idle, entered, leaving, refusing, popping, draining, testing, Shared, Move, start_push, leave,
  leave_refused, start_pop, take, give_up, start_drain, return,
}
use grpc_p.Queue.Threads as Threads
use grpc_p.Context.Crew.Defs.{
  shutdown, Duty, outside, turning, calling, in_thunk, done, Access, begin_push, inside, pushed,
  refused, begin_pop, popped, empty, begin_eject, ejected, Turn, call, back, next, finish, Crew,
  Step, access, go_on, Reach, start, later,
}

-- How often a worker has `a` among the thunks that it has yet to call.
abbrev pub in_hand : ℕ → Duty → ℕ
in_hand a (calling mode xs) = count a xs
in_hand a (in_thunk mode xs) = count a xs
in_hand a _ = 0

-- 1 for a worker whose `stop_and_eject` has returned.
abbrev pub has_left : Duty → ℕ
has_left (calling shutdown xs) = 1
has_left (in_thunk shutdown xs) = 1
has_left done = 1
has_left _ = 0

pub Access-Move :
    {sizes : List ℕ} {i : ℕ} {m m' : Shared} {d d' : Duty} {p p' : Pc}
    → Access sizes i m d p m' d' p'
    → Move m p m' p'
Access-Move (begin_push x h mv) = mv
Access-Move (inside h h' mv) = mv
Access-Move (pushed mv) = mv
Access-Move (refused mv) = mv
Access-Move (begin_pop answers h mv) = mv
Access-Move (popped mv e) = mv
Access-Move (empty mv) = mv
Access-Move (begin_eject answers h mv) = mv
Access-Move (ejected mv) = mv

-- Inside of an operation, nothing is handed out.
inside-same :
    {m m' : Shared} {p p' : Pc}
    → p' ≢ idle
    → Move m p m' p'
    → (m'.delivered ≡ m.delivered) × (m'.drains ≡ m.drains)
inside-same ne (return e) = absurd (ne refl)
inside-same ne mv = ground arith

popped-drains : {o j : ℕ} {m m' : Shared} → Move m (popping o j) m' idle → m'.drains ≡ m.drains
popped-drains (take h e) = refl
popped-drains (give_up h) = refl

Access-hand :
    {sizes : List ℕ} {i : ℕ} {m m' : Shared} {d d' : Duty} {p p' : Pc} (a : ℕ)
    → Access sizes i m d p m' d' p'
    → count a m'.delivered + in_hand a d ≡ count a m.delivered + in_hand a d'
Access-hand a (begin_push x h (start_push y)) = refl
Access-hand a (inside h h' mv) = ground (arith, inside-same h' mv)
Access-hand a (pushed leave) = refl
Access-hand a (refused leave_refused) = refl
Access-hand a (begin_pop answers h start_pop) = refl
Access-hand a (popped mv e) = rw e (omega arith)
Access-hand a (empty mv) = refl
Access-hand a (begin_eject answers h start_drain) = refl
Access-hand {m} a (ejected {got} (return e)) = omega (arith, count-append a got m.delivered)

Access-drains :
    {sizes : List ℕ} {i : ℕ} {m m' : Shared} {d d' : Duty} {p p' : Pc}
    → Access sizes i m d p m' d' p'
    → m'.drains + has_left d ≡ m.drains + has_left d'
Access-drains (begin_push x h (start_push y)) = refl
Access-drains (inside h h' mv) = ground (arith, inside-same h' mv)
Access-drains (pushed leave) = refl
Access-drains (refused leave_refused) = refl
Access-drains (begin_pop answers h start_pop) = refl
Access-drains (popped mv e) = omega (arith, popped-drains mv)
Access-drains (empty mv) = refl
Access-drains (begin_eject answers h start_drain) = refl
Access-drains (ejected (return e)) = omega arith

Turn-hand :
    {ran ran' : List ℕ} {d d' : Duty} (a : ℕ)
    → Turn ran d ran' d'
    → count a ran' + in_hand a d' ≡ count a ran + in_hand a d
Turn-hand a call = omega arith
Turn-hand a back = refl
Turn-hand a next = refl
Turn-hand a finish = refl

Turn-left : {ran ran' : List ℕ} {d d' : Duty} → Turn ran d ran' d' → has_left d ≡ has_left d'
Turn-left (call {mode}) = ground arith
Turn-left (back {mode}) = ground arith
Turn-left next = refl
Turn-left finish = refl

-- What holds in every reachable state.
pub record Inv (s : Crew) : Type 0 where
  pub called :
      (a : ℕ) → count a s.system.shared.delivered ≡ count a s.ran + total (in_hand a) s.duties
  pub left : s.system.shared.drains ≡ total has_left s.duties

Step-Inv : {sizes : List ℕ} {s t : Crew} → Step sizes s t → Inv s → Inv t
Step-Inv {s} (access i {d} {d'} e e' acc) inv = record {
  called =
      λ a. omega (arith, inv.called a, Access-hand a acc, total-set (in_hand a) s.duties i d d' e);
  left = omega (arith, inv.left, Access-drains acc, total-set has_left s.duties i d d' e);
}
Step-Inv {s} (go_on i {d} {d'} e e' t) inv = record {
  called = λ a. omega (arith, inv.called a, Turn-hand a t, total-set (in_hand a) s.duties i d d' e);
  left = omega (arith, inv.left, Turn-left t, total-set has_left s.duties i d d' e);
}

pub none_yet :
    (n_workers n_outside : ℕ) (w : Duty → ℕ) (d : Duty)
    → w d ≡ 0
    → w outside ≡ 0
    → total w (replicate n_workers d ++ replicate n_outside outside) ≡ 0
none_yet n_workers n_outside w d e e' = omega (
  arith,
  total-append w (replicate n_workers d) (replicate n_outside outside),
  total-replicate w n_workers d e,
  total-replicate w n_outside outside e',
)

module _ {sizes : List ℕ} {n_queues n_workers n_outside : ℕ} where
  pub Reach-Inv : {s : Crew} → Reach sizes n_queues n_workers n_outside s → Inv s
  Reach-Inv start = record {
    called = λ a. omega (arith, none_yet n_workers n_outside (in_hand a) turning refl refl);
    left = omega (arith, none_yet n_workers n_outside has_left turning refl refl);
  }
  Reach-Inv (later r st) = Step-Inv st (Reach-Inv r)

  -- The task queue of the pool is that of Queue/Threads.
  pub Reach-system :
      {s : Crew}
      → Reach sizes n_queues n_workers n_outside s
      → Threads.Reach n_queues (n_workers + n_outside) s.system
  Reach-system start = Threads.start
  Reach-system (later r (access i e e' acc)) =
      Threads.later (Reach-system r) (Threads.pick i e' (Access-Move acc))
  Reach-system (later r (go_on i e e' t)) = Reach-system r
