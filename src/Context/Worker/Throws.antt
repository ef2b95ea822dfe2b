-- ===== src/Context/Worker/Throws.antt =====
-- execution_context.cpp: run_one_thread_ with thunks that may throw. In the loop the handler calls
-- `std::terminate`, and after the loop the exception leaves the thread's function, which does the same.
use mathlib.Core.Option
use mathlib.Core.List.{append-nil, Perm}
use grpc_p.Base.{
  ℕ, zero, suc, ◌+◌, ◌^◌, ◌<◌, ◌≡◌, refl, ap, ◌∙◌, Bool, true, false, Option, none, some, List, [],
  ◌∷◌, ◌++◌, length, if◌then◌else◌, Bool-cases, inl, inr,
}
use grpc_p.Base.Rows.{total}
use grpc_p.Queue.Stealing.{StealingQueue, stop_and_eject}
use grpc_p.Queue.Content.{contents}
use grpc_p.Queue.Push.{IsValid}
use grpc_p.Queue.Drain.{Drained}
use grpc_p.Context.Worker.{NextStatus, turn, thunk_list, ran_then, run_one_thread}
use grpc_p.Context.Worker.Leaves.{AllShut}
use grpc_p.Context.Worker.Drains.{run_one_thread-Drained}

-- How a worker ends: it returns, and leaves the task queue, or it ends the program. The thunks are those
-- called, in order, the one that threw included.
pub data Ended {ℓ} (T : Type ℓ) : Type ℓ where
  returned : (called : List T) → StealingQueue T → Ended T
  terminated : (called : List T) → Ended T

module _ {ℓ} {T : Type ℓ} (throws : T → Bool) where
  unfoldable pub after_call : T → Ended T → Ended T
  after_call t (returned called q) = returned (t ∷ called) q
  after_call t (terminated called) = terminated (t ∷ called)

  -- `thunk()` for each thunk of a list, and then what the worker does next.
  unfoldable pub call_then : List T → Option (Ended T) → Option (Ended T)
  call_then [] next = next
  call_then (t ∷ ts) next =
      if throws t then some (terminated (t ∷ [])) else Option.map (after_call t) (call_then ts next)

  -- The end of `run_one_thread_`.
  unfoldable pub call_ejected : Option (List T × StealingQueue T) → Option (Ended T)
  call_ejected none = none
  call_ejected (some (thunks, q)) = call_then thunks (some (returned [] q))

  -- `run_one_thread_`, for `fuel` iterations at most.
  unfoldable pub run_throwing :
      (locks : ℕ → ℕ → Bool)
      → (answers : ℕ → ℕ → ℕ → NextStatus) → (thread_number : ℕ) → (sizes : List ℕ) → (fuel r : ℕ)
      → StealingQueue T
      → Option (Ended T)
  unfolding call_then call_ejected
  run_throwing locks answers thread_number sizes zero r q = none
  run_throwing locks answers thread_number sizes (suc fuel) r q =
      let t = turn (locks r) (answers r) thread_number sizes q in
      let rest : Option (Ended T) =
        run_throwing locks answers thread_number sizes fuel (suc r) t.queue in
      if t.leaves
      then call_ejected (stop_and_eject (suc fuel) t.queue)
      else call_then (thunk_list t.ran) rest

  -- The thunks of a run, called up to the first that throws.
  cut : List T → StealingQueue T → Ended T
  cut [] q = returned [] q
  cut (t ∷ ts) q = if throws t then terminated (t ∷ []) else after_call t (cut ts q)

  call_then-cut :
      (ts us : List T) (q : StealingQueue T)
      → call_then ts (some (cut us q)) ≡ some (cut (ts ++ us) q)
  unfolding call_then cut
  call_then-cut [] us q = refl
  call_then-cut (t ∷ ts) us q = elim (Bool-cases (throws t)) [
    | inl h ↦ rw h
    | inr h ↦ rw (h, call_then-cut ts us q)
  ]

  ran_then-some :
      (ts : List T) (o : Option (List T × StealingQueue T)) (ran : List T) (q : StealingQueue T)
      → ran_then ts o ≡ some (ran, q)
      → (us : List T) × (o ≡ some (us, q)) × (ran ≡ ts ++ us)
  unfolding ran_then
  ran_then-some ts none ran q e = cc
  ran_then-some ts (some (us, q')) ran q e = (us, cc, cc)

  -- A worker of thunks that may throw calls what a worker of thunks that do not throw calls, up to the
  -- first that throws.
  run_throwing-cut :
      (locks : ℕ → ℕ → Bool) (answers : ℕ → ℕ → ℕ → NextStatus) (t : ℕ) (sizes : List ℕ)
      (fuel r : ℕ) (q : StealingQueue T) (ran : List T) (q' : StealingQueue T)
      → run_one_thread locks answers t sizes fuel r q ≡ some (ran, q')
      → run_throwing locks answers t sizes fuel r q ≡ some (cut ran q')
  unfolding run_throwing run_one_thread call_ejected cut
  run_throwing-cut locks answers t sizes zero r q ran q' e = cc
  run_throwing-cut locks answers t sizes (suc fuel) r q ran q' e =
      let it = turn (locks r) (answers r) t sizes q in
      elim (Bool-cases it.leaves) [
        | inl out ↦
            let e' : stop_and_eject (suc fuel) it.queue ≡ some (ran, q') = rw out at e in
            rw (out, e') (call_then-cut ran [] q' ∙ ap (λ ts. some (cut ts q')) (append-nil ran))
        | inr on ↦
            let e' : ran_then (thunk_list it.ran)
                  (run_one_thread locks answers t sizes fuel (suc r) it.queue)
                ≡ some (ran, q') =
              rw on at e in
            let (us, rest, split) = ran_then-some _ _ ran q' e' in
            rw (on, run_throwing-cut locks answers t sizes fuel (suc r) it.queue us q' rest, split)
              (call_then-cut (thunk_list it.ran) us q')
      ]

  abbrev pub NoneThrow : List T → Type 0
  NoneThrow [] = Unit
  NoneThrow (t ∷ ts) = (throws t ≡ false) × NoneThrow ts

  -- How a run of the thunks `ran` ends.
  abbrev Calls : List T → StealingQueue T → Ended T → Type ℓ
  Calls ran q (returned called q') = (called ≡ ran) × (q' ≡ q) × NoneThrow ran
  Calls ran q (terminated called) =
      (before : List T) × (t : T) × (after : List T) × (called ≡ before ++ t ∷ [])
      × (ran ≡ before ++ t ∷ after)
      × (throws t ≡ true)
      × NoneThrow before

  after_call-Calls :
      (t : T) (ran : List T) (q : StealingQueue T) (e : Ended T)
      → throws t ≡ false
      → Calls ran q e
      → Calls (t ∷ ran) q (after_call t e)
  unfolding after_call
  after_call-Calls t ran q (returned called q') h (c, s, n) = (ap (◌∷◌ t) c, s, (h, n))
  after_call-Calls t ran q (terminated called) h (before, u, after, c, s, w, n) =
      (t ∷ before, u, after, ap (◌∷◌ t) c, ap (◌∷◌ t) s, w, (h, n))

  cut-Calls : (ran : List T) (q : StealingQueue T) → Calls ran q (cut ran q)
  unfolding cut
  cut-Calls [] q = (refl, refl, tt)
  cut-Calls (t ∷ ran) q = elim (Bool-cases (throws t)) [
    | inl h ↦ rw h ([], t, ran, refl, refl, h, tt)
    | inr h ↦ rw h (after_call-Calls t ran q (cut ran q) h (cut-Calls ran q))
  ]

  -- How a worker ends that has found all queues shut.
  abbrev pub Ends : StealingQueue T → Ended T → Type ℓ
  Ends q (returned called q') = Perm (contents q.queues) called × NoneThrow called × Drained q'
  Ends q (terminated called) =
      (before : List T) × (t : T) × (after : List T) × (called ≡ before ++ t ∷ [])
      × Perm (contents q.queues) (before ++ t ∷ after)
      × (throws t ≡ true)
      × NoneThrow before

  Calls-Ends :
      (q q' : StealingQueue T) (ran : List T) (e : Ended T)
      → Perm (contents q.queues) ran
      → Drained q'
      → Calls ran q' e
      → Ends q e
  Calls-Ends q q' ran (returned called q'') p drained (c, s, n) = (rw c p, rw c n, rw s drained)
  Calls-Ends q q' ran (terminated called) p drained (before, t, after, c, s, w, n) =
      (before, t, after, c, rw (← s) p, w, n)

  -- Under the conditions of a worker that drains its queue (a well-formed task queue with no push in
  -- progress, numbers that fit, and all queues shut in some iteration within the fuel), with thunks that
  -- may throw: the worker returns or ends the program. If it returns, it has called each thunk that was
  -- in the task queue, none has thrown, and the queue is empty and done. If it ends the program, the
  -- thunk called last is the only one called that throws, and each call was of a thunk of the queue.
  pub run_throwing-Ends :
      (locks : ℕ → ℕ → Bool) (answers : ℕ → ℕ → ℕ → NextStatus) (t : ℕ) (sizes : List ℕ)
      (fuel r d : ℕ) (q : StealingQueue T)
      → IsValid q
      → q.in_push ≡ 0
      → t + total (λ n. n) sizes < 2 ^ 32
      → length sizes + 1 < 2 ^ 32
      → d < fuel
      → AllShut (answers (r + d)) sizes
      → (e : Ended T) × (run_throwing locks answers t sizes fuel r q ≡ some e) × Ends q e
  run_throwing-Ends locks answers t sizes fuel r d q v quiet near few in_time shut =
      let (ran, q', e, p, drained) =
        run_one_thread-Drained locks answers t sizes fuel r d q v quiet near few in_time shut in
      (
        cut ran q',
        run_throwing-cut locks answers t sizes fuel r q ran q' e,
        Calls-Ends q q' ran (cut ran q') p drained (cut-Calls ran q'),
      )
