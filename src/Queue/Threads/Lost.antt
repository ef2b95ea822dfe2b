-- ===== src/Queue/Threads/Lost.antt =====
-- A thunk that a push has accepted may be left in the queue for good: `stop_and_eject` passes over a
-- queue before the push, and loads `in_push_` after it.
use grpc_p.Base.{
  ℕ, zero, suc, ◌≤◌, ◌<◌, ◌≡◌, refl, ap, subst, true, List, [], ◌∷◌, arith, set, get_or, replicate,
}
use grpc_p.Base.Rows.{count, one_if_self}
use grpc_p.Queue.Locking.{LockingQueue, try_push, eject}
use grpc_p.Queue.Content.{contents}
use grpc_p.Queue.Stealing.{no_queue, make, signal_done}
use grpc_p.Queue.Threads.{
  idle, choosing, draining, System, pick, Reach, start, later, start_push, see_live, choose, put,
  leave, start_drain, eject_one, end_pass, return,
}
use grpc_p.Queue.Threads.Safety.{Reach-at_rest}

set-replicate {ℓ} : {A : Type ℓ} (n i : ℕ) (a : A) → set (replicate n a) i a ≡ replicate n a
set-replicate zero i a = refl
set-replicate (suc n) zero a = refl
set-replicate (suc n) (suc i) a = ap (◌∷◌ a) (set-replicate n i a)

get_or-replicate {ℓ} : {A : Type ℓ} (n i : ℕ) (a : A) → get_or (replicate n a) i a ≡ a
get_or-replicate zero i a = refl
get_or-replicate (suc n) zero a = refl
get_or-replicate (suc n) (suc i) a = get_or-replicate n i a

module _ (n x : ℕ) where
  -- Thread 0 has seen the flag unset, and then thread 1 has set it and emptied the first `i` queues.
  abbrev overtaken : List (LockingQueue ℕ) → List ℕ → ℕ → System
  overtaken qs got i = record {
    shared = record {
      mem = record {
        queues = qs;
        n_queues = n;
        push_index = 0;
        pop_index = 0;
        in_push = 1;
        is_done = true;
      };
      submitted = x ∷ [];
      accepted = [];
      refused = [];
      delivered = [];
      drains = 0;
    };
    threads = choosing x ∷ draining got i ∷ [];
  }

  overtaken_start : Reach n 2 (overtaken (replicate n no_queue) [] 0)
  unfolding make signal_done
  overtaken_start =
      later (later (later start (pick 0 refl (start_push x))) (pick 0 refl (see_live refl)))
        (pick 1 refl start_drain)

  overtaken_pass : (i : ℕ) → i ≤ n → Reach n 2 (overtaken (replicate n no_queue) [] i)
  unfolding eject
  overtaken_pass zero h = overtaken_start
  overtaken_pass (suc i) h =
      subst (λ qs. Reach n 2 (overtaken qs [] (suc i))) (set-replicate n i no_queue)
        (subst
          (λ (q : LockingQueue ℕ).
            Reach n 2 (overtaken (set (replicate n no_queue) i no_queue) q.queue (suc i)))
          (get_or-replicate n i no_queue)
          (later (overtaken_pass i (omega arith)) (pick 1 refl (eject_one h))))

  -- The push goes on, and is over before the drainer looks at `in_push_`.
  lost_run :
      0 < n
      → (s : System) × Reach n 2 s
        × (s.threads ≡ idle ∷ idle ∷ [])
        × (s.shared.drains ≡ 1)
        × (s.shared.accepted ≡ x ∷ [])
        × (s.shared.delivered ≡ [])
  unfolding try_push
  lost_run some_queue = (
    _,
    later
        (later
          (later
            (later (later (overtaken_pass n (omega arith)) (pick 1 refl (end_pass refl)))
              (pick 0 refl choose))
            (pick 0 refl (put some_queue refl)))
          (pick 0 refl leave))
        (pick 1 refl (return refl)),
    refl,
    refl,
    refl,
    refl,
  )

  -- For any number of queues but none and for any thunk there is a reachable state of two threads
  -- in which both have come to rest, `stop_and_eject` has returned, the one push has returned true,
  -- and its thunk has not been delivered but stands in a queue.
  pub lost_thunk :
      0 < n
      → (s : System) × Reach n 2 s
        × (s.threads ≡ idle ∷ idle ∷ [])
        × (s.shared.drains ≡ 1)
        × (s.shared.accepted ≡ x ∷ [])
        × (s.shared.delivered ≡ [])
        × (count x (contents s.shared.queues) ≡ 1)
  lost_thunk some_queue =
      let (s, r, rest, once, in_, out) = lost_run some_queue in
      let balance = Reach-at_rest 2 some_queue (omega arith) r rest x in
      (
        s,
        r,
        rest,
        once,
        in_,
        out,
        omega (arith, balance, ap (count x) in_, ap (count x) out, one_if_self x),
      )
