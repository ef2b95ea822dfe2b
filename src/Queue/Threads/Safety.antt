-- ===== src/Queue/Threads/Safety.antt =====
-- What the threads over the queue are promised, in every reachable state.
use grpc_p.Base.{ℕ, ◌+◌, ◌^◌, ◌≤◌, ◌<◌, ◌≡◌, refl, arith, replicate}
use grpc_p.Base.Rows.{total, total-replicate, count}
use grpc_p.Queue.Content.{contents}
use grpc_p.Queue.Threads.{Pc, idle, System, Step, pick, Reach}
use grpc_p.Queue.Threads.Invariant.{
  Inv, Reach-Inv, in_progress, held, ejected, unreported, Move-contents, Move-accepted,
}

-- With at least one queue and fewer than 2^32 threads, in every reachable state: each thunk given
-- to `push` is, as often as it was given, in exactly one place: handed back by a refusal,
-- delivered, in a queue, or held by a thread that has yet to push it or has ejected it; and
-- `in_push_` is the number of threads in `push`.
pub Reach-conserved :
    {n_queues n_threads : ℕ} {s : System}
    → 0 < n_queues
    → n_threads < 2 ^ 32
    → Reach n_queues n_threads s
    → ((a : ℕ)
        → count a s.shared.submitted
          ≡ count a s.shared.refused
            + count a s.shared.delivered
            + count a (contents s.shared.queues)
            + total (held a) s.threads)
      × (s.shared.in_push ≡ total in_progress s.threads)
Reach-conserved some_queue few r = let inv = Reach-Inv some_queue few r in (inv.kept, inv.counted)

-- With at least one queue and fewer than 2^32 threads, in every reachable state in which all
-- threads have come to rest: what was accepted is what was delivered and what is still in the
-- queues, each as often, and what was submitted is what was accepted and what was refused.
pub Reach-at_rest :
    (k : ℕ) {n_queues n_threads : ℕ} {s : System}
    → 0 < n_queues
    → n_threads < 2 ^ 32
    → Reach n_queues n_threads s
    → s.threads ≡ replicate k idle
    → (a : ℕ)
    → (count a s.shared.accepted ≡ count a s.shared.delivered + count a (contents s.shared.queues))
      × (count a s.shared.submitted ≡ count a s.shared.accepted + count a s.shared.refused)
Reach-at_rest k {s} some_queue few r rest a = (
  omega (arith, inv.reported a, quiet (unreported a) refl, quiet (ejected a) refl),
  omega (
    arith,
    inv.kept a,
    inv.reported a,
    quiet (unreported a) refl,
    quiet (ejected a) refl,
    quiet (held a) refl,
  ),
)
  where
    inv : Inv s.shared s.threads
    inv = Reach-Inv some_queue few r

    quiet : (w : Pc → ℕ) → w idle ≡ 0 → total w s.threads ≡ 0
    quiet w e = rw rest (total-replicate w k idle e)

-- With at least one queue and fewer than 2^32 threads, in every reachable state in which a call of
-- `stop_and_eject` has returned: whatever step is taken, no push is accepted by it, and the queues
-- hold no thunk more often after it.
pub Step-closed :
    {n_queues n_threads : ℕ} {s t : System}
    → 0 < n_queues
    → n_threads < 2 ^ 32
    → Reach n_queues n_threads s
    → 0 < s.shared.drains
    → Step s t
    → (t.shared.accepted ≡ s.shared.accepted)
      × ((a : ℕ) → count a (contents t.shared.queues) ≤ count a (contents s.shared.queues))
Step-closed some_queue few r over (pick i e mv) =
    let inv = Reach-Inv some_queue few r in
    (Move-accepted inv i e over mv, Move-contents inv i e over mv)
