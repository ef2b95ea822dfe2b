-- ===== src/Context/Gate/Safety.antt =====
-- What the threads over an execution context are promised, in every reachable state.
use grpc_p.Base.{ℕ, ◌^◌, ◌<◌, ◌≤◌, ◌≡◌, refl, arith, replicate, if◌then◌else◌}
use grpc_p.Base.Rows.{total, total-replicate}
use grpc_p.Context.State.{can_post}
use grpc_p.Context.History.{shut_count}
use grpc_p.Context.Gate.{Pc, idle, System, Reach}
use grpc_p.Context.Gate.Invariant.{Inv, late_posts, in_post, pending, in_wait, Reach-Inv, Reach-cqs}

module _ {ℓ κ} {T : Type ℓ} {F : Type κ} where
  -- With fewer than 2^64 threads, in every reachable state: no alarm has been set and no RPC made
  -- on any queue after a queue of the context was shut down; `within_cq_post_` is the number of
  -- threads in a post; and no queue of the context has been shut down twice.
  pub Reach-no_late_posts :
      {n_threads number_cqs callers : ℕ} {s : System T F}
      → callers < 2 ^ 64
      → Reach n_threads number_cqs callers s
      → (late_posts s.context.calls ≡ 0)
        × (s.context.within_cq_post ≡ total in_post s.threads)
        × ((k : ℕ) → k < number_cqs → shut_count k s.context.calls ≤ 1)
  Reach-no_late_posts {s} few r =
      let inv = Reach-Inv few r in
      (inv.late, inv.counted, λ k small. bounded inv k (omega (arith, Reach-cqs few r)))
    where
      bounded :
          Inv s.context s.threads → (k : ℕ) → k < s.context.cqs → shut_count k s.context.calls ≤ 1
      bounded inv k small = ground (arith, inv.once k small)

  -- With fewer than 2^64 threads, in every reachable state in which all threads have come to rest:
  -- each queue of the context has been shut down once if the state no longer allows posts, and not
  -- at all if it does.
  pub Reach-shut_at_rest :
      (k : ℕ) {n_threads number_cqs callers : ℕ} {s : System T F}
      → callers < 2 ^ 64
      → Reach n_threads number_cqs callers s
      → s.threads ≡ replicate k idle
      → (cq : ℕ) → cq < number_cqs
      → shut_count cq s.context.calls ≡ (if can_post s.context.state then 0 else 1)
  Reach-shut_at_rest k {s} few r rest cq small = ground (
    arith,
    (Reach-Inv few r).once cq (omega (arith, Reach-cqs few r)),
    quiet (pending cq) refl,
    quiet in_wait refl,
  )
    where
      quiet : (w : Pc T F → ℕ) → w idle ≡ 0 → total w s.threads ≡ 0
      quiet w e = rw rest (total-replicate w k idle e)
