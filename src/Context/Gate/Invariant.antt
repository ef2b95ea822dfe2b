-- ===== src/Context/Gate/Invariant.antt =====
-- What holds in every reachable state of the threads over an execution context.
pub use grpc_p.Context.Gate.Counts.{
  shuts, posts, late_posts, in_post, committed, in_wait, past_wait, pending, to_post, Inv,
}
use grpc_p.Base.{ℕ, ◌^◌, ◌<◌, ◌≡◌, refl, sym, ◌∙◌, arith, length-replicate, replicate}
use grpc_p.Base.Rows.{total, total-replicate}
use grpc_p.Context.Post.{construct}
use grpc_p.Context.Gate.{Pc, idle, System, pick, Reach, start, later, init}
use grpc_p.Context.Gate.Moves.{Move-Inv, Move-cqs}

module _ {ℓ κ} (T : Type ℓ) (F : Type κ) where
  Inv-init :
      (n m callers : ℕ)
      → callers < 2 ^ 64
      → Inv (init {T = T} {F = F} n m callers).context (init n m callers).threads
  unfolding construct
  Inv-init n m callers few = record {
    few = omega (arith, length-replicate {A = Pc T F} callers idle);
    counted = sym (all_idle in_post refl);
    open_ = λ h. omega (arith, all_idle past_wait refl, all_idle in_wait refl);
    sealed = λ h. all_idle committed refl;
    quiet = all_idle to_post refl;
    late = refl;
    once = λ k h. omega (arith, all_idle (pending k) refl, all_idle in_wait refl);
  }
    where
      all_idle : (w : Pc T F → ℕ) → w idle ≡ 0 → total w (replicate callers idle) ≡ 0
      all_idle w e = total-replicate w callers idle e

module _ {ℓ κ} {T : Type ℓ} {F : Type κ} where
  pub Reach-Inv :
      {n m callers : ℕ} {s : System T F}
      → callers < 2 ^ 64
      → Reach n m callers s
      → Inv s.context s.threads
  Reach-Inv {n} {m} {callers} few start = Inv-init T F n m callers few
  Reach-Inv few (later r (pick i e mv)) = Move-Inv (Reach-Inv few r) i e mv

  pub Reach-cqs :
      {n m callers : ℕ} {s : System T F}
      → callers < 2 ^ 64
      → Reach n m callers s
      → s.context.cqs ≡ m
  unfolding construct
  Reach-cqs few start = refl
  Reach-cqs few (later r (pick i e mv)) = Move-cqs (Reach-Inv few r) i mv ∙ Reach-cqs few r
