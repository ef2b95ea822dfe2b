-- ===== src/Queue/Threads/Invariant.antt =====
-- What holds in every reachable state of the threads over the queue.
mod Defs
mod Moves
pub use Defs.*
pub use Moves.{Move-accepted, Move-contents}
use Moves.{Move-Inv}
use grpc_p.Base.{
  ℕ, zero, suc, ◌^◌, ◌<◌, ◌≡◌, refl, sym, ap, some, arith, length, length-set, length-replicate,
  replicate, get_elem?, set, Bool, true, false,
}
use grpc_p.Base.Rows.{total, total-replicate, count}
use grpc_p.Queue.Stealing.{make}
use grpc_p.Queue.Content.{contents-replicate}
use grpc_p.Queue.Threads.{Pc, idle, System, Step, pick, Reach, start, later, init}

Inv-init :
    (n_queues n_threads : ℕ)
    → 0 < n_queues
    → n_threads < 2 ^ 32
    → Inv (init n_queues n_threads).shared (init n_queues n_threads).threads
unfolding make
Inv-init n k some_queue few = record {
  few = omega (arith, length-replicate k idle);
  some_queue = some_queue;
  sized = length-replicate n _;
  counted = sym (all_idle in_progress refl);
  stopped = λ h. absurd (omega (arith, all_idle stopping refl));
  shut = λ h. elim h [ ];
  kept = λ a. omega (arith, all_idle (held a) refl, ap (count a) (contents-replicate {A = ℕ} n));
  reported = λ a. omega (
    arith,
    all_idle (ejected a) refl,
    all_idle (unreported a) refl,
    ap (count a) (contents-replicate {A = ℕ} n),
  );
}
  where
    all_idle : (w : Pc → ℕ) → w idle ≡ 0 → total w (replicate k idle) ≡ 0
    all_idle w e = total-replicate w k idle e

pub Step-Inv : {s t : System} → Step s t → Inv s.shared s.threads → Inv t.shared t.threads
Step-Inv (pick i e mv) inv = Move-Inv inv i e mv

pub Reach-Inv :
    {n_queues n_threads : ℕ} {s : System}
    → 0 < n_queues
    → n_threads < 2 ^ 32
    → Reach n_queues n_threads s
    → Inv s.shared s.threads
Reach-Inv {n_queues} {n_threads} some_queue few start = Inv-init n_queues n_threads some_queue few
Reach-Inv some_queue few (later r st) = Step-Inv st (Reach-Inv some_queue few r)
