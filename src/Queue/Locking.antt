-- ===== src/Queue/Locking.antt =====
-- detail/atomic_task_stealing_queue.hpp: OptimisiticLockingQueue. A critical section is one step;
-- whether `try_lock` gets the mutex is an argument, since another thread, or a spurious failure,
-- decides it. The values are `std::function`s, whose moves do not throw.
use grpc_p.Base.{Bool, Option, none, some, List, [], ◌∷◌, ◌++◌, if◌then◌else◌}

pub record LockingQueue {ℓ} (A : Type ℓ) : Type ℓ where
  pub queue : List A

module _ {ℓ} {A : Type ℓ} where
  pop_front : List A → Option (A × LockingQueue A)
  pop_front [] = none
  pop_front (x ∷ rest) = some (x, record { queue = rest })

  -- `none` is the result `false`.
  unfoldable pub try_pop : Bool → LockingQueue A → Option (A × LockingQueue A)
  unfolding pop_front
  try_pop acquired q = if acquired then pop_front q.queue else none

  unfoldable pub try_push : Bool → A → LockingQueue A → Option (LockingQueue A)
  try_push acquired f q = if acquired then some (record { queue = q.queue ++ f ∷ [] }) else none

  -- The lock is waited for. The queue is empty afterwards.
  unfoldable pub eject : LockingQueue A → List A × LockingQueue A
  eject q = (q.queue, record { queue = [] })
