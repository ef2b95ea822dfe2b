-- ===== src/Queue/Fifo.antt =====
-- A history of pushes and pops of a task queue by one thread that gets every lock it tries.
pub mod Lanes
pub mod Refines
use native.Mathlib.Nat.{mod-lt, mod-eq_of_lt}
use mathlib.Core.List.{append-nil}
use grpc_p.Base.{
  ℕ, zero, suc, ◌+◌, ◌-◌, ◌%◌, ◌^◌, ◌≤◌, ◌<◌, ◌≡◌, ◌≢◌, refl, sym, ap, ◌∙◌, Bool, true, false,
  Option, none, some, List, [], ◌∷◌, ◌++◌, arith, inl, inr, length, get_or, get_or-set_self, set,
  length-set, length-append, length-replicate, replicate, if◌then◌else◌, ◌==◌, Bool-cases,
  ℕ_discrete, subst,
}
use grpc_p.Queue.Locking.{LockingQueue, try_push, try_pop}
use grpc_p.Queue.Stealing.{
  StealingQueue, no_queue, slot, u32, make, push, push_round, push_loop, pop_round, steal,
  enter_push, leave_push,
}

pub data Op {ℓ} (A : Type ℓ) : Type ℓ where
  add : A → Op A
  take : Op A

abbrev pub always : ℕ → Bool
always i = true

module _ {ℓ} {A : Type ℓ} where
  after_take : Option A → Option (List (Option A)) → Option (List (Option A))
  after_take o none = none
  after_take o (some os) = some (o ∷ os)

  -- What the calls of `try_pop` return in a history of pushes and pops by one thread, each of which gets every
  -- lock that it tries; `none` if a push does not return in its first round.
  unfoldable pub outputs : StealingQueue A → List (Op A) → Option (List (Option A))
  unfolding after_take
  outputs q [] = some []
  outputs q (add f ∷ ops) = elim (push (λ r. always) 1 f q) [
    | none ↦ none
    | some (b, q') ↦ outputs q' ops
  ]
  outputs q (take ∷ ops) = let (o, q') = steal always q in after_take o (outputs q' ops)

  -- What a queue answers that holds `xs`.
  abbrev pub queue_outputs : List A → List (Op A) → List (Option A)
  queue_outputs xs [] = []
  queue_outputs xs (add f ∷ ops) = queue_outputs (xs ++ f ∷ []) ops
  queue_outputs [] (take ∷ ops) = none ∷ queue_outputs [] ops
  queue_outputs (x ∷ xs) (take ∷ ops) = some x ∷ queue_outputs xs ops

  -- No pop finds the queue empty that holds `n` thunks at first.
  abbrev pub NeverEmpty : ℕ → List (Op A) → Type 0
  NeverEmpty n [] = Unit
  NeverEmpty n (add f ∷ ops) = NeverEmpty (suc n) ops
  NeverEmpty zero (take ∷ ops) = ⊥
  NeverEmpty (suc n) (take ∷ ops) = NeverEmpty n ops

  abbrev pub pushes : List (Op A) → ℕ
  pushes [] = 0
  pushes (add f ∷ ops) = suc (pushes ops)
  pushes (take ∷ ops) = pushes ops
