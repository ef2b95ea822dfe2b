-- ===== src/Queue/Bag.antt =====
-- What AtomicTaskStealingQueue (detail/atomic_task_stealing_queue.hpp) promises: a bag of thunks, which
-- forgets their order and the queue that each stands in, and that is closed once.
pub mod Refines
mod Examples
use mathlib.Core.List.{Perm}
use mathlib.Core.List.Perm
use mathlib.Core.Quot
use mathlib.Core.Quot.{Quot, Quot-set}
use grpc_p.Base.{ℕ, suc, ◌+◌, ◌<◌, ◌≡◌, Bool, true, false, Option, none, some, List, [], ◌∷◌}
use grpc_p.Queue.Stealing.{StealingQueue, push, steal, stop_and_eject}
use grpc_p.Queue.Content.{contents}

abbrev pub Bag {ℓ} : Type ℓ → Type ℓ
Bag A = Quot (Perm {A = A})

unfoldable pub put {ℓ} : {A : Type ℓ} → A → Bag A → Bag A
put x = Quot.lift Quot-set (λ xs. Quot.mk (x ∷ xs)) (λ xs ys p. Quot.sound (Perm.cons x p))

-- A call, with what decides the locks: `locks r i` is try `i` of round `r` of the call.
pub data Op {ℓ} (A : Type ℓ) : Type ℓ where
  submit : (locks : ℕ → ℕ → Bool) → (fuel : ℕ) → A → Op A
  fetch : (locks : ℕ → Bool) → Op A
  close : Op A

pub data Answer {ℓ} (A : Type ℓ) : Type ℓ where
  submitted : Bool → Answer A
  fetched : Option A → Answer A
  closed : List A → Answer A

module _ {ℓ} {A : Type ℓ} where
  submitting : Option (Bool × StealingQueue A) → Option (Answer A × StealingQueue A)
  submitting none = none
  submitting (some (b, q)) = some (submitted b, q)

  closing : Option (List A × StealingQueue A) → Option (Answer A × StealingQueue A)
  closing none = none
  closing (some (xs, q)) = some (closed xs, q)

  -- One call; `none` if it does not return. (One pass of `stop_and_eject`.)
  unfoldable pub perform : Op A → StealingQueue A → Option (Answer A × StealingQueue A)
  unfolding submitting closing
  perform (submit locks fuel x) q = submitting (push locks fuel x q)
  perform (fetch locks) q = let (o, q') = steal locks q in some (fetched o, q')
  perform close q = closing (stop_and_eject 1 q)

  answered :
      Answer A
      → Option (List (Answer A) × StealingQueue A)
      → Option (List (Answer A) × StealingQueue A)
  answered a none = none
  answered a (some (answers, q)) = some (a ∷ answers, q)

  unfoldable pub perform_all :
      List (Op A) → StealingQueue A → Option (List (Answer A) × StealingQueue A)
  unfolding answered
  perform_all [] q = some ([], q)
  perform_all (op ∷ ops) q = elim (perform op q) [
    | none ↦ none
    | some (a, q') ↦ answered a (perform_all ops q')
  ]

-- The abstract state, and what each call may answer.
pub record TaskBag {ℓ} (A : Type ℓ) : Type ℓ where
  pub bag : Bag A
  pub is_closed : Bool

module _ {ℓ} {A : Type ℓ} where
  abbrev pub empty : Bag A
  empty = Quot.mk []

  pub data Allowed (s : TaskBag A) : Op A → Answer A → TaskBag A → Type ℓ where
    accept :
        {locks : ℕ → ℕ → Bool} {fuel : ℕ} {x : A} {t : TaskBag A}
        → s.is_closed ≡ false
        → t ≡ record s { bag = put x s.bag }
        → Allowed s (submit locks fuel x) (submitted true) t
    refuse :
        {locks : ℕ → ℕ → Bool} {fuel : ℕ} {x : A} {t : TaskBag A}
        → s.is_closed ≡ true
        → t ≡ s
        → Allowed s (submit locks fuel x) (submitted false) t
    hand_over :
        {locks : ℕ → Bool} {x : A} {t : TaskBag A}
        → s.bag ≡ put x t.bag
        → t.is_closed ≡ s.is_closed
        → Allowed s (fetch locks) (fetched (some x)) t
    -- A call that got every lock that it tried misses only if there is nothing.
    miss :
        {locks : ℕ → Bool} {t : TaskBag A}
        → (((k : ℕ) → locks k ≡ true) → s.bag ≡ empty)
        → t ≡ s
        → Allowed s (fetch locks) (fetched none) t
    drain :
        {xs : List A} {t : TaskBag A}
        → s.bag ≡ Quot.mk xs
        → t ≡ record { bag = empty; is_closed = true }
        → Allowed s close (closed xs) t

  pub data AllAllowed : TaskBag A → List (Op A) → List (Answer A) → TaskBag A → Type ℓ where
    none_left : {s t : TaskBag A} → t ≡ s → AllAllowed s [] [] t
    one_more :
        {op : Op A} {a : Answer A} {ops : List (Op A)} {answers : List (Answer A)}
        {s t u : TaskBag A}
        → Allowed s op a t
        → AllAllowed t ops answers u
        → AllAllowed s (op ∷ ops) (a ∷ answers) u

  -- The abstract state of a task queue.
  unfoldable pub view : StealingQueue A → TaskBag A
  view q = record { bag = Quot.mk (contents q.queues); is_closed = q.is_done }

  -- Each push gets some lock in some round.
  abbrev pub Fair : ℕ → List (Op A) → Type 0
  Fair n [] = Unit
  Fair n (submit locks fuel x ∷ ops) =
      ((r : ℕ) × (i : ℕ) × (r < fuel) × (i < n) × (locks r i ≡ true)) × Fair n ops
  Fair n (_ ∷ ops) = Fair n ops

  abbrev pub fetches : List (Op A) → ℕ
  fetches [] = 0
  fetches (fetch locks ∷ ops) = suc (fetches ops)
  fetches (_ ∷ ops) = fetches ops
