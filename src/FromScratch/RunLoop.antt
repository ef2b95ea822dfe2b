-- ===== src/FromScratch/RunLoop.antt =====
-- examples/from-scratch.cpp: run_loop, a circular linked list of tasks behind one lock. A task is named
-- by its address, a number; `head` is the loop's own task.
pub mod Chain
pub mod Fifo
pub mod Lost
use grpc_p.Base.{ℕ, zero, suc, Bool, true, false, List, [], ◌∷◌, if◌then◌else◌, ◌==◌}

abbrev pub head : ℕ
head = 0

abbrev pub update : (ℕ → ℕ) → ℕ → ℕ → ℕ → ℕ
update f p v q = if p == q then v else f q

pub record Loop : Type 0 where
  pub next : ℕ → ℕ  -- of each task
  pub tail : ℕ
  pub finishing : Bool

-- A new task's `next` is the task itself.
abbrev pub new_loop : Loop
new_loop = record { next = λ p. p; tail = head; finishing = false }

-- `push_back`
unfoldable pub push_back : (op : ℕ) → Loop → Loop
push_back op l = record l { next = update (update l.next op head) l.tail op; tail = op }

-- What `pop_front` does: it blocks on the condition variable, or returns.
pub data Popped : Type 0 where
  blocked : Popped
  null : Popped
  task : ℕ → Popped

unfoldable pub pop_front : Loop → Popped × Loop
pop_front l =
    if l.next head == head
    then (if l.finishing then null else blocked, l)
    else (task (l.next head), record l { next = update l.next head (l.next (l.next head)) })

unfoldable pub finish : Loop → Loop
finish l = record l { finishing = true }

-- How `run` ends, with the tasks executed, in order. The tasks do not use the loop.
pub data Ran : Type 0 where
  returned : List ℕ → Ran
  waits : List ℕ → Ran
  out_of_fuel : Ran

executed : ℕ → Ran → Ran
executed op (returned ops) = returned (op ∷ ops)
executed op (waits ops) = waits (op ∷ ops)
executed op out_of_fuel = out_of_fuel

-- `run`, for `fuel` calls of `pop_front`.
unfoldable pub run : (fuel : ℕ) → Loop → Ran
unfolding executed
run zero l = out_of_fuel
run (suc fuel) l =
    let (popped, l') = pop_front l in
    elim popped [ blocked ↦ waits [] | null ↦ returned [] | task op ↦ executed op (run fuel l') ]

unfoldable pub push_all : List ℕ → Loop → Loop
push_all [] l = l
push_all (op ∷ ops) l = push_all ops (push_back op l)
