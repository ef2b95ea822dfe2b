-- ===== src/FromScratch/RunLoop/Fifo.antt =====
-- The loop runs the tasks in the order of their start, as long as none is started after it has run empty.
use grpc_p.Base.{
  ℕ, zero, suc, ◌≤◌, ◌<◌, ◌≡◌, refl, sym, ap, ◌∙◌, true, List, [], ◌∷◌, ◌++◌, subst, arith, length,
}
use mathlib.Core.List.{append_assoc, append-nil}
use grpc_p.Base.Rows.{count, count-append}
use grpc_p.FromScratch.RunLoop.{
  head, Loop, new_loop, push_back, Popped, task, blocked, pop_front, finish, returned, executed,
  run, push_all,
}
use grpc_p.FromScratch.RunLoop.Chain.{
  Chain, Distinct, IsQueue, push_back-IsQueue, pop_front-task, pop_front-empty,
}

run-task :
    (fuel : ℕ) (l l' : Loop) (x : ℕ)
    → pop_front l ≡ (task x, l')
    → run (suc fuel) l ≡ executed x (run fuel l')
unfolding run
run-task fuel l l' x e = rw (e, run) (rw e refl)

-- Once `finish` has been called, `run` takes every task and returns.
run-Chain :
    (fuel : ℕ) (xs : List ℕ) (l : Loop)
    → Chain l.next head xs
    → Distinct (head ∷ xs)
    → l.finishing ≡ true
    → length xs < fuel
    → run fuel l ≡ returned xs
unfolding run executed
run-Chain zero xs l c once done enough = absurd (omega arith)
run-Chain (suc fuel) [] l c once done enough = rw (pop_front-empty l c, done, run) refl
run-Chain (suc fuel) (x ∷ xs) l c once done enough =
    let (l', e, c', t, f) = pop_front-task l x xs c once in
    run-task fuel l l' x e
    ∙ ap (executed x)
        (run-Chain fuel xs l' c' (λ a. ground (arith, once a)) (f ∙ done) (omega arith))

push_all-IsQueue :
    (ops xs : List ℕ) (l : Loop)
    → IsQueue l xs
    → Distinct (head ∷ xs ++ ops)
    → IsQueue (push_all ops l) (xs ++ ops)
unfolding push_all
push_all-IsQueue [] xs l q once = rw append-nil q
push_all-IsQueue (op ∷ ops) xs l q once =
    subst (IsQueue (push_all ops (push_back op l))) (append_assoc xs (op ∷ []) ops) (
      push_all-IsQueue ops (xs ++ op ∷ []) (push_back op l)
        (push_back-IsQueue op l xs q (ground (arith, once op, count-append op xs (op ∷ ops))))
        (λ a. subst (λ ys. count a (head ∷ ys) ≤ 1) (sym (append_assoc xs (op ∷ []) ops)) (once a)))

pub new_loop-IsQueue : IsQueue new_loop []
new_loop-IsQueue = record { chain = refl; tail_last = refl; distinct = λ a. ground arith }

-- Tasks with addresses of their own, pushed onto a new loop before `finish`, are all executed by `run`,
-- each once and in the order of the pushes, and `run` returns; with more fuel than tasks.
pub run-push_all :
    (ops : List ℕ) (fuel : ℕ)
    → Distinct (head ∷ ops)
    → length ops < fuel
    → run fuel (finish (push_all ops new_loop)) ≡ returned ops
unfolding finish
run-push_all ops fuel once enough =
    let q = push_all-IsQueue ops [] new_loop new_loop-IsQueue once in
    run-Chain fuel ops (finish (push_all ops new_loop)) q.chain q.distinct refl enough

-- Any history of pushes and pops.
pub data Op : Type 0 where
  push : ℕ → Op
  pop : Op

pub outputs : Loop → List Op → List Popped
outputs l [] = []
outputs l (push op ∷ ops) = outputs (push_back op l) ops
outputs l (pop ∷ ops) = let (popped, l') = pop_front l in popped ∷ outputs l' ops

-- What a queue answers that holds `xs`.
abbrev pub queue_outputs : List ℕ → List Op → List Popped
queue_outputs xs [] = []
queue_outputs xs (push op ∷ ops) = queue_outputs (xs ++ op ∷ []) ops
queue_outputs [] (pop ∷ ops) = blocked ∷ queue_outputs [] ops
queue_outputs (x ∷ xs) (pop ∷ ops) = task x ∷ queue_outputs xs ops

-- Each task pushed is not in the queue, and no pop takes the last one.
abbrev pub KeepsOne : List ℕ → List Op → Type 0
KeepsOne xs [] = Unit
KeepsOne xs (push op ∷ ops) = (count op (head ∷ xs) ≡ 0) × KeepsOne (xs ++ op ∷ []) ops
KeepsOne [] (pop ∷ ops) = ⊥
KeepsOne (x ∷ []) (pop ∷ ops) = ⊥
KeepsOne (x ∷ y ∷ xs) (pop ∷ ops) = KeepsOne (y ∷ xs) ops

-- Over any history of pushes and pops in which no pop takes the last task and no task is pushed that is
-- queued, the loop answers as a first-in first-out queue.
pub outputs-queue_outputs :
    (ops : List Op) (xs : List ℕ) (l : Loop)
    → IsQueue l xs
    → KeepsOne xs ops
    → outputs l ops ≡ queue_outputs xs ops
unfolding outputs
outputs-queue_outputs [] xs l q k = refl
outputs-queue_outputs (push op ∷ ops) xs l q (out, k) =
    outputs-queue_outputs ops (xs ++ op ∷ []) (push_back op l) (push_back-IsQueue op l xs q out) k
outputs-queue_outputs (pop ∷ ops) [] l q k = elim k [ ]
outputs-queue_outputs (pop ∷ ops) (x ∷ []) l q k = elim k [ ]
outputs-queue_outputs (pop ∷ ops) (x ∷ y ∷ xs) l q k =
    let (l', e, c, t, f) = pop_front-task l x (y ∷ xs) q.chain q.distinct in
    rw e (
      ap (◌∷◌ (task x)) (
        outputs-queue_outputs ops (y ∷ xs) l'
          (record {
            chain = c;
            tail_last = t ∙ q.tail_last;
            distinct = λ a. ground (arith, q.distinct a);
          })
          k))
