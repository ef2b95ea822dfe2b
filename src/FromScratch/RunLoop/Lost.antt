-- ===== src/FromScratch/RunLoop/Lost.antt =====
-- Once the loop has run empty, `tail` points to the task popped last, and new tasks are linked behind it.
use grpc_p.Base.{ℕ, suc, ◌≡◌, ◌≢◌, refl, List, [], ◌∷◌, arith, if◌then◌else◌}
use grpc_p.Base.Rows.{count}
use grpc_p.FromScratch.RunLoop.{head, Loop, push_back, pop_front, returned, waits, run, push_all}
use grpc_p.FromScratch.RunLoop.Chain.{IsQueue, pop_front-task, pop_front-empty}

-- The loop is empty, and its `tail` is not `head`.
record Stale (l : Loop) : Type 0 where
  empty : l.next head ≡ head
  stale : l.tail ≢ head

push_all-Stale :
    (ops : List ℕ) (l : Loop)
    → Stale l
    → count head ops ≡ 0
    → Stale (push_all ops l) × ((push_all ops l).finishing ≡ l.finishing)
unfolding push_all push_back
push_all-Stale [] l s out = (s, refl)
push_all-Stale (op ∷ ops) l s out =
    push_all-Stale ops (push_back op l)
      (record { empty = ground (arith, s.empty, s.stale); stale = ground arith }) (omega arith)

-- After a pop has taken the only task, no task that is pushed later is ever executed: `run` takes none,
-- and returns if `finish` has been called and otherwise waits.
lost_tasks :
    (l : Loop) (x : ℕ) (ops : List ℕ) (fuel : ℕ)
    → IsQueue l (x ∷ [])
    → count head ops ≡ 0
    → run (suc fuel) (push_all ops (pop_front l).1)
      ≡ (if l.finishing then returned [] else waits [])
unfolding run
lost_tasks l x ops fuel q out =
    let (l', e, c, t, f) = pop_front-task l x [] q.chain q.distinct in
    let (s, g) =
      push_all-Stale ops l' (record { empty = c; stale = ground (arith, t, q.tail_last, q.chain) })
        out in
    rw (e, pop_front-empty (push_all ops l') s.empty, g, f, run) (ground arith)
