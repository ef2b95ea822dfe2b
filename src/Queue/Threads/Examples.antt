-- ===== src/Queue/Threads/Examples.antt =====
-- The theorems on the threads over the queue at concrete reachable states.
use grpc_p.Base.{ℕ, ◌+◌, ◌≤◌, ◌≡◌, ap, List, [], ◌∷◌, arith, get_elem?, set}
use grpc_p.Base.Rows.{total, count}
use grpc_p.Queue.Content.{contents}
use grpc_p.Queue.Threads.{idle, entered, System, Reach, Step, pick, later, start_push, Pc}
use grpc_p.Queue.Threads.Invariant.{held, in_progress}
use grpc_p.Queue.Threads.Safety.{Reach-conserved, Reach-at_rest, Step-closed}
use grpc_p.Queue.Threads.Lost.{lost_thunk}
use grpc_p.Queue.Stealing.{enter_push}

lost_thunk_example :
    (s : System) × Reach 3 2 s
    × (s.threads ≡ idle ∷ idle ∷ [])
    × (s.shared.drains ≡ 1)
    × (s.shared.accepted ≡ 7 ∷ [])
    × (s.shared.delivered ≡ [])
    × (count 7 (contents s.shared.queues) ≡ 1)
lost_thunk_example = lost_thunk 3 7 (omega arith)

abbrev lost : System
lost = (lost_thunk 3 7 (omega arith)).0

lost-Reach : Reach 3 2 lost
lost-Reach = (lost_thunk 3 7 (omega arith)).1

lost-threads : lost.threads ≡ idle ∷ idle ∷ []
lost-threads = (lost_thunk 3 7 (omega arith)).2

lost-drains : lost.shared.drains ≡ 1
lost-drains = (lost_thunk 3 7 (omega arith)).3

Reach-at_rest_example :
    (count 7 lost.shared.accepted
      ≡ count 7 lost.shared.delivered + count 7 (contents lost.shared.queues))
    × (count 7 lost.shared.submitted ≡ count 7 lost.shared.accepted + count 7 lost.shared.refused)
Reach-at_rest_example = Reach-at_rest 2 (omega arith) (omega arith) lost-Reach lost-threads 7

-- A push after the drain.
abbrev late_push : System
late_push = record {
  shared = record lost.shared {
    mem = enter_push lost.shared.mem;
    submitted = 8 ∷ lost.shared.submitted;
  };
  threads = set lost.threads 0 (entered 8);
}

late_push-Step : Step lost late_push
late_push-Step = pick 0 (ap (λ (ts : List Pc). get_elem? ts 0) lost-threads) (start_push 8)

Step-closed_example :
    (late_push.shared.accepted ≡ lost.shared.accepted)
    × ((a : ℕ) → count a (contents late_push.shared.queues) ≤ count a (contents lost.shared.queues))
Step-closed_example =
    Step-closed (omega arith) (omega arith) lost-Reach (omega (arith, lost-drains)) late_push-Step

Reach-conserved_example :
    ((a : ℕ)
      → count a late_push.shared.submitted
        ≡ count a late_push.shared.refused
          + count a late_push.shared.delivered
          + count a (contents late_push.shared.queues)
          + total (held a) late_push.threads)
    × (late_push.shared.in_push ≡ total in_progress late_push.threads)
Reach-conserved_example =
    Reach-conserved (omega arith) (omega arith) (later lost-Reach late_push-Step)
