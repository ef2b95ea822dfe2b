-- ===== src/Context/SelfJoin.antt =====
-- execution_context.cpp: a stop that a thread of the context makes.
use grpc_p.Base.{
  ℕ, zero, suc, ◌+◌, ◌<◌, ◌≤◌, ◌≡◌, ◌↔◌, refl, some, none, List, [], ◌∷◌, ◌++◌, map, arith, false,
  inl, inr, Bool-cases, dec_lt, ◌≢◌, ◌==◌,
}
use grpc_p.Context.State.{ready, stopped, set_state}
use grpc_p.Context.Defs.{ExecutionContext, Call, join, notify}
use grpc_p.Context.Lifecycle.{
  ok, threw, resource_deadlock_would_occur, run_while, stop, joins, shutdowns, all_server_shutdowns,
}
use grpc_p.Context.Calls.{joins-none}

module _ {ℓ κ} {T : Type ℓ} {F : Type κ} where
  -- Thread `self` joins the threads from `i` on: it gets as far as itself.
  joins_self :
      (self left i : ℕ)
      → i ≤ self
      → self < i + left
      → joins {T = T} {F = F} (some self) left i ≡ threw resource_deadlock_would_occur
  unfolding joins
  joins_self self zero i low high = absurd (omega (arith, low, high))
  joins_self self (suc left) i low high = elim (Bool-cases (self == i)) [
    | inl same ↦ rw same
    | inr other ↦
        rw (other, joins_self self left (suc i) (ground (arith, low, other)) (omega (arith, high)))
  ]

  joins_other :
      (self left i : ℕ)
      → i + left ≤ self
      → (cs : List (Call T F)) × (joins (some self) left i ≡ ok cs)
  unfolding joins
  joins_other self zero i out = ([], refl)
  joins_other self (suc left) i out =
      let (cs, e) = joins_other self left (suc i) (omega (arith, out)) in
      (join i ∷ cs, rw (apart, e))
    where
      apart : (self == i) ≡ false
      apart = ground (arith, out)

  -- A context that was ready is run. A stop by a thread that is not the context's own returns. A stop by
  -- thread number `self` throws, since it joins itself, exactly if the context has a thread of that number.
  pub stop_by_worker :
      (self : ℕ) (c : ExecutionContext T F)
      → c.state ≡ ready
      → ((stop (some self) (run_while c) ≡ threw resource_deadlock_would_occur)
          ↔ (self < c.n_threads))
        × ((c' : ExecutionContext T F) × (stop none (run_while c) ≡ ok c'))
  unfolding stop run_while set_state
  stop_by_worker self c e =
      let (cs, joined, _, _) = joins-none T F c.n_threads 0 in
      (
        (worker, λ own. rw (e, joins_self self c.n_threads 0 (omega arith) (omega (arith, own)))),
        (halted cs, rw (e, joined) refl),
      )
    where
      returns :
          (cs : List (Call T F)) × (joins (some self) c.n_threads 0 ≡ ok cs)
          → stop (some self) (run_while c) ≢ threw resource_deadlock_would_occur
      returns (cs, joined) = rw (e, joined) (λ same. cc)

      worker :
          stop (some self) (run_while c) ≡ threw resource_deadlock_would_occur → self < c.n_threads
      worker ends = elim (dec_lt self c.n_threads) [
        | yes own ↦ own
        | no out ↦ absurd (returns (joins_other self c.n_threads 0 (omega (arith, out))) ends)
      ]

      halted : List (Call T F) → ExecutionContext T F
      halted joined = record c {
        state = stopped;
        threads = 0;
        notifications = [];
        calls =
            c.calls
            ++ (shutdowns c.cqs 0
                ++ (all_server_shutdowns 0 c.servers ++ (joined ++ map notify c.notifications)));
      }
