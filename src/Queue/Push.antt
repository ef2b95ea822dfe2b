-- ===== src/Queue/Push.antt =====
-- `push` loses and duplicates nothing, and it returns once a try gets a lock.
use mathlib.Core.List.{Perm}
use native.Mathlib.Nat.{mod-lt}
use grpc_p.Base.{
  ℕ, zero, suc, ◌+◌, ◌-◌, ◌^◌, ◌≤◌, ◌<◌, ◌≡◌, ◌≢◌, refl, Bool, true, false, Option, none, some,
  List, ◌∷◌, arith, inl, inr, length, length-set, Bool-cases, Option-cases, dec_lt,
}
use grpc_p.Queue.Locking.{LockingQueue, try_push}
use grpc_p.Queue.Content.{contents, contents-push}
use grpc_p.Queue.Stealing.{
  StealingQueue, u32, slot, push_round, push_loop, push, enter_push, leave_push,
}

-- The class invariant: as many queues as the count says, at least one, and 32-bit counters. (Fewer
-- than 2^32 pushes are in progress at once.)
pub record IsValid {ℓ} {A : Type ℓ} (q : StealingQueue A) : Type 0 where
  pub sized : length q.queues ≡ q.n_queues
  pub some_queue : 0 < q.n_queues
  pub small : q.n_queues < 2 ^ 32
  pub counted : q.in_push + 1 < 2 ^ 32
  pub push_fits : q.push_index < 2 ^ 32
  pub pop_fits : q.pop_index < 2 ^ 32

leave-enter : (n : ℕ) → n + 1 < 2 ^ 32 → u32 (u32 (n + 1) + 2 ^ 32 - 1) ≡ n
leave-enter n h = omega arith

module _ {ℓ} {A : Type ℓ} where
  -- What a round of tries may do to the queues.
  abbrev Adds : A → List (LockingQueue A) → Option (List (LockingQueue A)) → Type ℓ
  Adds f qs none = Unit
  Adds f qs (some qs') = Perm (contents qs') (f ∷ contents qs) × (length qs' ≡ length qs)

  push_round-Adds :
      (locks : ℕ → Bool) (f : A) (offset n left i : ℕ) (qs : List (LockingQueue A))
      → length qs ≡ n
      → 0 < n
      → Adds f qs (push_round locks f offset n left i qs)
  unfolding push_round try_push
  push_round-Adds locks f offset n zero i qs sized pos = tt
  push_round-Adds locks f offset n (suc left) i qs sized pos = elim (Bool-cases (locks i)) [
    | inl got ↦
        rw (got, push_round, try_push)
          (contents-push qs (slot offset i n) f (rw sized (mod-lt _ pos)), length-set qs _ _)
    | inr busy ↦
        rw (busy, push_round, try_push) (push_round-Adds locks f offset n left (suc i) qs sized pos)
  ]

  -- A round succeeds when one of its tries gets a lock.
  push_round-ne-none :
      (locks : ℕ → Bool) (f : A) (offset n left i j : ℕ) (qs : List (LockingQueue A))
      → i ≤ j
      → j < i + left
      → locks j ≡ true
      → push_round locks f offset n left i qs ≢ none
  unfolding push_round try_push
  push_round-ne-none locks f offset n zero i j qs lo hi got = absurd (omega arith)
  push_round-ne-none locks f offset n (suc left) i j qs lo hi got = elim (Bool-cases (locks i)) [
    | inl now ↦ rw (now, push_round, try_push) (λ e. cc)
    | inr busy ↦
        rw (busy, push_round, try_push)
          (push_round-ne-none locks f offset n left (suc i) j qs (ground (arith)) (omega arith) got)
  ]

  -- What a push that went through has changed: one more thunk, and the index of the next queue.
  pub record Grown (f : A) (q q' : StealingQueue A) : Type ℓ where
    pub added : Perm (contents q'.queues) (f ∷ contents q.queues)
    pub sized : length q'.queues ≡ length q.queues
    pub n_queues : q'.n_queues ≡ q.n_queues
    pub in_push : q'.in_push ≡ q.in_push
    pub is_done : q'.is_done ≡ q.is_done
    pub pop_index : q'.pop_index ≡ q.pop_index
    pub push_fits : q'.push_index < 2 ^ 32

  abbrev LoopGrown : A → StealingQueue A → Option (StealingQueue A) → Type ℓ
  LoopGrown f q none = Unit
  LoopGrown f q (some q') = Grown f q q'

  -- The index of the next queue does not show in what a push has added.
  LoopGrown-push_index :
      (f : A) (q : StealingQueue A) (k : ℕ) (o : Option (StealingQueue A))
      → LoopGrown f (record q { push_index = k }) o
      → LoopGrown f q o
  LoopGrown-push_index f q k none g = tt
  LoopGrown-push_index f q k (some q') g = record {
    added = g.added;
    sized = g.sized;
    n_queues = g.n_queues;
    in_push = g.in_push;
    is_done = g.is_done;
    pop_index = g.pop_index;
    push_fits = g.push_fits;
  }

  push_loop-Grown :
      (locks : ℕ → ℕ → Bool) (f : A) (fuel r : ℕ) (q : StealingQueue A)
      → length q.queues ≡ q.n_queues
      → 0 < q.n_queues
      → LoopGrown f q (push_loop locks f fuel r q)
  unfolding push_loop
  push_loop-Grown locks f zero r q sized pos = tt
  push_loop-Grown locks f (suc fuel) r q sized pos = elim (Option-cases round) [
    | inl e ↦
        rw (e, push_loop)
          (LoopGrown-push_index f q _ _ (push_loop-Grown locks f fuel (suc r) next sized pos))
    | inr (qs, e) ↦
        let added : Adds f q.queues (some qs) =
          rw e at
            (push_round-Adds (locks r) f q.push_index q.n_queues q.n_queues 0 q.queues sized pos) in
        rw (e, push_loop)
          (record {
            added = added.0;
            sized = added.1;
            n_queues = refl;
            in_push = refl;
            is_done = refl;
            pop_index = refl;
            push_fits = mod-lt _ (omega arith);
          })
  ]
    where
      round : Option (List (LockingQueue A))
      round = push_round (locks r) f q.push_index q.n_queues q.n_queues 0 q.queues

      next : StealingQueue A
      next = record q { push_index = u32 (q.push_index + 1) }

  push_loop-ne-none :
      (locks : ℕ → ℕ → Bool) (f : A) (fuel r s i : ℕ) (q : StealingQueue A)
      → r ≤ s
      → s < r + fuel
      → i < q.n_queues
      → locks s i ≡ true
      → push_loop locks f fuel r q ≢ none
  unfolding push_loop
  push_loop-ne-none locks f zero r s i q lo hi small got = absurd (omega arith)
  push_loop-ne-none locks f (suc fuel) r s i q lo hi small got = elim (Option-cases round) [
    | inl e ↦
        rw (e, push_loop)
          (push_loop-ne-none locks f fuel (suc r) s i next (later e) (omega arith) small got)
    | inr (qs, e) ↦ rw (e, push_loop) (λ e. cc)
  ]
    where
      round : Option (List (LockingQueue A))
      round = push_round (locks r) f q.push_index q.n_queues q.n_queues 0 q.queues

      next : StealingQueue A
      next = record q { push_index = u32 (q.push_index + 1) }

      -- Round `s` cannot have failed.
      later : round ≡ none → r < s
      later e = elim (dec_lt r s) [
        | yes h ↦ h
        | no h ↦
            let same : s ≡ r = omega arith in
            absurd (
              push_round-ne-none (locks r) f q.push_index q.n_queues q.n_queues 0 i q.queues
                (omega arith) (omega arith) (rw same at got) e)
      ]

  -- The result of `push`: refused, with the queue as it was, or accepted.
  abbrev pub Pushes : A → StealingQueue A → Bool → StealingQueue A → Type ℓ
  Pushes f q true q' = (q.is_done ≡ false) × Grown f q q'
  Pushes f q false q' = (q.is_done ≡ true) × (q' ≡ q)

  push_loop-cases :
      (f : A) (q : StealingQueue A) (o : Option (StealingQueue A))
      → LoopGrown f (enter_push q) o
      → o ≢ none
      → q.in_push + 1 < 2 ^ 32
      → (q' : StealingQueue A) × (o ≡ some q') × Grown f q (leave_push q')
  push_loop-cases f q none g ne small = absurd (ne refl)
  push_loop-cases f q (some q') g ne small = (
    q',
    refl,
    record {
      added = g.added;
      sized = g.sized;
      n_queues = g.n_queues;
      in_push = rw g.in_push (leave-enter q.in_push small);
      is_done = g.is_done;
      pop_index = g.pop_index;
      push_fits = g.push_fits;
    },
  )

  push-accepted :
      (locks : ℕ → ℕ → Bool) (fuel : ℕ) (f : A) (q q' : StealingQueue A)
      → q.is_done ≡ false
      → push_loop locks f fuel 0 (enter_push q) ≡ some q'
      → push locks fuel f q ≡ some (true, leave_push q')
  unfolding push
  push-accepted locks fuel f q q' live e = ground arith

  -- On a well-formed queue, where some try of some round within the fuel gets its lock, `push`
  -- returns. It refuses the thunk exactly when the queue is done, and then changes nothing;
  -- otherwise it returns true, and the queues hold the thunk besides what they held, each as often,
  -- with the number of queues, the flag and the count of pushes in progress as before.
  pub push-Pushes :
      (locks : ℕ → ℕ → Bool) (f : A) (fuel r i : ℕ) (q : StealingQueue A)
      → IsValid q
      → r < fuel
      → i < q.n_queues
      → locks r i ≡ true
      → (b : Bool) × (q' : StealingQueue A) × (push locks fuel f q ≡ some (b, q')) × Pushes f q b q'
  unfolding push
  push-Pushes locks f fuel r i q v in_time small got = elim (Bool-cases q.is_done) [
    | inl done ↦ (false, q, rw (done, push, leave-enter q.in_push v.counted), (done, refl))
    | inr live ↦
        let (q', e, g) =
          push_loop-cases f q (push_loop locks f fuel 0 (enter_push q))
            (push_loop-Grown locks f fuel 0 (enter_push q) v.sized v.some_queue)
            (push_loop-ne-none locks f fuel 0 r i (enter_push q) (omega arith) (omega arith) small
              got)
            v.counted in
        (true, leave_push q', push-accepted locks fuel f q q' live e, (live, g))
  ]
