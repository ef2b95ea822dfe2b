-- ===== src/Queue/Fifo/Lanes.antt =====
-- How the thunks of one queue lie in the row of queues, round robin, and what push and try_pop do to them.
use native.Mathlib.Nat.{mod-lt}
use mathlib.Core.List.{append-nil}
use grpc_p.Base.{
  ℕ, zero, suc, ◌+◌, ◌%◌, ◌^◌, ◌<◌, ◌≡◌, ◌≢◌, refl, sym, ap, ◌∙◌, Bool, true, false, some, List, [],
  ◌∷◌, ◌++◌, arith, length, get_or, get_or-set_self, set, length-set, length-append, if◌then◌else◌,
  ◌==◌, ℕ_discrete, subst,
}
use grpc_p.Queue.Locking.{LockingQueue, try_push, try_pop}
use grpc_p.Queue.Stealing.{
  StealingQueue, no_queue, slot, u32, push, push_round, push_loop, pop_round, steal, enter_push,
  leave_push,
}
use grpc_p.Queue.Fifo.{always}

slot-first : (p n : ℕ) → p < 2 ^ 32 → slot p 0 n ≡ p % n
slot-first p n small = ap (λ i. i % n) (omega arith)

eq_test : (a b : ℕ) → a ≡ b → (a == b) ≡ true
eq_test a b e = ground arith

ne_test : (a b : ℕ) → a ≢ b → (a == b) ≡ false
ne_test a b ne = ground arith

module _ {ℓ} {A : Type ℓ} where
  -- The thunks of `xs` that queue `k` of `n` holds, if the first of them is in queue `off % n`.
  unfoldable pub lane : (n k off : ℕ) → List A → List A
  lane n k off [] = []
  lane n k off (x ∷ xs) =
      let later : List A = lane n k (off + 1) xs in if off % n == k then x ∷ later else later

  pub record IsFifo (q : StealingQueue A) (xs : List A) : Type ℓ where
    pub sized : length q.queues ≡ q.n_queues
    pub some_queue : 0 < q.n_queues
    pub live : q.is_done ≡ false
    pub aligned : q.push_index ≡ q.pop_index + length xs
    pub lanes : (k : ℕ) → (get_or q.queues k no_queue).queue ≡ (lane q.n_queues k q.pop_index xs)

  one_more :
      (b : Bool) (x : A) (ys zs last : List A)
      → ys ≡ zs ++ last
      → (if b then x ∷ ys else ys) ≡ (if b then x ∷ zs else zs) ++ last
  one_more true x ys zs last e = ap (◌∷◌ x) e
  one_more false x ys zs last e = e

  lane-append :
      (n k off : ℕ) (xs : List A) (f : A)
      → lane n k off (xs ++ f ∷ [])
        ≡ lane n k off xs ++ (if (off + length xs) % n == k then f ∷ [] else [])
  unfolding lane
  lane-append n k off [] f = ap (λ m. if m % n == k then f ∷ [] else []) (omega arith)
  lane-append n k off (x ∷ xs) f =
      let moved : off + 1 + length xs ≡ off + length (x ∷ xs) = omega arith in
      one_more (off % n == k) x _ _ (if (off + length (x ∷ xs)) % n == k then f ∷ [] else []) (
        subst
          (λ m.
            lane n k (off + 1) (xs ++ f ∷ [])
            ≡ lane n k (off + 1) xs ++ (if m % n == k then f ∷ [] else []))
          moved (lane-append n k (off + 1) xs f))

  get_or-set_ne :
      (qs : List (LockingQueue A)) (i j : ℕ) (q : LockingQueue A)
      → i ≢ j
      → get_or (set qs i q) j no_queue ≡ get_or qs j no_queue
  get_or-set_ne [] i j q ne = refl
  get_or-set_ne (x ∷ qs) zero zero q ne = absurd (ne refl)
  get_or-set_ne (x ∷ qs) zero (suc j) q ne = refl
  get_or-set_ne (x ∷ qs) (suc i) zero q ne = refl
  get_or-set_ne (x ∷ qs) (suc i) (suc j) q ne = get_or-set_ne qs i j q (λ e. ne (ap suc e))

  push_round-first :
      (f : A) (offset n left : ℕ) (qs : List (LockingQueue A))
      → 0 < left
      → push_round always f offset n left 0 qs
        ≡ some (
            set qs
              (slot offset 0 n)
              (record { queue = (get_or qs (slot offset 0 n) no_queue).queue ++ f ∷ [] }))
  unfolding push_round try_push
  push_round-first f offset n zero qs pos = absurd (omega (arith, pos))
  push_round-first f offset n (suc left) qs pos = refl

  pop_round-first :
      (f : A) (rest : List A) (offset n left : ℕ) (qs : List (LockingQueue A))
      → 0 < left
      → (get_or qs (slot offset 0 n) no_queue).queue ≡ f ∷ rest
      → pop_round always offset n left 0 qs
        ≡ some (f, set qs (slot offset 0 n) (record { queue = rest }))
  unfolding pop_round try_pop
  pop_round-first f rest offset n zero qs pos e = absurd (omega (arith, pos))
  pop_round-first f rest offset n (suc left) qs pos e = rw (pop_round, try_pop, e)

  -- The lanes after a push into queue `p % n`, and after a pop from queue `off % n`.
  push-lanes :
      (qs : List (LockingQueue A)) (n p off : ℕ) (xs : List A) (f : A)
      → p % n < length qs
      → p ≡ off + length xs
      → ((k : ℕ) → (get_or qs k no_queue).queue ≡ lane n k off xs)
      → (k : ℕ)
      → (get_or
          (set qs (p % n) (record { queue = (get_or qs (p % n) no_queue).queue ++ f ∷ [] }))
          k
          no_queue).queue
        ≡ lane n k off (xs ++ f ∷ [])
  push-lanes qs n p off xs f small e h k = elim (ℕ_discrete (p % n) k) [
    | yes here ↦
        subst
          (λ j.
            (get_or
              (set qs (p % n) (record { queue = (get_or qs (p % n) no_queue).queue ++ f ∷ [] })) j
              no_queue).queue
            ≡ lane n j off (xs ++ f ∷ []))
          here
          (rw (
            get_or-set_self qs (p % n)
                (record { queue = (get_or qs (p % n) no_queue).queue ++ f ∷ [] }) no_queue small,
            lane-append n (p % n) off xs f,
            eq_test ((off + length xs) % n) (p % n) (ap (λ m. m % n) (sym e)),
            h (p % n),
          ))
    | no apart ↦
        rw
          (
            get_or-set_ne qs (p % n) k
                (record { queue = (get_or qs (p % n) no_queue).queue ++ f ∷ [] }) apart,
            lane-append n k off xs f,
            ne_test ((off + length xs) % n) k (λ same. apart (ap (λ m. m % n) e ∙ same)),
            append-nil,
          )
          (h k)
  ]

  pop-lanes :
      (qs : List (LockingQueue A)) (n off : ℕ) (x : A) (xs : List A)
      → off % n < length qs
      → ((k : ℕ) → (get_or qs k no_queue).queue ≡ lane n k off (x ∷ xs))
      → (k : ℕ)
      → (get_or
          (set qs (off % n) (record { queue = lane n (off % n) (off + 1) xs }))
          k
          no_queue).queue
        ≡ lane n k (off + 1) xs
  unfolding lane
  pop-lanes qs n off x xs small h k = elim (ℕ_discrete (off % n) k) [
    | yes here ↦
        subst
          (λ j.
            (get_or (set qs (off % n) (record { queue = lane n (off % n) (off + 1) xs })) j
              no_queue).queue
            ≡ lane n j (off + 1) xs)
          here
          (ap (λ q. q.queue)
            (get_or-set_self qs (off % n) (record { queue = lane n (off % n) (off + 1) xs })
              no_queue small))
    | no apart ↦
        rw (get_or-set_ne qs (off % n) k (record { queue = lane n (off % n) (off + 1) xs }) apart)
          (h k ∙ rw (ne_test (off % n) k apart) refl)
  ]

  -- A push, and a pop of a queue that is not empty.
  pub push-IsFifo :
      (f : A) (q : StealingQueue A) (xs : List A)
      → IsFifo q xs
      → q.push_index + 1 < 2 ^ 32
      → (q' : StealingQueue A) × (push (λ r. always) 1 f q ≡ some (true, q'))
        × IsFifo q' (xs ++ f ∷ [])
        × (q'.push_index ≡ q.push_index + 1)
  unfolding push push_loop
  push-IsFifo f q xs v small =
      let at : ℕ = q.push_index % q.n_queues in
      let queues' : List (LockingQueue A) =
        set q.queues at (record { queue = (get_or q.queues at no_queue).queue ++ f ∷ [] }) in
      let fits : q.push_index < 2 ^ 32 = omega (arith, small) in
      let inside : at < length q.queues = rw v.sized (mod-lt _ v.some_queue) in
      (
        leave_push
            (record (enter_push q) { push_index = u32 (q.push_index + 1); queues = queues' }),
        rw (
          v.live,
          push_loop,
          push_round-first f q.push_index q.n_queues q.n_queues q.queues v.some_queue,
          slot-first q.push_index q.n_queues fits,
          enter_push,
          v.live,
        ),
        record {
          sized = length-set q.queues at _ ∙ v.sized;
          some_queue = v.some_queue;
          live = v.live;
          aligned = omega (arith, v.aligned, length-append xs (f ∷ []), small);
          lanes =
              push-lanes q.queues q.n_queues q.push_index q.pop_index xs f inside v.aligned v.lanes;
        },
        omega (arith, small),
      )

  pub steal-IsFifo :
      (x : A) (q : StealingQueue A) (xs : List A)
      → IsFifo q (x ∷ xs)
      → q.push_index < 2 ^ 32
      → (q' : StealingQueue A) × (steal always q ≡ (some x, q'))
        × IsFifo q' xs
        × (q'.push_index ≡ q.push_index)
  unfolding steal lane
  steal-IsFifo x q xs v small =
      let at : ℕ = q.pop_index % q.n_queues in
      let rest : List A = lane q.n_queues at (q.pop_index + 1) xs in
      let inside : at < length q.queues = rw v.sized (mod-lt _ v.some_queue) in
      (
        record q {
          pop_index = q.pop_index + 1;
          queues = set q.queues at (record { queue = rest });
        },
        rw (
          steal,
          pop_round-first x rest q.pop_index q.n_queues q.n_queues q.queues v.some_queue head,
          slot-first q.pop_index q.n_queues fits,
          bump,
        ),
        record {
          sized = length-set q.queues at _ ∙ v.sized;
          some_queue = v.some_queue;
          live = v.live;
          aligned = omega (arith, v.aligned);
          lanes = pop-lanes q.queues q.n_queues q.pop_index x xs inside v.lanes;
        },
        refl,
      )
    where
      fits : q.pop_index < 2 ^ 32
      fits = omega (arith, v.aligned, small)

      bump : u32 (q.pop_index + 1) ≡ q.pop_index + 1
      bump = omega (arith, v.aligned, small)

      head :
          (get_or q.queues (slot q.pop_index 0 q.n_queues) no_queue).queue
          ≡ x ∷ lane q.n_queues (q.pop_index % q.n_queues) (q.pop_index + 1) xs
      head =
          rw (slot-first q.pop_index q.n_queues fits, v.lanes (q.pop_index % q.n_queues))
            (rw (eq_test (q.pop_index % q.n_queues) (q.pop_index % q.n_queues) refl) refl)
