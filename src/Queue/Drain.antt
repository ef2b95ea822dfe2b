-- ===== src/Queue/Drain.antt =====
-- `stop_and_eject` with no push in progress hands over every thunk and shuts the queue.
use mathlib.Core.List.{append_assoc, append-nil}
use grpc_p.Base.{
  ℕ, zero, suc, ◌+◌, ◌≤◌, ◌<◌, ◌≡◌, refl, sym, ◌∙◌, ap, true, some, none, lt→ltb, List, [], ◌∷◌,
  ◌++◌, arith, length, length-set, get_or, set, ℕ_discrete,
}
use grpc_p.Queue.Locking.{LockingQueue, eject}
use grpc_p.Queue.Content.{contents, contents-nil}
use grpc_p.Queue.Stealing.{
  StealingQueue, signal_done, no_queue, eject_all, drain_loop, stop_and_eject,
}
use grpc_p.Queue.Push.{IsValid}

module _ {ℓ} {A : Type ℓ} where
  -- The queues from `i` on, as one list, for `left` of them.
  rest_of : ℕ → ℕ → List (LockingQueue A) → List A
  rest_of zero i qs = []
  rest_of (suc left) i qs = (get_or qs i no_queue).queue ++ rest_of left (suc i) qs

  -- Emptying an earlier queue does not show later.
  get_or-set_lt :
      (qs : List (LockingQueue A)) (i j : ℕ) (q : LockingQueue A)
      → i < j
      → get_or (set qs i q) j no_queue ≡ get_or qs j no_queue
  get_or-set_lt [] i j q h = refl
  get_or-set_lt (x ∷ qs) i zero q h = elim h [ ]
  get_or-set_lt (x ∷ qs) zero (suc j) q h = refl
  get_or-set_lt (x ∷ qs) (suc i) (suc j) q h = get_or-set_lt qs i j q (omega arith)

  get_or-set_ne :
      (qs : List (LockingQueue A)) (i j : ℕ)
      → j < i
      → get_or (set qs i no_queue) j no_queue ≡ get_or qs j no_queue
  get_or-set_ne [] i j h = refl
  get_or-set_ne (x ∷ qs) zero j h = elim h [ ]
  get_or-set_ne (x ∷ qs) (suc i) zero h = refl
  get_or-set_ne (x ∷ qs) (suc i) (suc j) h = get_or-set_ne qs i j (omega arith)

  get_or-set_empty :
      (qs : List (LockingQueue A)) (i : ℕ) → (get_or (set qs i no_queue) i no_queue).queue ≡ []
  get_or-set_empty [] i = refl
  get_or-set_empty (x ∷ qs) zero = refl
  get_or-set_empty (x ∷ qs) (suc i) = get_or-set_empty qs i

  rest_of-set :
      (left j i : ℕ) (qs : List (LockingQueue A)) (q : LockingQueue A)
      → i < j
      → rest_of left j (set qs i q) ≡ rest_of left j qs
  unfolding rest_of
  rest_of-set zero j i qs q h = refl
  rest_of-set (suc left) j i qs q h =
      rw (get_or-set_lt qs i j q h, rest_of-set left (suc j) i qs q (omega arith))

  eject_all-thunks :
      (left i : ℕ) (qs : List (LockingQueue A)) (thunks : List A)
      → (eject_all left i qs thunks).0 ≡ thunks ++ rest_of left i qs
  unfolding eject_all eject rest_of
  eject_all-thunks zero i qs thunks = sym (append-nil thunks)
  eject_all-thunks (suc left) i qs thunks =
      eject_all-thunks left (suc i) (set qs i no_queue) (thunks ++ (get_or qs i no_queue).queue)
      ∙ rw (rest_of-set left (suc i) i qs no_queue (omega arith))
          (append_assoc thunks (get_or qs i no_queue).queue (rest_of left (suc i) qs))

  rest_of-suc :
      (left i : ℕ) (q : LockingQueue A) (qs : List (LockingQueue A))
      → rest_of left (suc i) (q ∷ qs) ≡ rest_of left i qs
  unfolding rest_of
  rest_of-suc zero i q qs = refl
  rest_of-suc (suc left) i q qs =
      ap (◌++◌ (get_or qs i no_queue).queue) (rest_of-suc left (suc i) q qs)

  rest_of-contents : (qs : List (LockingQueue A)) → rest_of (length qs) 0 qs ≡ contents qs
  unfolding rest_of
  rest_of-contents [] = refl
  rest_of-contents (q ∷ qs) =
      ap (◌++◌ q.queue) (rest_of-suc (length qs) 0 q qs ∙ rest_of-contents qs)

  -- A pass that starts at `i` leaves the earlier queues alone, and the others empty.
  eject_all-before :
      (left i j : ℕ) (qs : List (LockingQueue A)) (thunks : List A)
      → j < i
      → get_or (eject_all left i qs thunks).1 j no_queue ≡ get_or qs j no_queue
  unfolding eject_all eject
  eject_all-before zero i j qs thunks h = refl
  eject_all-before (suc left) i j qs thunks h =
      eject_all-before left (suc i) j (set qs i no_queue) _ (omega arith) ∙ get_or-set_ne qs i j h

  eject_all-empty :
      (left i j : ℕ) (qs : List (LockingQueue A)) (thunks : List A)
      → i ≤ j
      → j < i + left
      → (get_or (eject_all left i qs thunks).1 j no_queue).queue ≡ []
  unfolding eject_all eject
  eject_all-empty zero i j qs thunks lo hi = absurd (omega arith)
  eject_all-empty (suc left) i j qs thunks lo hi = elim (ℕ_discrete i j) [
    | yes here ↦
        rw (← here, eject_all-before left (suc i) i (set qs i no_queue) _ (omega arith))
          (get_or-set_empty qs i)
    | no later ↦ eject_all-empty left (suc i) j (set qs i no_queue) _ (omega arith) (omega arith)
  ]

  length-eject_all :
      (left i : ℕ) (qs : List (LockingQueue A)) (thunks : List A)
      → length (eject_all left i qs thunks).1 ≡ length qs
  unfolding eject_all eject
  length-eject_all zero i qs thunks = refl
  length-eject_all (suc left) i qs thunks =
      length-eject_all left (suc i) (set qs i no_queue) _ ∙ length-set qs i no_queue

  -- What `stop_and_eject` leaves: a done queue with nothing in it.
  pub record Drained (q' : StealingQueue A) : Type ℓ where
    pub empty : contents q'.queues ≡ []
    pub done : q'.is_done ≡ true
    pub valid : IsValid q'

  emptied : StealingQueue A → StealingQueue A
  emptied q = record q { queues = (eject_all q.n_queues 0 q.queues []).1; is_done = true }

  stop_and_eject_once :
      (fuel : ℕ) (q : StealingQueue A)
      → q.in_push ≡ 0
      → stop_and_eject (suc fuel) q ≡ some ((eject_all q.n_queues 0 q.queues []).0, emptied q)
  unfolding stop_and_eject drain_loop emptied
  stop_and_eject_once fuel q idle = ground arith

  all_thunks :
      (q : StealingQueue A) → IsValid q → (eject_all q.n_queues 0 q.queues []).0 ≡ contents q.queues
  all_thunks q v =
      eject_all-thunks q.n_queues 0 q.queues [] ∙ rw (← v.sized) (rest_of-contents q.queues)

  -- On a well-formed queue with no push in progress one pass is enough: `stop_and_eject` hands over
  -- exactly what the queues held, in their order, and leaves the queue empty, done and well-formed.
  pub stop_and_eject-Drained :
      (fuel : ℕ) (q : StealingQueue A)
      → IsValid q
      → q.in_push ≡ 0
      → (q' : StealingQueue A) × (stop_and_eject (suc fuel) q ≡ some (contents q.queues, q'))
        × Drained q'
  unfolding emptied
  stop_and_eject-Drained fuel q v idle = (
    after,
    stop_and_eject_once fuel q idle ∙ ap (λ t. some (t, after)) (all_thunks q v),
    record {
      empty = contents-nil _ λ k small.
          eject_all-empty q.n_queues 0 k q.queues [] (omega arith) (omega (arith, sized));
      done = refl;
      valid = record {
        sized = sized;
        some_queue = v.some_queue;
        small = v.small;
        counted = v.counted;
        push_fits = v.push_fits;
        pop_fits = v.pop_fits;
      };
    },
  )
    where
      after : StealingQueue A
      after = emptied q

      sized : length after.queues ≡ q.n_queues
      sized = length-eject_all q.n_queues 0 q.queues [] ∙ v.sized

  -- What `stop_and_eject` leaves as it was.
  pub stop_and_eject-kept :
      (fuel : ℕ) (q : StealingQueue A) {xs : List A} {q' : StealingQueue A}
      → q.in_push ≡ 0
      → stop_and_eject (suc fuel) q ≡ some (xs, q')
      → (q'.n_queues ≡ q.n_queues) × (q'.in_push ≡ q.in_push) × (q'.pop_index ≡ q.pop_index)
  unfolding emptied
  stop_and_eject-kept fuel q idle e = ground (arith, stop_and_eject_once fuel q idle)

  drain_loop_waits :
      (fuel : ℕ) (thunks : List A) (q : StealingQueue A)
      → 0 < q.in_push
      → drain_loop fuel thunks q ≡ none
  unfolding drain_loop
  drain_loop_waits zero thunks q busy = refl
  drain_loop_waits (suc fuel) thunks q busy =
      rw (lt→ltb 0 q.in_push busy) (drain_loop_waits fuel _ _ busy)

  -- While a push is in progress that no other thread ends, `stop_and_eject` does not return.
  stop_and_eject_waits :
      (fuel : ℕ) (q : StealingQueue A) → 0 < q.in_push → stop_and_eject fuel q ≡ none
  unfolding stop_and_eject
  stop_and_eject_waits fuel q busy = drain_loop_waits fuel [] (signal_done q) busy
