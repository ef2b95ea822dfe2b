-- ===== src/Queue/Pop.antt =====
-- `try_pop` takes one thunk out of one queue, and nothing else.
use mathlib.Core.List.{Perm}
use grpc_p.Base.{
  ℕ, zero, suc, ◌+◌, ◌-◌, ◌%◌, ◌^◌, ◌≤◌, ◌<◌, ◌≡◌, ◌≢◌, ◌↔◌, ◌⊎◌, refl, sym, ◌∙◌, subst, Bool, true,
  Option, none, some, List, [], ◌∷◌, arith, inl, inr, length, length-set, get_or, set, ℕ_discrete,
  Bool-cases, Option-cases,
}
use grpc_p.Queue.Locking.{LockingQueue, try_pop}
use grpc_p.Queue.Content.{contents, contents-pop, contents-nil, nil-contents}
use grpc_p.Queue.Stealing.{StealingQueue, u32, slot, no_queue, pop_round, steal}
use grpc_p.Queue.Push.{IsValid}
use grpc_p.Queue.Probe.{slot-surjective, slot-misses}

List-cases {ℓ} : {A : Type ℓ} (xs : List A) → (xs ≡ []) ⊎ ((x : A) × (r : List A) × (xs ≡ x ∷ r))
List-cases [] = inl refl
List-cases (x ∷ r) = inr (x, r, refl)

module _ {ℓ} {A : Type ℓ} where
  abbrev Takes : List (LockingQueue A) → Option (A × List (LockingQueue A)) → Type ℓ
  Takes qs none = Unit
  Takes qs (some (f, qs')) = Perm (contents qs) (f ∷ contents qs') × (length qs' ≡ length qs)

  -- The queue that try `i` of a round meets.
  abbrev met : List (LockingQueue A) → ℕ → ℕ → ℕ → List A
  met qs offset n i = (get_or qs (slot offset i n) no_queue).queue

  pop_round-Takes :
      (locks : ℕ → Bool) (offset n left i : ℕ) (qs : List (LockingQueue A))
      → Takes qs (pop_round locks offset n left i qs)
  unfolding pop_round try_pop
  pop_round-Takes locks offset n zero i qs = tt
  pop_round-Takes locks offset n (suc left) i qs = elim (Bool-cases (locks i)) [
    | inl got ↦ elim (List-cases (met qs offset n i)) [
      | inl e ↦ rw (got, e, pop_round, try_pop) (pop_round-Takes locks offset n left (suc i) qs)
      | inr (f, rest, e) ↦
          rw (got, e, pop_round, try_pop)
            (contents-pop qs (slot offset i n) f rest e, length-set qs _ _)
    ]
    | inr busy ↦ rw (busy, pop_round, try_pop) (pop_round-Takes locks offset n left (suc i) qs)
  ]

  pop_round-nothing :
      (locks : ℕ → Bool) (offset n left i : ℕ) (qs : List (LockingQueue A))
      → met qs offset n i ≡ []
      → pop_round locks offset n (suc left) i qs ≡ pop_round locks offset n left (suc i) qs
  unfolding pop_round try_pop
  pop_round-nothing locks offset n left i qs e = elim (Bool-cases (locks i)) [
    | inl got ↦ rw (got, e, pop_round, try_pop) refl
    | inr busy ↦ rw (busy, pop_round, try_pop) refl
  ]

  pop_round-something :
      (locks : ℕ → Bool) (offset n left i : ℕ) (qs : List (LockingQueue A)) (f : A) (rest : List A)
      → locks i ≡ true
      → met qs offset n i ≡ f ∷ rest
      → pop_round locks offset n (suc left) i qs
        ≡ some (f, set qs (slot offset i n) (record { queue = rest }))
  unfolding pop_round try_pop
  pop_round-something locks offset n left i qs f rest got e = rw (got, e, pop_round, try_pop) refl

  -- Where every try gets its lock and none finds a thunk, the queues met were empty.
  pop_round-met :
      (locks : ℕ → Bool) (offset n left i j : ℕ) (qs : List (LockingQueue A))
      → ((k : ℕ) → locks k ≡ true)
      → i ≤ j
      → j < i + left
      → pop_round locks offset n left i qs ≡ none
      → met qs offset n j ≡ []
  pop_round-met locks offset n zero i j qs all lo hi e = absurd (omega arith)
  pop_round-met locks offset n (suc left) i j qs all lo hi e =
      elim (List-cases (met qs offset n i)) [
        | inl nothing ↦ elim (ℕ_discrete i j) [
          | yes here ↦ rw (← here) nothing
          | no later ↦
              pop_round-met locks offset n left (suc i) j qs all (omega arith) (omega arith)
                (sym (pop_round-nothing locks offset n left i qs nothing) ∙ e)
        ]
        | inr (f, rest, some_thunk) ↦
            cc (pop_round-something locks offset n left i qs f rest (all i) some_thunk)
      ]

  -- Where the queues that a round meets are empty, it takes nothing, whatever the locks.
  pop_round-none :
      (locks : ℕ → Bool) (offset n left i : ℕ) (qs : List (LockingQueue A))
      → ((j : ℕ) → i ≤ j → j < i + left → met qs offset n j ≡ [])
      → pop_round locks offset n left i qs ≡ none
  unfolding pop_round
  pop_round-none locks offset n zero i qs h = refl
  pop_round-none locks offset n (suc left) i qs h =
      pop_round-nothing locks offset n left i qs (h i (omega arith) (omega arith))
      ∙ pop_round-none locks offset n left (suc i) qs (λ j lo hi. h j (omega arith) (omega arith))

  -- The result of `try_pop`: nothing taken and the queues as they were, or one thunk fewer.
  abbrev pub Steals : StealingQueue A → Option A × StealingQueue A → Type ℓ
  Steals q (none, q') = q'.queues ≡ q.queues
  Steals q (some f, q') =
      Perm (contents q.queues) (f ∷ contents q'.queues) × (length q'.queues ≡ length q.queues)

  -- Whatever the locks, `try_pop` either takes nothing and leaves the queues alone, or hands over one
  -- thunk that they held, and they hold what else they held, each as often.
  pub steal-Steals : (locks : ℕ → Bool) (q : StealingQueue A) → Steals q (steal locks q)
  unfolding steal
  steal-Steals locks q =
      let takes = pop_round-Takes locks q.pop_index q.n_queues q.n_queues 0 q.queues in
      elim (Option-cases (pop_round locks q.pop_index q.n_queues q.n_queues 0 q.queues)) [
        | inl e ↦ rw (e, steal) refl
        | inr ((f, qs), e) ↦
            let t : Takes q.queues (some (f, qs)) = rw e at takes in rw (e, steal) t
      ]

  -- The rest of the queue is as it was.
  pub steal-IsValid :
      (locks : ℕ → Bool) (q : StealingQueue A)
      → IsValid q
      → IsValid (steal locks q).1 × ((steal locks q).1.in_push ≡ q.in_push)
  unfolding steal
  steal-IsValid locks q v =
      let takes = pop_round-Takes locks q.pop_index q.n_queues q.n_queues 0 q.queues in
      elim (Option-cases (pop_round locks q.pop_index q.n_queues q.n_queues 0 q.queues)) [
        | inl e ↦ rw (e, steal) (kept q.queues v.sized, refl)
        | inr ((f, qs), e) ↦
            let t : Takes q.queues (some (f, qs)) = rw e at takes in
            rw (e, steal) (kept qs (t.1 ∙ v.sized), refl)
      ]
    where
      kept :
          (qs : List (LockingQueue A))
          → length qs ≡ q.n_queues
          → IsValid (record q { pop_index = u32 (q.pop_index + 1); queues = qs })
      kept qs sized = record {
        sized = sized;
        some_queue = v.some_queue;
        small = v.small;
        counted = v.counted;
        push_fits = v.push_fits;
        pop_fits = omega arith;
      }

  steal-none :
      (locks : ℕ → Bool) (q : StealingQueue A)
      → ((steal locks q).0 ≡ none)
        ↔ (pop_round locks q.pop_index q.n_queues q.n_queues 0 q.queues ≡ none)
  unfolding steal
  steal-none locks q = ground arith

  -- On a well-formed queue, where every try gets its lock and the 32-bit index does not wrap within
  -- the round, `try_pop` takes nothing exactly when no queue holds a thunk.
  pub steal-none_iff :
      (locks : ℕ → Bool) (q : StealingQueue A)
      → IsValid q
      → q.pop_index + q.n_queues ≤ 2 ^ 32
      → ((k : ℕ) → locks k ≡ true)
      → ((steal locks q).0 ≡ none) ↔ (contents q.queues ≡ [])
  steal-none_iff locks q v fits all = (missed, nothing)
    where
      missed : (steal locks q).0 ≡ none → contents q.queues ≡ []
      missed e = contents-nil q.queues λ k small.
          let (j, near, at_k) =
            slot-surjective q.pop_index q.n_queues k (omega (arith, v.sized)) fits in
          subst (λ s. (get_or q.queues s no_queue).queue ≡ []) at_k
            (pop_round-met locks q.pop_index q.n_queues q.n_queues 0 j q.queues all (omega arith)
              (omega arith) ((steal-none locks q).0 e))

      nothing : contents q.queues ≡ [] → (steal locks q).0 ≡ none
      nothing e = (steal-none locks q).1 (
          pop_round-none locks q.pop_index q.n_queues q.n_queues 0 q.queues
            (λ j lo hi. nil-contents q.queues _ e))

  -- At the last 32-bit index a round wraps. If the number of queues is below 2^32 and does not
  -- divide it, `try_pop` then does not look at the last queue: with the others empty it takes
  -- nothing, whatever the locks and whatever the last queue holds.
  pub steal_misses_last :
      (locks : ℕ → Bool) (q : StealingQueue A)
      → 2 ^ 32 % q.n_queues ≢ 0
      → q.n_queues < 2 ^ 32
      → q.pop_index ≡ 2 ^ 32 - 1
      → ((k : ℕ) → k ≢ q.n_queues - 1 → (get_or q.queues k no_queue).queue ≡ [])
      → (steal locks q).0 ≡ none
  steal_misses_last locks q odd small last others = (steal-none locks q).1 (
      pop_round-none locks q.pop_index q.n_queues q.n_queues 0 q.queues
        λ j lo hi. others _ (rw last (slot-misses q.n_queues j odd small (omega arith))))
