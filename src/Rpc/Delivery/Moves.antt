-- ===== src/Rpc/Delivery/Moves.antt =====
-- Every step keeps what holds of the RPCs.
use grpc_p.Base.{
  ℕ, ◌+◌, ◌≤◌, ◌<◌, ◌≡◌, refl, sym, ap, subst, Bool, true, false, Option, List, [], ◌∷◌, ◌++◌, some,
  set, get_or, length, length-set, if◌then◌else◌, arith, inl, inr,
}
use grpc_p.Base.Rows.{total, total_mono, count}
use grpc_p.Context.State.{set_state, can_post, can_post-stop, can_post-keep, shutting_down, running}
use grpc_p.Context.Defs.{ExecutionContext}
use grpc_p.Context.Lifecycle.{run_while}
use grpc_p.Rpc.Signal.{Exception}
use grpc_p.Rpc.Wrapped.{Converted}
use grpc_p.Rpc.Once.{Answer}
use grpc_p.Rpc.Shared.{answer_call}
use grpc_p.Rpc.Shared.Starts.{completed-append, answer_call-some}
use grpc_p.Rpc.Delivery.{
  CompletionQueue, new_queue, shut_down, Phase, entered, allowed, refused, made, declined, Stop,
  not_begun, waiting, halting, State, begin_stop, halt_one, get_from, get_event, complete_event,
  Step, starts, posts_on, runs, stops, waited, halts, answers, gets, completes, Run, here, later,
}
use grpc_p.Rpc.Delivery.Queues.{
  total-set_or, get_or-set, count-insert, among, among-append, among-insert, in_flight, open_one,
}
use grpc_p.Rpc.Delivery.Invariant.{in_post, is_allowed, halted, is_halting, has_begun, Inv}
use grpc_p.Rpc.Delivery.Posts.{start-Inv, go_on-Inv}

module _ {R V : Type 0} (is_void : Bool) (throws : Option R → Option Exception)
    (convert : V → Converted R) where
  can_post-run :
      (c : ExecutionContext (Unit {0}) ℕ) → can_post (run_while c).state ≡ can_post c.state
  unfolding run_while set_state
  can_post-run c = ground (arith, can_post-keep running c.state (inl refl))

  run-Inv : (s : State R V) → Inv s → Inv (record s { context = run_while s.context })
  unfolding run_while set_state
  run-Inv s inv = record {
    sized = ground (arith, inv.sized);
    some_queue = ground (arith, inv.some_queue);
    kept = inv.kept;
    counted = ground (arith, inv.counted);
    few = inv.few;
    stopping = λ h. ground (arith, inv.stopping h, can_post-run s.context);
    none_late = inv.none_late;
    shut_so_far = inv.shut_so_far;
    shut_within = inv.shut_within;
  }

  stop-Inv : (s : State R V) → Inv s → Inv (begin_stop is_void throws convert s)
  unfolding begin_stop
  stop-Inv s inv = by_test (set_state shutting_down s.context.state).0 refl
    where
      after : Bool → State R V
      after b = record s {
        context = record s.context { state = (set_state shutting_down s.context.state).1 };
        stop = if b then waiting else s.stop;
      }

      not_halted : (st : Stop) → (1 ≤ has_begun st → true ≡ false) → halted st ≡ 0
      not_halted not_begun h = refl
      not_halted waiting h = refl
      not_halted (halting n) h = absurd (cc (h (omega arith)))

      by_test :
          (b : Bool)
          → (set_state shutting_down s.context.state).0 ≡ b
          → Inv (after (set_state shutting_down s.context.state).0)
      by_test true e =
          subst (λ c. Inv (after c)) (sym e)
            (record {
              sized = inv.sized;
              some_queue = inv.some_queue;
              kept = inv.kept;
              counted = inv.counted;
              few = inv.few;
              stopping = λ h. (can_post-stop s.context.state e).1;
              none_late = λ h. absurd (omega (arith, h));
              shut_so_far = λ j small. ground (arith, inv.shut_so_far j small, none_halted);
              shut_within = omega arith;
            })
        where
          none_halted : halted s.stop ≡ 0
          none_halted =
              not_halted s.stop (λ h. cc (inv.stopping h, (can_post-stop s.context.state e).0))
      by_test false e =
          subst (λ c. Inv (after c)) (sym e)
            (record {
              sized = inv.sized;
              some_queue = inv.some_queue;
              kept = inv.kept;
              counted = inv.counted;
              few = inv.few;
              stopping = λ h.
                  cc (inv.stopping h, can_post-keep shutting_down s.context.state (inr (inr e)));
              none_late = inv.none_late;
              shut_so_far = inv.shut_so_far;
              shut_within = inv.shut_within;
            })

  waited-Inv :
      (s : State R V)
      → s.stop ≡ waiting
      → s.context.within_cq_post ≡ 0
      → Inv s
      → Inv (record s { stop = halting 0 })
  waited-Inv s e none_within inv = record {
    sized = inv.sized;
    some_queue = inv.some_queue;
    kept = inv.kept;
    counted = inv.counted;
    few = inv.few;
    stopping = λ h. inv.stopping (omega (arith, ap has_begun e));
    none_late = λ h. omega (arith, none_within, inv.counted, inside);
    shut_so_far = λ j small. ground (arith, inv.shut_so_far j small, ap halted e);
    shut_within = omega arith;
  }
    where
      inside : total is_allowed s.posts ≤ total in_post s.posts
      inside = total_mono is_allowed in_post (λ (i, p). le_post i p) s.posts
        where
          le_post : (i : ℕ) (p : Phase) → is_allowed (i, p) ≤ in_post (i, p)
          le_post i entered = omega arith
          le_post i allowed = omega arith
          le_post i refused = omega arith
          le_post i made = omega arith
          le_post i declined = omega arith

  halt-Inv :
      (j : ℕ) (s : State R V)
      → s.stop ≡ halting j
      → j < s.context.cqs
      → Inv s
      → Inv (halt_one is_void throws convert j s)
  unfolding halt_one
  halt-Inv j s e small inv = record {
    sized = omega (arith, inv.sized, length-set s.cqs j q);
    some_queue = inv.some_queue;
    kept = λ i. omega (arith, inv.kept i, total-set_or (in_flight i) new_queue s.cqs j q below);
    counted = inv.counted;
    few = inv.few;
    stopping = λ h. inv.stopping (omega (arith, ap has_begun e));
    none_late = λ h. inv.none_late (omega (arith, ap is_halting e));
    shut_so_far = λ k within. ground (
      arith,
      inv.shut_so_far k (omega (arith, within, length-set s.cqs j q)),
      ap halted e,
      ap open_one (get_or-set s.cqs j k q new_queue below),
    );
    shut_within = omega (arith, below, length-set s.cqs j q);
  }
    where
      q : CompletionQueue V
      q = shut_down (get_or s.cqs j new_queue)

      below : j < length s.cqs
      below = omega (arith, small, inv.sized)

  -- What is in a queue and what workers hold changes, and receivers are told.
  queue-Inv :
      (s : State R V) (j : ℕ) (q : CompletionQueue V) (es : List (ℕ × Answer V))
      → j < s.context.cqs
      → open_one q ≡ open_one (get_or s.cqs j new_queue)
      → ((i : ℕ)
          → in_flight i q + among i es ≡ in_flight i (get_or s.cqs j new_queue) + among i s.held)
      → Inv s
      → Inv (record s { cqs = set s.cqs j q; held = es })
  queue-Inv s j q es small same moved inv = record {
    sized = omega (arith, inv.sized, length-set s.cqs j q);
    some_queue = inv.some_queue;
    kept = λ i.
        omega (arith, inv.kept i, moved i, total-set_or (in_flight i) new_queue s.cqs j q below);
    counted = inv.counted;
    few = inv.few;
    stopping = inv.stopping;
    none_late = inv.none_late;
    shut_so_far = λ k within. ground (
      arith,
      inv.shut_so_far k (omega (arith, within, length-set s.cqs j q)),
      same,
      ap open_one (get_or-set s.cqs j k q new_queue below),
    );
    shut_within = omega (arith, inv.shut_within, length-set s.cqs j q);
  }
    where
      below : j < length s.cqs
      below = omega (arith, small, inv.sized)

  get-Inv :
      (es : List (ℕ × Answer V)) (j : ℕ) (s : State R V)
      → (get_or s.cqs j new_queue).answered ≡ es
      → j < s.context.cqs
      → Inv s
      → Inv (get_from is_void throws convert es j s)
  unfolding get_from
  get-Inv [] j s e small inv = inv
  get-Inv ((op, a) ∷ es) j s e small inv =
      queue-Inv s j (record (get_or s.cqs j new_queue) { answered = es }) ((op, a) ∷ s.held) small
        refl (λ i. omega (arith, ap (among i) e)) inv

  complete-Inv :
      (xs ys : List (ℕ × Answer V)) (e : ℕ × Answer V) (s : State R V)
      → s.held ≡ xs ++ e ∷ ys
      → Inv s
      → Inv (complete_event is_void throws convert e (xs ++ ys) s)
  unfolding complete_event
  complete-Inv xs ys (op, a) s at inv = record {
    sized = inv.sized;
    some_queue = inv.some_queue;
    kept = λ i. omega (
      arith,
      inv.kept i,
      completed-append i s.sent (answer_call is_void throws convert (some op) a),
      answer_call-some is_void throws convert i op a,
      ap (among i) at,
      among-insert i xs (op, a) ys,
    );
    counted = inv.counted;
    few = inv.few;
    stopping = inv.stopping;
    none_late = inv.none_late;
    shut_so_far = inv.shut_so_far;
    shut_within = inv.shut_within;
  }

  pub Step-Inv : {s t : State R V} → Step is_void throws convert s t → Inv s → Inv t
  unfolding get_event
  Step-Inv {s} (starts op near) inv = start-Inv is_void throws convert op s near inv
  Step-Inv {s} (posts_on xs ys op p at) inv = go_on-Inv is_void throws convert xs ys op s p at inv
  Step-Inv {s} runs inv = run-Inv s inv
  Step-Inv {s} stops inv = stop-Inv s inv
  Step-Inv {s} (waited e none_within) inv = waited-Inv s e none_within inv
  Step-Inv {s} (halts j e small) inv = halt-Inv j s e small inv
  Step-Inv {s} (answers j xs ys op a small e) inv =
      queue-Inv s j
        (record (get_or s.cqs j new_queue) {
          waiting = xs ++ ys;
          answered = (get_or s.cqs j new_queue).answered ++ (op, a) ∷ [];
        })
        s.held small refl
        (λ i. omega (
          arith,
          ap (count i) e,
          count-insert i op xs ys,
          among-append i (get_or s.cqs j new_queue).answered ((op, a) ∷ []),
        ))
        inv
  Step-Inv {s} (gets j small) inv = get-Inv (get_or s.cqs j new_queue).answered j s refl small inv
  Step-Inv {s} (completes xs ys e at) inv = complete-Inv xs ys e s at inv

  pub Run-Inv : {s t : State R V} → Run is_void throws convert s t → Inv s → Inv t
  Run-Inv here inv = inv
  Run-Inv (later r st) inv = Step-Inv st (Run-Inv r inv)
