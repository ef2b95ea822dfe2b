-- ===== src/Queue/Bag/Refines.antt =====
-- The task queue does what the bag of Queue/Bag allows.
use mathlib.Core.Quot
use grpc_p.Base.{
  ℕ, suc, ◌+◌, ◌^◌, ◌≤◌, ◌<◌, ◌≡◌, refl, ap, ◌∙◌, subst, Bool, true, false, Option, none, some,
  List, [], ◌∷◌, arith, length-replicate,
}
use grpc_p.Queue.Stealing.{StealingQueue, u32, no_queue, make, push, steal}
use grpc_p.Queue.Content.{contents, contents-replicate}
use grpc_p.Queue.Push.{IsValid, Pushes, push-Pushes}
use grpc_p.Queue.Pop.{Steals, steal-Steals, steal-IsValid, steal-none_iff}
use grpc_p.Queue.Drain.{stop_and_eject-Drained, stop_and_eject-kept}
use grpc_p.Queue.Bag.{
  put, Op, submit, fetch, close, Answer, submitted, fetched, closed, perform, perform_all, empty,
  Allowed, accept, refuse, hand_over, miss, drain, AllAllowed, none_left, one_more, view, Fair,
  fetches,
}

module _ {ℓ} {A : Type ℓ} where
  -- A well-formed queue in which no push is under way, and whose index has room for more fetches.
  record Rests (room : ℕ) (q : StealingQueue A) : Type 0 where
    valid : IsValid q
    idle : q.in_push ≡ 0
    roomy : q.pop_index + room + q.n_queues ≤ 2 ^ 32

  -- One call that returns, with an answer that is allowed.
  record Returns (n room : ℕ) (op : Op A) (q : StealingQueue A) : Type ℓ where
    answer : Answer A
    after : StealingQueue A
    runs : perform op q ≡ some (answer, after)
    allowed : Allowed (view q) op answer (view after)
    rests : Rests room after
    same_size : after.n_queues ≡ q.n_queues

  push-Returns :
      (locks : ℕ → ℕ → Bool) (fuel r i : ℕ) (x : A) (room : ℕ) (q : StealingQueue A)
      → Rests room q
      → r < fuel
      → i < q.n_queues
      → locks r i ≡ true
      → Returns q.n_queues room (submit locks fuel x) q
  unfolding perform view put
  push-Returns locks fuel r i x room q v in_time small got =
      let (b, q', e, p) = push-Pushes locks x fuel r i q v.valid in_time small got in from b q' e p
    where
      from :
          (b : Bool) (q' : StealingQueue A)
          → push locks fuel x q ≡ some (b, q')
          → Pushes x q b q'
          → Returns q.n_queues room (submit locks fuel x) q
      from true q' e (live, g) = record {
        answer = submitted true;
        after = q';
        runs = rw (perform, e) refl;
        allowed = accept live (λ i. record { bag = Quot.sound g.added i; is_closed = g.is_done i });
        rests = record {
          valid = record {
            sized = omega (arith, g.sized, g.n_queues, v.valid.sized);
            some_queue = omega (arith, g.n_queues, v.valid.some_queue);
            small = omega (arith, g.n_queues, v.valid.small);
            counted = omega (arith, g.in_push, v.valid.counted);
            push_fits = g.push_fits;
            pop_fits = omega (arith, g.pop_index, v.valid.pop_fits);
          };
          idle = omega (arith, g.in_push, v.idle);
          roomy = omega (arith, g.pop_index, g.n_queues, v.roomy);
        };
        same_size = g.n_queues;
      }
      from false q' e (done, same) = record {
        answer = submitted false;
        after = q';
        runs = rw (perform, e) refl;
        allowed = refuse done (ap view same);
        rests = rw same v;
        same_size = ap (λ (p : StealingQueue A). p.n_queues) same;
      }

  steal-kept :
      (locks : ℕ → Bool) (q : StealingQueue A)
      → ((steal locks q).1.pop_index ≡ u32 (q.pop_index + 1))
        × ((steal locks q).1.n_queues ≡ q.n_queues)
        × ((steal locks q).1.is_done ≡ q.is_done)
  unfolding steal
  steal-kept locks q = ground arith

  steal-Returns :
      (locks : ℕ → Bool) (room : ℕ) (q : StealingQueue A)
      → Rests (suc room) q
      → Returns q.n_queues room (fetch locks) q
  unfolding perform view put
  steal-Returns locks room q v = record {
    answer = fetched (steal locks q).0;
    after = (steal locks q).1;
    runs = refl;
    allowed = from (steal locks q).0 (steal locks q).1 refl (steal-Steals locks q) (kept.2);
    rests = record {
      valid = (steal-IsValid locks q v.valid).0;
      idle = omega (arith, (steal-IsValid locks q v.valid).1, v.idle);
      roomy = omega (arith, kept.0, kept.1, v.roomy, v.valid.some_queue);
    };
    same_size = kept.1;
  }
    where
      kept :
          ((steal locks q).1.pop_index ≡ u32 (q.pop_index + 1))
          × ((steal locks q).1.n_queues ≡ q.n_queues)
          × ((steal locks q).1.is_done ≡ q.is_done)
      kept = steal-kept locks q

      from :
          (o : Option A) (q' : StealingQueue A)
          → (steal locks q).0 ≡ o
          → Steals q (o, q')
          → q'.is_done ≡ q.is_done
          → Allowed (view q) (fetch locks) (fetched o) (view q')
      from (some x) q' e (p, sized) done = hand_over (Quot.sound p) done
      from none q' e same done =
          miss
            (λ all. ap Quot.mk ((steal-none_iff locks q v.valid (omega (arith, v.roomy)) all).0 e))
            (λ i. record { bag = Quot.mk (contents (same i)); is_closed = done i })

  stop_and_eject-Returns :
      (room : ℕ) (q : StealingQueue A) → Rests room q → Returns q.n_queues room close q
  unfolding perform view
  stop_and_eject-Returns room q v =
      let (q', e, d) = stop_and_eject-Drained 0 q v.valid v.idle in
      let kept = stop_and_eject-kept 0 q v.idle e in
      record {
        answer = closed (contents q.queues);
        after = q';
        runs = rw (perform, e) refl;
        allowed = drain refl (λ i. record { bag = Quot.mk (d.empty i); is_closed = d.done i });
        rests = record {
          valid = d.valid;
          idle = omega (arith, kept.1, v.idle);
          roomy = omega (arith, kept.0, kept.2, v.roomy);
        };
        same_size = kept.0;
      }

  -- A history, call by call.
  record AllReturn (ops : List (Op A)) (q : StealingQueue A) : Type ℓ where
    answers : List (Answer A)
    after : StealingQueue A
    runs : perform_all ops q ≡ some (answers, after)
    allowed : AllAllowed (view q) ops answers (view after)

  after_one :
      {n room : ℕ} {op : Op A} {ops : List (Op A)} {q : StealingQueue A} (c : Returns n room op q)
      → AllReturn ops c.after
      → AllReturn (op ∷ ops) q
  unfolding perform_all
  after_one c rest = record {
    answers = c.answer ∷ rest.answers;
    after = rest.after;
    runs = rw (perform_all, c.runs, rest.runs) refl;
    allowed = one_more c.allowed rest.allowed;
  }

  all_return :
      (n : ℕ) (ops : List (Op A)) (q : StealingQueue A)
      → q.n_queues ≡ n
      → Fair n ops
      → Rests (fetches ops) q
      → AllReturn ops q
  unfolding perform_all
  all_return n [] q size fair v = record {
    answers = [];
    after = q;
    runs = refl;
    allowed = none_left refl;
  }
  all_return n (submit locks fuel x ∷ ops) q size ((r, i, in_time, small, got), fair) v =
      let c = push-Returns locks fuel r i x (fetches ops) q v in_time (omega (arith, size)) got in
      after_one c (all_return n ops c.after (c.same_size ∙ size) fair c.rests)
  all_return n (fetch locks ∷ ops) q size fair v =
      let c = steal-Returns locks (fetches ops) q v in
      after_one c (all_return n ops c.after (c.same_size ∙ size) fair c.rests)
  all_return n (close ∷ ops) q size fair v =
      let c = stop_and_eject-Returns (fetches ops) q v in
      after_one c (all_return n ops c.after (c.same_size ∙ size) fair c.rests)

  -- A new task queue with at least one inner queue, used by one call at a time, whatever locks its tries
  -- find free, as long as each push gets some lock within its fuel, and with few enough calls of
  -- `try_pop` that the 32-bit index does not wrap: every call returns, and each answer is one that a bag
  -- of thunks allows which forgets their order. That is: a push is accepted and adds its thunk until the
  -- queue is closed, and is refused from then on; `try_pop` hands over a thunk of the bag, or misses, but
  -- only if the bag is empty or a lock was not free; `stop_and_eject` hands over all of the bag and closes it.
  pub perform_all-AllAllowed :
      (n : ℕ) (ops : List (Op A))
      → 0 < n
      → fetches ops + n ≤ 2 ^ 32
      → n < 2 ^ 32
      → Fair n ops
      → (answers : List (Answer A)) × (after : StealingQueue A) × (perform_all ops (make n)
          ≡ some (answers, after))
        × AllAllowed (record { bag = empty; is_closed = false }) ops answers (view after)
  unfolding view make
  perform_all-AllAllowed n ops some_queue roomy small fair =
      let all = all_return n ops (make n) refl fair (record {
        valid = record {
          sized = length-replicate n no_queue;
          some_queue = some_queue;
          small = small;
          counted = omega arith;
          push_fits = omega arith;
          pop_fits = omega arith;
        };
        idle = refl;
        roomy = omega arith;
      }) in
      (
        all.answers,
        all.after,
        all.runs,
        subst
            (λ (xs : List A).
              AllAllowed (record { bag = Quot.mk xs; is_closed = false }) ops all.answers
                (view all.after))
            (contents-replicate n) all.allowed,
      )
