-- ===== src/Server/Handler/Moves.antt =====
-- Every step of the handlers of a queue keeps what holds of them.
use grpc_p.Base.{
  ℕ, suc, ◌+◌, ◌≤◌, ◌<◌, ◌≡◌, refl, ap, sym, subst, Bool, true, false, Option, some, List, [], ◌∷◌,
  ◌++◌, length-set, get_elem?, set, arith, if◌then◌else◌, ◌==◌, get_elem?-set,
}
use grpc_p.Base.Rows.{total, total-set, total-insert, count}
use grpc_p.Server.Handler.{
  LogicResult, Object, handler, World, new_handler, delete_this, mark, finish_with, asked,
}
use grpc_p.Server.Handler.Steps.{
  Phase, entered, bound, marked, Task, System, taken, refusals, advance, Step, dequeues, proceeds,
  Reach, start, later, init,
}
use grpc_p.Server.Handler.Invariant.{waiting, waiting_at, busy, is_bound, bound_at, due, Inv, alone}
use grpc_p.Server.Handler.Calls.{sum_at, delete-Inv, bind-Inv}

module _ {ℓ κ} {Req : Type ℓ} {Resp : Type κ} (logic : Req → LogicResult Resp) (empty : Resp) where
  waiting-handler :
      (o : Option Object) (b : Bool)
      → o ≡ some (handler b)
      → 1 ≤ waiting_at o
      → o ≡ some (handler false)
  waiting-handler o false e h = e
  waiting-handler o true e h = absurd (omega (arith, h, ap waiting_at e))

  -- The flag is set.
  mark-Inv :
      (s : System Req Resp) (xs ys : List (Task Req)) (tag : ℕ) (request : Req) (b : Bool)
      → Inv logic empty s
      → s.tasks ≡ xs ++ record { tag = tag; phase = bound request } ∷ ys
      → get_elem? s.world.objects tag ≡ some (handler b)
      → Inv logic empty (record s {
        world = mark tag s.world;
        tasks = xs ++ record { tag = tag; phase = marked request } ∷ ys;
      })
  unfolding mark
  mark-Inv s xs ys tag request b inv at e0 = record {
    pending = λ i.
        ground
          (arith, inv.pending i, changed i, old (busy logic empty i), new (busy logic empty i), e);
    returned = inv.returned;
    one_waits = ground (
      arith,
      inv.one_waits,
      old (is_bound logic empty),
      new (is_bound logic empty),
      total-set waiting s.world.objects tag (handler false) (handler true) e,
    );
    unmarked = λ i. ground (
      arith,
      inv.unmarked i,
      changed i,
      old (bound_at logic empty i),
      new (bound_at logic empty i),
      (alone logic empty xs ys _ at inv).no_other,
    );
    freed = λ i.
        ground (arith, inv.freed i, changed i, e, length-set s.world.objects tag (handler true));
    replied = λ w. omega (arith, inv.replied w, old (due logic empty w), new (due logic empty w));
    once = λ i. ground (
      arith,
      inv.once i,
      changed i,
      old (bound_at logic empty i),
      new (bound_at logic empty i),
      e,
    );
    made = omega (arith, inv.made, length-set s.world.objects tag (handler true));
  }
    where
      old :
          (w : Task Req → ℕ)
          → total w s.tasks ≡ total w (xs ++ ys) + w (record { tag = tag; phase = bound request })
      old w = sum_at logic empty s xs ys _ at w

      new :
          (w : Task Req → ℕ)
          → total w (xs ++ record { tag = tag; phase = marked request } ∷ ys)
            ≡ total w (xs ++ ys) + w (record { tag = tag; phase = marked request })
      new w = total-insert w xs _ ys

      e : get_elem? s.world.objects tag ≡ some (handler false)
      e = waiting-handler _ b e0 (ground (arith, inv.unmarked tag, old (bound_at logic empty tag)))

      changed :
          (i : ℕ)
          → get_elem? (set s.world.objects tag (handler true)) i
            ≡ (if tag == i then some (handler true) else get_elem? s.world.objects i)
      changed i = get_elem?-set s.world.objects tag i (handler false) (handler true) e

  -- A request is answered.
  finish-Inv :
      (s : System Req Resp) (xs ys : List (Task Req)) (tag : ℕ) (request : Req)
      → Inv logic empty s
      → s.tasks ≡ xs ++ record { tag = tag; phase = marked request } ∷ ys
      → Inv logic empty
          (record s { world = finish_with empty tag (logic request) s.world; tasks = xs ++ ys })
  unfolding finish_with total
  finish-Inv s xs ys tag request inv at = record {
    pending = λ i. ground (arith, inv.pending i, sum (busy logic empty i));
    returned = λ i. ground (arith, inv.returned i);
    one_waits = omega (arith, inv.one_waits, sum (is_bound logic empty));
    unmarked = λ i. ground (arith, inv.unmarked i, sum (bound_at logic empty i));
    freed = inv.freed;
    replied = λ w. omega (arith, inv.replied w, sum (due logic empty w));
    once = λ i. ground (arith, inv.once i, sum (bound_at logic empty i));
    made = inv.made;
  }
    where
      sum :
          (w : Task Req → ℕ)
          → total w s.tasks ≡ total w (xs ++ ys) + w (record { tag = tag; phase = marked request })
      sum w = sum_at logic empty s xs ys _ at w

  dequeue-Inv :
      (s : System Req Resp) (tag : ℕ) (is_okay : Bool) (request : Req)
      → Inv logic empty s
      → count tag s.answered < asked tag s.world.calls
      → Inv logic empty (record s {
        answered = tag ∷ s.answered;
        tasks = record { tag = tag; phase = entered is_okay request } ∷ s.tasks;
      })
  unfolding total
  dequeue-Inv s tag is_okay request inv h = record {
    pending = λ i. ground (arith, inv.pending i);
    returned = λ i. ground (arith, inv.returned i);
    one_waits = omega (arith, inv.one_waits);
    unmarked = λ i. ground (arith, inv.unmarked i);
    freed = inv.freed;
    replied = λ w. omega (arith, inv.replied w);
    once = λ i. ground (arith, inv.once i);
    made = inv.made;
  }

  -- What holds of a result holds of the state that it is known to be.
  moved {μ} :
      (P : World Resp × List (Task Req) → Type μ) {r r' : World Resp × List (Task Req)}
      → some r ≡ some r'
      → P r
      → P r'
  moved P e p = subst P (cc e) p

  -- The same for the state that a deletion is known to lead to.
  deleted-Inv :
      (s : System Req Resp) (xs ys : List (Task Req)) (tag : ℕ) (is_okay : Bool) (request : Req)
      (b : Bool) {w' : World Resp} {rest : List (Task Req)}
      → Inv logic empty s
      → s.tasks ≡ xs ++ record { tag = tag; phase = entered is_okay request } ∷ ys
      → get_elem? s.world.objects tag ≡ some (handler b)
      → (n : ℕ) → n ≡ (if b then s.refused else suc s.refused)
      → ◌≡◌ {A = Option (World Resp × List (Task Req))}
          (some (delete_this tag s.world, []))
          (some (w', rest))
      → Inv logic empty (record s { world = w'; tasks = xs ++ (rest ++ ys); refused = n })
  deleted-Inv s xs ys tag is_okay request b inv at e n counted step =
      moved
        (λ r. Inv logic empty (record s { world = r.0; tasks = xs ++ (r.1 ++ ys); refused = n }))
        step (delete-Inv logic empty s xs ys tag is_okay request b inv at e n counted)

  proceed-Inv :
      (s : System Req Resp) (xs ys : List (Task Req)) (tag : ℕ) (p : Phase Req) (b : Bool)
      {w' : World Resp} {rest : List (Task Req)}
      → Inv logic empty s
      → s.tasks ≡ xs ++ record { tag = tag; phase = p } ∷ ys
      → get_elem? s.world.objects tag ≡ some (handler b)
      → advance logic empty (record { tag = tag; phase = p }) s.world ≡ some (w', rest)
      → Inv logic empty (record s {
        world = w';
        tasks = xs ++ (rest ++ ys);
        requests = taken p (some (handler b)) tag s.requests;
        refused = refusals p (some (handler b)) s.refused;
      })
  unfolding advance
  proceed-Inv s xs ys tag (entered false request) true inv at e step =
      deleted-Inv s xs ys tag false request true inv at e s.refused refl (rw (e, advance) at step)
  proceed-Inv s xs ys tag (entered true request) true inv at e step =
      deleted-Inv s xs ys tag true request true inv at e s.refused refl (rw (e, advance) at step)
  proceed-Inv s xs ys tag (entered false request) false inv at e step =
      deleted-Inv s xs ys tag false request false inv at e (suc s.refused) refl
        (rw (e, advance) at step)
  proceed-Inv s xs ys tag (entered true request) false inv at e step =
      moved
        (λ r. Inv logic empty (record s {
          world = r.0;
          tasks = xs ++ (r.1 ++ ys);
          requests = (tag, request) ∷ s.requests;
        }))
        (rw (e, advance) at step) (bind-Inv logic empty s xs ys tag request inv at e)
  proceed-Inv s xs ys tag (bound request) b inv at e step =
      moved (λ r. Inv logic empty (record s { world = r.0; tasks = xs ++ (r.1 ++ ys) }))
        (rw (e, advance) at step) (mark-Inv s xs ys tag request b inv at e)
  proceed-Inv s xs ys tag (marked request) b inv at e step =
      moved (λ r. Inv logic empty (record s { world = r.0; tasks = xs ++ (r.1 ++ ys) }))
        (rw (e, advance) at step) (finish-Inv s xs ys tag request inv at)

  Step-Inv : {s t : System Req Resp} → Inv logic empty s → Step logic empty s t → Inv logic empty t
  Step-Inv {s} inv (dequeues tag is_okay request h) = dequeue-Inv s tag is_okay request inv h
  Step-Inv {s} inv (proceeds xs ys t {w'} {rest} at step) =
      let (b, e) = (alone logic empty xs ys t at inv).object in
      subst
        (λ o. Inv logic empty (record s {
          world = w';
          tasks = xs ++ (rest ++ ys);
          requests = taken t.phase o t.tag s.requests;
          refused = refusals t.phase o s.refused;
        }))
        (sym e) (proceed-Inv s xs ys t.tag t.phase b inv at e step)

  init-Inv : Inv logic empty (init logic empty)
  unfolding new_handler total
  init-Inv = record {
    pending = λ i. ground arith;
    returned = λ i. ground arith;
    one_waits = omega arith;
    unmarked = λ i. ground arith;
    freed = λ i. ground arith;
    replied = λ w. refl;
    once = λ i. ground arith;
    made = omega arith;
  }

  pub Reach-Inv : {s : System Req Resp} → Reach logic empty s → Inv logic empty s
  Reach-Inv start = init-Inv
  Reach-Inv (later r st) = Step-Inv (Reach-Inv r) st
