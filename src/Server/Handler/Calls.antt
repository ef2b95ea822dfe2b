-- ===== src/Server/Handler/Calls.antt =====
-- The deletion of a handler, and the making of the next one, keep what holds of the handlers of a queue.
use grpc_p.Base.{
  ℕ, suc, ◌+◌, ◌<◌, ◌≡◌, ap, Bool, true, false, some, List, [], ◌∷◌, ◌++◌, length, length-set,
  length-append, get_elem?, set, arith, if◌then◌else◌, ◌==◌, get_elem?-set, get_elem?-append_one,
  get_elem?-lt, get_elem?-ge,
}
use grpc_p.Base.Rows.{total, total-set, total-append, total-insert}
use grpc_p.Server.Handler.{LogicResult, handler, deleted, new_handler, delete_this}
use grpc_p.Server.Handler.Steps.{entered, bound, Task, System}
use grpc_p.Server.Handler.Invariant.{waiting, busy, is_bound, bound_at, due, Inv, alone}

module _ {ℓ κ} {Req : Type ℓ} {Resp : Type κ} (logic : Req → LogicResult Resp) (empty : Resp) where
  -- How a sum over the calls changes when a call among them goes on.
  pub sum_at :
      (s : System Req Resp) (xs ys : List (Task Req)) (t : Task Req)
      → s.tasks ≡ xs ++ t ∷ ys
      → (w : Task Req → ℕ) → total w s.tasks ≡ total w (xs ++ ys) + w t
  sum_at s xs ys t at w = omega (arith, ap (total w) at, total-insert w xs t ys)

  -- A handler is deleted.
  pub delete-Inv :
      (s : System Req Resp) (xs ys : List (Task Req)) (tag : ℕ) (is_okay : Bool) (request : Req)
      (b : Bool)
      → Inv logic empty s
      → s.tasks ≡ xs ++ record { tag = tag; phase = entered is_okay request } ∷ ys
      → get_elem? s.world.objects tag ≡ some (handler b)
      → (n : ℕ) → n ≡ (if b then s.refused else suc s.refused)
      → Inv logic empty
          (record s { world = delete_this tag s.world; tasks = xs ++ ys; refused = n })
  unfolding delete_this
  delete-Inv s xs ys tag is_okay request b inv at e n counted = record {
    pending = λ i. ground (arith, inv.pending i, changed i, sum (busy logic empty i), e);
    returned = inv.returned;
    one_waits = ground (
      arith,
      inv.one_waits,
      counted,
      sum (is_bound logic empty),
      total-set waiting s.world.objects tag (handler b) deleted e,
    );
    unmarked = λ i. ground (
      arith,
      inv.unmarked i,
      changed i,
      sum (bound_at logic empty i),
      (alone logic empty xs ys _ at inv).no_other,
    );
    freed = λ i. ground (arith, inv.freed i, changed i, e, length-set s.world.objects tag deleted);
    replied = λ w. omega (arith, inv.replied w, sum (due logic empty w));
    once = λ i. ground (arith, inv.once i, changed i, sum (bound_at logic empty i), e);
    made = omega (arith, inv.made, length-set s.world.objects tag deleted);
  }
    where
      changed :
          (i : ℕ)
          → get_elem? (set s.world.objects tag deleted) i
            ≡ (if tag == i then some deleted else get_elem? s.world.objects i)
      changed i = get_elem?-set s.world.objects tag i (handler b) deleted e

      sum :
          (w : Task Req → ℕ)
          → total w s.tasks
            ≡ total w (xs ++ ys) + w (record { tag = tag; phase = entered is_okay request })
      sum w = sum_at s xs ys _ at w

  -- A handler takes its request, and the next handler is made.
  pub bind-Inv :
      (s : System Req Resp) (xs ys : List (Task Req)) (tag : ℕ) (request : Req)
      → Inv logic empty s
      → s.tasks ≡ xs ++ record { tag = tag; phase = entered true request } ∷ ys
      → get_elem? s.world.objects tag ≡ some (handler false)
      → Inv logic empty (record s {
        world = new_handler s.world;
        tasks = xs ++ record { tag = tag; phase = bound request } ∷ ys;
        requests = (tag, request) ∷ s.requests;
      })
  unfolding new_handler total
  bind-Inv s xs ys tag request inv at e = record {
    pending = λ i. ground (
      arith,
      inv.pending i,
      added i,
      get_elem?-ge s.world.objects i,
      old (busy logic empty i),
      new (busy logic empty i),
    );
    returned = λ i. ground (arith, inv.returned i);
    one_waits = omega (
      arith,
      inv.one_waits,
      old (is_bound logic empty),
      new (is_bound logic empty),
      total-append waiting s.world.objects (handler false ∷ []),
    );
    unmarked = λ i. ground (
      arith,
      inv.unmarked i,
      added i,
      get_elem?-ge s.world.objects i,
      old (bound_at logic empty i),
      new (bound_at logic empty i),
      (alone logic empty xs ys _ at inv).no_other,
      below,
      e,
    );
    freed = λ i. ground (arith, inv.freed i, added i, get_elem?-ge s.world.objects i, longer);
    replied = λ w. omega (arith, inv.replied w, old (due logic empty w), new (due logic empty w));
    once = λ i. ground (
      arith,
      inv.once i,
      inv.freed i,
      added i,
      get_elem?-ge s.world.objects i,
      old (bound_at logic empty i),
      new (bound_at logic empty i),
      below,
      e,
    );
    made = omega (arith, inv.made, longer);
  }
    where
      added :
          (i : ℕ)
          → get_elem? (s.world.objects ++ handler false ∷ []) i ≡ (
              if length s.world.objects == i
              then some (handler false)
              else get_elem? s.world.objects i)
      added i = get_elem?-append_one s.world.objects (handler false) i

      below : tag < length s.world.objects
      below = get_elem?-lt s.world.objects tag (handler false) e

      longer : length (s.world.objects ++ handler false ∷ []) ≡ length s.world.objects + 1
      longer = omega (arith, length-append s.world.objects (handler false ∷ []))

      old :
          (w : Task Req → ℕ)
          → total w s.tasks
            ≡ total w (xs ++ ys) + w (record { tag = tag; phase = entered true request })
      old w = sum_at s xs ys _ at w

      new :
          (w : Task Req → ℕ)
          → total w (xs ++ record { tag = tag; phase = bound request } ∷ ys)
            ≡ total w (xs ++ ys) + w (record { tag = tag; phase = bound request })
      new w = total-insert w xs _ ys
