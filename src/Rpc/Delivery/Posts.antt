-- ===== src/Rpc/Delivery/Posts.antt =====
-- A start of an RPC, at each of its parts, keeps what holds of the RPCs.
use native.Mathlib.Nat.{mod-lt}
use grpc_p.Base.{
  ℕ, ◌+◌, ◌^◌, ◌≤◌, ◌<◌, ◌≡◌, refl, sym, ap, subst, Bool, true, false, Option, List, [], ◌∷◌, ◌++◌,
  get_or, length, length-set, if◌then◌else◌, arith,
}
use grpc_p.Base.Rows.{total, total-insert, total-le-length}
use grpc_p.Context.State.{can_post}
use grpc_p.Context.Post.{leave_post, get_next_cq, call_on_next}
use grpc_p.Rpc.Signal.{Exception}
use grpc_p.Rpc.Wrapped.{Converted, after_post}
use grpc_p.Rpc.Shared.{to}
use grpc_p.Rpc.Shared.Starts.{completed-append}
use grpc_p.Rpc.Delivery.{
  CompletionQueue, new_queue, Phase, entered, allowed, refused, made, declined, State, begin_start,
  make_inflight, go_on,
}
use grpc_p.Rpc.Delivery.Queues.{total-set_or, get_or-set, in_flight, open_one}
use grpc_p.Rpc.Delivery.Invariant.{in_post, is_allowed, undecided, has_begun, begun, Inv}

module _ {R V : Type 0} (is_void : Bool) (throws : Option R → Option Exception)
    (convert : V → Converted R) where
  pub start-Inv :
      (op : ℕ) (s : State R V)
      → length s.posts + 1 < 2 ^ 64
      → Inv s
      → Inv (begin_start is_void throws convert op s)
  unfolding begin_start total
  start-Inv op s near inv = record {
    sized = inv.sized;
    some_queue = inv.some_queue;
    kept = λ i. omega (arith, inv.kept i);
    counted = omega (arith, inv.counted, fits);
    few = omega (arith, fits);
    stopping = inv.stopping;
    none_late = λ h. omega (arith, inv.none_late h);
    shut_so_far = inv.shut_so_far;
    shut_within = inv.shut_within;
  }
    where
      fits : total in_post s.posts ≤ length s.posts
      fits = total-le-length in_post (λ (i, p). le_one i p) s.posts
        where
          le_one : (i : ℕ) (p : Phase) → in_post (i, p) ≤ 1
          le_one i entered = omega arith
          le_one i allowed = omega arith
          le_one i refused = omega arith
          le_one i made = omega arith
          le_one i declined = omega arith

  module _ (xs ys : List (ℕ × Phase)) (op : ℕ) (s : State R V) where
    -- How a sum over the starts changes when one of them goes on.
    before :
        (p : Phase) (w : ℕ × Phase → ℕ)
        → s.posts ≡ xs ++ (op, p) ∷ ys
        → total w s.posts ≡ total w (xs ++ ys) + w (op, p)
    before p w at = omega (arith, ap (total w) at, total-insert w xs (op, p) ys)

    -- The state is tested.
    tested-Inv :
        (p : Phase)
        → s.posts ≡ xs ++ (op, entered) ∷ ys
        → in_post (op, p) ≡ 1
        → ((i : ℕ) → undecided i (op, p) ≡ undecided i (op, entered))
        → (1 ≤ has_begun s.stop → is_allowed (op, p) ≡ 0)
        → Inv s
        → Inv (record s { posts = xs ++ (op, p) ∷ ys })
    tested-Inv p at inside same safe inv = record {
      sized = inv.sized;
      some_queue = inv.some_queue;
      kept = λ i. omega (
        arith,
        inv.kept i,
        same i,
        before entered (undecided i) at,
        total-insert (undecided i) xs (op, p) ys,
      );
      counted = omega (
        arith,
        inv.counted,
        inside,
        before entered in_post at,
        total-insert in_post xs (op, p) ys,
      );
      few =
          omega
            (arith, inv.few, inside, before entered in_post at, total-insert in_post xs (op, p) ys);
      stopping = inv.stopping;
      none_late = λ h. omega (
        arith,
        inv.none_late h,
        safe (begun s.stop h),
        before entered is_allowed at,
        total-insert is_allowed xs (op, p) ys,
      );
      shut_so_far = inv.shut_so_far;
      shut_within = inv.shut_within;
    }

    -- The call is made.
    made-Inv :
        s.posts ≡ xs ++ (op, allowed) ∷ ys
        → Inv s
        → Inv (record (make_inflight is_void throws convert op s) { posts = xs ++ (op, made) ∷ ys })
    unfolding make_inflight call_on_next get_next_cq
    made-Inv at inv = record {
      sized = omega (arith, inv.sized, length-set s.cqs j q);
      some_queue = inv.some_queue;
      kept = λ i. ground (
        arith,
        inv.kept i,
        total-set_or (in_flight i) new_queue s.cqs j q small,
        before allowed (undecided i) at,
        total-insert (undecided i) xs (op, made) ys,
      );
      counted =
          omega
            (arith, inv.counted, before allowed in_post at, total-insert in_post xs (op, made) ys);
      few =
          omega (arith, inv.few, before allowed in_post at, total-insert in_post xs (op, made) ys);
      stopping = inv.stopping;
      none_late = λ h. absurd (omega (arith, inv.none_late h, before allowed is_allowed at));
      shut_so_far = λ k below. ground (
        arith,
        inv.shut_so_far k (omega (arith, below, length-set s.cqs j q)),
        inv.shut_so_far j small,
        ap open_one (get_or-set s.cqs j k q new_queue small),
      );
      shut_within = omega (arith, inv.shut_within, length-set s.cqs j q);
    }
      where
        j : ℕ
        j = (get_next_cq s.context).0

        q : CompletionQueue V
        q = let q0 = get_or s.cqs j new_queue in record q0 { waiting = op ∷ q0.waiting }

        small : j < length s.cqs
        small = omega (arith, inv.sized, mod-lt s.context.next_cq_write_index inv.some_queue)

    -- The post is left, with `rest` of the start.
    left-Inv :
        (p : Phase) (rest : List (ℕ × Phase))
        → s.posts ≡ xs ++ (op, p) ∷ ys
        → in_post (op, p) ≡ 1
        → ((w : ℕ × Phase → ℕ) → total w (xs ++ (rest ++ ys)) ≡ total w (xs ++ ys) + total w rest)
        → total in_post rest ≡ 0
        → total is_allowed rest ≡ 0
        → ((i : ℕ) → total (undecided i) rest ≡ undecided i (op, p))
        → Inv s
        → Inv (record s { context = leave_post s.context; posts = xs ++ (rest ++ ys) })
    left-Inv p rest at inside sum out safe same inv = record {
      sized = inv.sized;
      some_queue = inv.some_queue;
      kept = λ i. omega (arith, inv.kept i, same i, before p (undecided i) at, sum (undecided i));
      counted = omega (arith, inv.counted, inv.few, inside, out, before p in_post at, sum in_post);
      few = omega (arith, inv.few, inside, out, before p in_post at, sum in_post);
      stopping = inv.stopping;
      none_late = λ h. omega (arith, inv.none_late h, safe, before p is_allowed at, sum is_allowed);
      shut_so_far = inv.shut_so_far;
      shut_within = inv.shut_within;
    }

    -- The receiver is told of a refusal.
    told-Inv :
        s.posts ≡ xs ++ (op, declined) ∷ ys
        → Inv s
        → Inv (record s {
          sent = s.sent ++ to is_void throws convert op (after_post is_void throws false);
          posts = xs ++ ys;
        })
    unfolding after_post
    told-Inv at inv = record {
      sized = inv.sized;
      some_queue = inv.some_queue;
      kept = λ i. omega (
        arith,
        inv.kept i,
        before declined (undecided i) at,
        completed-append i s.sent (to is_void throws convert op (after_post is_void throws false)),
      );
      counted = omega (arith, inv.counted, before declined in_post at);
      few = omega (arith, inv.few, before declined in_post at);
      stopping = inv.stopping;
      none_late = λ h. omega (arith, inv.none_late h, before declined is_allowed at);
      shut_so_far = inv.shut_so_far;
      shut_within = inv.shut_within;
    }

    pub go_on-Inv :
        (p : Phase)
        → s.posts ≡ xs ++ (op, p) ∷ ys
        → Inv s
        → Inv (record (go_on is_void throws convert op p s).0 {
          posts = xs ++ ((go_on is_void throws convert op p s).1 ++ ys);
        })
    unfolding go_on total
    go_on-Inv entered at inv = by_test (can_post s.context.state) refl
      where
        by_test :
            (b : Bool)
            → can_post s.context.state ≡ b
            → Inv (record s {
              posts = xs ++ (op, (if can_post s.context.state then allowed else refused)) ∷ ys;
            })
        by_test true e =
            subst
              (λ c. Inv (record s { posts = xs ++ (op, (if c then allowed else refused)) ∷ ys }))
              (sym e)
              (tested-Inv allowed at refl (λ i. refl)
                (λ h. absurd (ground (arith, inv.stopping h, e))) inv)
        by_test false e =
            subst
              (λ c. Inv (record s { posts = xs ++ (op, (if c then allowed else refused)) ∷ ys }))
              (sym e) (tested-Inv refused at refl (λ i. refl) (λ h. refl) inv)
    go_on-Inv allowed at inv = made-Inv at inv
    go_on-Inv refused at inv =
        left-Inv refused ((op, declined) ∷ []) at refl
          (λ w. omega (arith, total-insert w xs (op, declined) ys, single w))
          (omega (arith, single in_post)) (omega (arith, single is_allowed))
          (λ i. omega (arith, single (undecided i))) inv
      where
        single : (w : ℕ × Phase → ℕ) → total w ((op, declined) ∷ []) ≡ w (op, declined)
        single w = omega arith
    go_on-Inv made at inv =
        left-Inv made [] at refl (λ w. omega (arith, nothing w)) (nothing in_post)
          (nothing is_allowed) (λ i. nothing (undecided i)) inv
      where
        nothing : (w : ℕ × Phase → ℕ) → total w [] ≡ 0
        nothing w = refl
    go_on-Inv declined at inv = told-Inv at inv
