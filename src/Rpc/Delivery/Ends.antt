-- ===== src/Rpc/Delivery/Ends.antt =====
-- A completion queue that is at its end stays there, and what it means that all are.
use grpc_p.Base.{
  ℕ, ◌+◌, ◌-◌, ◌≤◌, ◌<◌, ◌≡◌, ◌↔◌, refl, sym, ap, subst, Bool, true, false, Option, List, [], ◌∷◌,
  set, get_or, length, if◌then◌else◌, ◌==◌, arith,
}
use grpc_p.Base.Rows.{total, total-insert, count, one_if_self}
use grpc_p.Context.Post.{get_next_cq, call_on_next}
use grpc_p.Context.Lifecycle.{run_while}
use grpc_p.Rpc.Signal.{Exception}
use grpc_p.Rpc.Wrapped.{Converted}
use grpc_p.Rpc.Once.{Answer}
use grpc_p.Rpc.Shared.Starts.{completed}
use grpc_p.Rpc.Delivery.{
  CompletionQueue, new_queue, entered, allowed, refused, made, declined, Stop, not_begun, waiting,
  halting, State, begin_start, begin_stop, make_inflight, go_on, halt_one, get_from, get_event,
  complete_event, Step, starts, posts_on, runs, stops, waited, halts, answers, gets, completes,
}
use grpc_p.Rpc.Delivery.Queues.{
  get_or-set, total_at, total_zero, count-insert, among, in_flight, AtEnd,
}
use grpc_p.Rpc.Delivery.Invariant.{is_allowed, undecided, halted, is_halting, Inv}

halting_is : (st : Stop) (n : ℕ) → 0 < n → halted st ≡ n → st ≡ halting n
halting_is not_begun n some e = absurd (omega (arith, e))
halting_is waiting n some e = absurd (omega (arith, e))
halting_is (halting m) n some e = ap halting e

AtEnd-set :
    {V : Type 0} (qs : List (CompletionQueue V)) (k j : ℕ) (q : CompletionQueue V)
    → k < length qs
    → (k ≡ j → AtEnd q)
    → AtEnd (get_or qs j new_queue)
    → AtEnd (get_or (set qs k q) j new_queue)
AtEnd-set qs k j q small same end =
    subst AtEnd (sym (get_or-set qs k j q new_queue small)) (by_test (k == j) refl)
  where
    by_test : (b : Bool) → (k == j) ≡ b → AtEnd (if b then q else get_or qs j new_queue)
    by_test true e = same (ground (arith, e))
    by_test false e = end

module _ {R V : Type 0} where
  -- The stop has shut every queue down, and each RPC that was started has told its receiver, or a worker
  -- holds its event, or its start has yet to make an InflightRpc or to tell of the refusal.
  pub record Told (s : State R V) : Type 0 where
    pub halted_all : s.stop ≡ halting s.context.cqs
    pub all_told :
        (i : ℕ)
        → completed i s.sent + among i s.held + total (undecided i) s.posts ≡ count i s.started

  abbrev pub AllEnd : State R V → Type 0
  AllEnd s = (j : ℕ) → j < length s.cqs → AtEnd (get_or s.cqs j new_queue)

  pub ends_iff : {s : State R V} → Inv s → AllEnd s ↔ Told s
  ends_iff {s} inv = (
    λ h. record {
      halted_all = halting_is s.stop s.context.cqs inv.some_queue (
          ground (
            arith,
            inv.sized,
            inv.some_queue,
            inv.shut_within,
            inv.shut_so_far (length s.cqs - 1) (omega (arith, inv.sized, inv.some_queue)),
            (h (length s.cqs - 1) (omega (arith, inv.sized, inv.some_queue))).0,
          ));
      all_told = λ i. omega (
        arith,
        inv.kept i,
        total_zero (in_flight i) new_queue s.cqs (λ j small. (h j small).1 i),
      );
    },
    λ told j small. (
      ground (arith, inv.shut_so_far j small, inv.sized, ap halted told.halted_all),
      λ i.
          total_at (in_flight i) new_queue s.cqs j small
            (omega (arith, inv.kept i, told.all_told i)),
    ),
  )

  -- No call is made any more once a queue is at its end.
  pub none_allowed :
      {s : State R V} (j : ℕ)
      → Inv s
      → j < length s.cqs
      → AtEnd (get_or s.cqs j new_queue)
      → 1 ≤ is_halting s.stop
  none_allowed {s} j inv small end = begun s.stop (ground (arith, inv.shut_so_far j small, end.0))
    where
      begun : (st : Stop) → 1 ≤ halted st → 1 ≤ is_halting st
      begun not_begun h = absurd (omega (arith, h))
      begun waiting h = absurd (omega (arith, h))
      begun (halting n) h = omega arith

module _ {R V : Type 0} (is_void : Bool) (throws : Option R → Option Exception)
    (convert : V → Converted R) where
  AtEnd-get :
      (es : List (ℕ × Answer V)) (k j : ℕ) (s : State R V)
      → (get_or s.cqs k new_queue).answered ≡ es
      → k < length s.cqs
      → AtEnd (get_or s.cqs j new_queue)
      → AtEnd (get_or (get_from is_void throws convert es k s).cqs j new_queue)
  unfolding get_from
  AtEnd-get [] k j s e small end = end
  AtEnd-get ((op, a) ∷ es) k j s e small end =
      AtEnd-set s.cqs k j (record (get_or s.cqs k new_queue) { answered = es }) small
        (λ same. absurd (
          omega (
            arith,
            ap (among op) e,
            ap (λ i. in_flight op (get_or s.cqs i new_queue)) same,
            end.1 op,
            one_if_self op,
          )))
        end

  pub Step-AtEnd :
      {s t : State R V} (j : ℕ)
      → Step is_void throws convert s t
      → Inv s
      → j < length s.cqs
      → AtEnd (get_or s.cqs j new_queue)
      → AtEnd (get_or t.cqs j new_queue)
  unfolding begin_start begin_stop go_on halt_one get_event complete_event
  Step-AtEnd j (starts op near) inv small end = end
  Step-AtEnd j (posts_on xs ys op entered at) inv small end = end
  Step-AtEnd {s} j (posts_on xs ys op allowed at) inv small end = absurd (
      omega (
        arith,
        inv.none_late (none_allowed j inv small end),
        ap (total is_allowed) at,
        total-insert is_allowed xs (op, allowed) ys,
      ))
  Step-AtEnd j (posts_on xs ys op refused at) inv small end = end
  Step-AtEnd j (posts_on xs ys op made at) inv small end = end
  Step-AtEnd j (posts_on xs ys op declined at) inv small end = end
  Step-AtEnd j runs inv small end = end
  Step-AtEnd j stops inv small end = end
  Step-AtEnd j (waited e none_within) inv small end = end
  Step-AtEnd {s} j (halts k e below) inv small end =
      AtEnd-set s.cqs k j _ (omega (arith, below, inv.sized))
        (λ same. (
          refl,
          λ i. omega (arith, ap (λ n. in_flight i (get_or s.cqs n new_queue)) same, end.1 i),
        ))
        end
  Step-AtEnd {s} j (answers k xs ys op a below e) inv small end =
      AtEnd-set s.cqs k j _ (omega (arith, below, inv.sized))
        (λ same. absurd (
          omega (
            arith,
            ap (count op) e,
            count-insert op op xs ys,
            ap (λ i. in_flight op (get_or s.cqs i new_queue)) same,
            end.1 op,
            one_if_self op,
          )))
        end
  Step-AtEnd {s} j (gets k below) inv small end =
      AtEnd-get (get_or s.cqs k new_queue).answered k j s refl (omega (arith, below, inv.sized)) end
  Step-AtEnd j (completes xs ys e at) inv small end = end

  get_from-context :
      (es : List (ℕ × Answer V)) (k : ℕ) (s : State R V)
      → (get_from is_void throws convert es k s).context ≡ s.context
  unfolding get_from
  get_from-context [] k s = refl
  get_from-context (e ∷ es) k s = refl

  -- A context keeps its number of queues.
  pub Step-cqs : {s t : State R V} → Step is_void throws convert s t → t.context.cqs ≡ s.context.cqs
  unfolding begin_start begin_stop go_on make_inflight call_on_next get_next_cq halt_one get_event
      complete_event run_while
  Step-cqs (starts op near) = refl
  Step-cqs (posts_on xs ys op entered at) = refl
  Step-cqs (posts_on xs ys op allowed at) = refl
  Step-cqs (posts_on xs ys op refused at) = refl
  Step-cqs (posts_on xs ys op made at) = refl
  Step-cqs (posts_on xs ys op declined at) = refl
  Step-cqs runs = ground arith
  Step-cqs stops = refl
  Step-cqs (waited e none_within) = refl
  Step-cqs (halts k e below) = refl
  Step-cqs (answers k xs ys op a below e) = refl
  Step-cqs {s} (gets k below) =
      ap (λ c. c.cqs) (get_from-context (get_or s.cqs k new_queue).answered k s)
  Step-cqs (completes xs ys e at) = refl
