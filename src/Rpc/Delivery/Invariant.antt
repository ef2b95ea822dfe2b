-- ===== src/Rpc/Delivery/Invariant.antt =====
-- What holds of the RPCs in every reachable state.
use grpc_p.Base.{
  ℕ, ◌+◌, ◌^◌, ◌≤◌, ◌<◌, ◌≡◌, refl, ap, if◌then◌else◌, ltb, Bool, false, Option, get_or, length,
  length-replicate, arith,
}
use grpc_p.Base.Rows.{total, total-replicate, one_if, count}
use grpc_p.Context.State.{can_post}
use grpc_p.Context.Post.{construct}
use grpc_p.Rpc.Signal.{Exception}
use grpc_p.Rpc.Wrapped.{Converted}
use grpc_p.Rpc.Shared.Starts.{completed}
use grpc_p.Rpc.Delivery.{
  new_queue, Phase, allowed, made, declined, Stop, not_begun, waiting, halting, State, init,
}
use grpc_p.Rpc.Delivery.Queues.{among, in_flight, open_one, get_or-replicate}

-- 1 for a start between the `fetch_add` and the `fetch_sub` of its post.
abbrev pub in_post : ℕ × Phase → ℕ
in_post (op, declined) = 0
in_post (op, _) = 1

-- 1 for a start whose post has found that it may make its call, and has not made it.
abbrev pub is_allowed : ℕ × Phase → ℕ
is_allowed (op, allowed) = 1
is_allowed (op, _) = 0

-- 1 for a start of `i` that has neither made an InflightRpc nor told its receiver.
abbrev pub undecided : ℕ → ℕ × Phase → ℕ
undecided i (op, made) = 0
undecided i (op, _) = one_if i op

-- How many queues the stop has shut down; and 1 from where it begins to, or is under way.
abbrev pub halted : Stop → ℕ
halted (halting n) = n
halted _ = 0

abbrev pub is_halting : Stop → ℕ
is_halting (halting n) = 1
is_halting _ = 0

abbrev pub has_begun : Stop → ℕ
has_begun not_begun = 0
has_begun _ = 1

pub begun : (st : Stop) → 1 ≤ is_halting st → 1 ≤ has_begun st
begun not_begun h = absurd (omega (arith, h))
begun waiting h = omega arith
begun (halting n) h = omega arith

module _ {R V : Type 0} where
  pub record Inv (s : State R V) : Type 0 where
    pub sized : length s.cqs ≡ s.context.cqs
    pub some_queue : 0 < s.context.cqs
    pub kept :
        (i : ℕ)
        → count i s.started
          ≡ completed i s.sent
            + total (in_flight i) s.cqs
            + among i s.held
            + total (undecided i) s.posts
    pub counted : s.context.within_cq_post ≡ total in_post s.posts
    pub few : total in_post s.posts < 2 ^ 64
    pub stopping : 1 ≤ has_begun s.stop → can_post s.context.state ≡ false
    pub none_late : 1 ≤ is_halting s.stop → total is_allowed s.posts ≡ 0
    pub shut_so_far :
        (j : ℕ)
        → j < length s.cqs
        → open_one (get_or s.cqs j new_queue) ≡ (if ltb j (halted s.stop) then 0 else 1)
    pub shut_within : halted s.stop ≤ length s.cqs

  pub init-Inv :
      (is_void : Bool) (throws : Option R → Option Exception) (convert : V → Converted R)
      (n_threads number_cqs : ℕ)
      → 0 < number_cqs
      → Inv (init is_void throws convert n_threads number_cqs)
  unfolding construct total
  init-Inv is_void throws convert n_threads number_cqs some_queue = record {
    sized = length-replicate number_cqs new_queue;
    some_queue = some_queue;
    kept = λ i. omega (arith, total-replicate (in_flight i) number_cqs new_queue refl);
    counted = refl;
    few = omega arith;
    stopping = λ h. absurd (omega (arith, h));
    none_late = λ h. refl;
    shut_so_far =
        λ j small. ground (arith, ap open_one (get_or-replicate number_cqs j (new_queue {V = V})));
    shut_within = omega arith;
  }
