-- ===== src/Server/Handler/Safety.antt =====
-- What the handlers of a queue are promised, in every reachable state.
use grpc_p.Base.{
  ℕ, suc, ◌+◌, ◌≤◌, ◌<◌, ◌≡◌, refl, ap, Bool, some, List, [], ◌∷◌, ◌++◌, map, length, get_elem?,
  arith, inl, inr,
}
use grpc_p.Base.Rows.{total, count}
use grpc_p.Server.Handler.{LogicResult, Object, handler, World, complete, asked}
use grpc_p.Server.Handler.Steps.{Phase, entered, bound, marked, Task, System, advance, Reach}
use grpc_p.Server.Handler.Invariant.{
  live, waiting, deletes, replies, Given, reply_to, tag_of, busy, is_bound, due, Object-cases,
  alone,
}
use grpc_p.Server.Handler.Moves.{Reach-Inv}

-- With no handler alive, none waits.
none-waiting : (os : List Object) → ((i : ℕ) → live (get_elem? os i) ≡ 0) → total waiting os ≡ 0
unfolding total
none-waiting [] h = refl
none-waiting (o ∷ os) h = ground (arith, h 0, none-waiting os (λ i. h (suc i)))

module _ {ℓ κ} {Req : Type ℓ} {Resp : Type κ} (logic : Req → LogicResult Resp) (empty : Resp)
    {s : System Req Resp} (r : Reach logic empty s) where
  -- In every reachable state, however the workers and gRPC have taken turns: for each tag, the
  -- operations outstanding and the calls of `complete` that have not returned are together one while
  -- its handler exists, and none otherwise; each such call, however far it is, finds its handler when
  -- it goes on; and so would a whole call for an outstanding operation, with either flag and any
  -- request.
  pub Reach-no_fault :
      ((tag : ℕ)
        → asked tag s.world.calls + total (busy logic empty tag) s.tasks
          ≡ count tag s.answered + live (get_elem? s.world.objects tag))
      × ((xs ys : List (Task Req)) (t : Task Req)
          → s.tasks ≡ xs ++ t ∷ ys
          → (next : World Resp × List (Task Req)) × (advance logic empty t s.world ≡ some next))
      × ((tag : ℕ) (is_okay : Bool) (request : Req)
          → count tag s.answered < asked tag s.world.calls
          → (w' : World Resp) × (complete empty tag is_okay (logic request) s.world ≡ some w'))
  unfolding complete advance
  Reach-no_fault =
      let inv = Reach-Inv logic empty r in
      (
        inv.pending,
        λ xs ys t at.
            let (b, e) = (alone logic empty xs ys t at inv).object in advances t.tag t.phase b e,
        λ tag is_okay request h. elim (Object-cases (get_elem? s.world.objects tag)) [
          | inl dead ↦ absurd (omega (arith, inv.pending tag, dead))
          | inr (b, e) ↦ rw (e, complete) (_, refl)
        ],
      )
    where
      advances :
          (tag : ℕ) (p : Phase Req) (b : Bool)
          → get_elem? s.world.objects tag ≡ some (handler b)
          → (next : World Resp × List (Task Req)) × (advance logic empty
                (record { tag = tag; phase = p })
                s.world
              ≡ some next)
      advances tag (entered is_okay request) b e = rw (e, advance) (_, refl)
      advances tag (bound request) b e = rw (e, advance) (_, refl)
      advances tag (marked request) b e = rw (e, advance) (_, refl)

  -- In every reachable state, however the workers and gRPC have taken turns: the answers given,
  -- together with those that calls of `complete` have taken a request for and have yet to give, are
  -- the answers of the logic to the requests taken, each with the tag of its handler, in some order
  -- (they weigh the same under every weight of answers); no handler has taken two requests; and of
  -- the handlers whose flag is not set, one is there besides those between the making of the next
  -- handler and their flag, unless gRPC has refused its bind and it has been deleted.
  pub Reach-replied :
      ((weight : Given logic empty → ℕ)
        → total weight (replies s.world.calls) + total (due logic empty weight) s.tasks
          ≡ total weight (map (reply_to logic empty) s.requests))
      × ((tag : ℕ) → count tag (map (tag_of logic empty) s.requests) ≤ 1)
      × (total waiting s.world.objects + s.refused ≡ 1 + total (is_bound logic empty) s.tasks)
  Reach-replied =
      let inv = Reach-Inv logic empty r in
      (
        inv.replied,
        λ tag. ground (arith, inv.once tag, inv.freed tag, inv.unmarked tag),
        inv.one_waits,
      )

  -- In every reachable state in which no operation is outstanding and no worker is in `complete`:
  -- each handler that was made has been deleted once, there was one more than requests, and gRPC has
  -- refused one bind.
  pub Reach-all_freed :
      ((tag : ℕ) → asked tag s.world.calls ≡ count tag s.answered)
      → s.tasks ≡ []
      → ((tag : ℕ) → tag < length s.world.objects → deletes tag s.world.calls ≡ 1)
        × (length s.world.objects ≡ 1 + length s.requests)
        × (s.refused ≡ 1)
  unfolding total
  Reach-all_freed settled idle =
      let inv = Reach-Inv logic empty r in
      (
        λ tag small. ground (arith, inv.freed tag, dead tag),
        inv.made,
        omega (
          arith,
          inv.one_waits,
          ap (total (is_bound logic empty)) idle,
          none-waiting s.world.objects dead,
        ),
      )
    where
      dead : (i : ℕ) → live (get_elem? s.world.objects i) ≡ 0
      dead i = omega (
        arith,
        (Reach-Inv logic empty r).pending i,
        settled i,
        ap (total (busy logic empty i)) idle,
      )
