-- ===== src/Server/Handler/Steps.antt =====
-- server_rpc_handler.hpp: the handlers of one completion queue, which any number of workers execute at the
-- same time. A worker that gRPC has handed a tag is somewhere in `complete` of that handler; each step is
-- one part of that call, up to what another worker or gRPC can see: the test with the deletion or with
-- the new handler, the flag, and `Finish`.
use grpc_p.Base.{
  ℕ, suc, ◌<◌, ◌≡◌, Bool, true, false, not, ◌||◌, Option, none, some, List, [], ◌∷◌, ◌++◌,
  get_elem?, if◌then◌else◌,
}
use grpc_p.Base.Rows.{count}
use grpc_p.Server.Handler.{
  LogicResult, Object, handler, deleted, World, new_handler, delete_this, mark, finish_with, asked,
}

-- How far a worker is in `complete`: `AsyncNext` has returned, the next handler has been made, the flag
-- has been set. gRPC has put the request into the handler.
pub data Phase {κ} (Req : Type κ) : Type κ where
  entered : (is_okay : Bool) → Req → Phase Req
  bound : Req → Phase Req
  marked : Req → Phase Req

pub record Task {κ} (Req : Type κ) : Type κ where
  pub tag : ℕ
  pub phase : Phase Req

-- The handlers, the tags that gRPC has handed back, the calls of `complete` that have not returned, and
-- the requests that handlers have taken, each with the tag of its handler.
pub record System {ℓ κ} (Req : Type ℓ) (Resp : Type κ) : Type (ℓ ⊔ κ) where
  pub world : World Resp
  pub answered : List ℕ
  pub tasks : List (Task Req)
  pub requests : List (ℕ × Req)
  pub refused : ℕ  -- how many binds have come back with `is_okay` false

-- The requests taken, after a step of a call: a handler that had none takes one, if it is okay.
abbrev pub taken {ℓ} :
    {Req : Type ℓ} → Phase Req → Option Object → ℕ → List (ℕ × Req) → List (ℕ × Req)
taken (entered true request) (some (handler false)) tag rs = (tag, request) ∷ rs
taken _ _ tag rs = rs

abbrev pub refusals {ℓ} : {Req : Type ℓ} → Phase Req → Option Object → ℕ → ℕ
refusals (entered false request) (some (handler false)) n = suc n
refusals _ _ n = n

module _ {ℓ κ} {Req : Type ℓ} {Resp : Type κ} (logic : Req → LogicResult Resp) (empty : Resp) where
  advance_at :
      (tag : ℕ) → Phase Req → Option Object → World Resp → Option (World Resp × List (Task Req))
  unfolding delete_this new_handler mark finish_with
  advance_at tag p none w = none
  advance_at tag p (some deleted) w = none
  advance_at tag (entered is_okay request) (some (handler delete_on_next_complete)) w = some (
      if delete_on_next_complete || not is_okay
      then (delete_this tag w, [])
      else (new_handler w, record { tag = tag; phase = bound request } ∷ []))
  advance_at tag (bound request) (some (handler delete_on_next_complete)) w =
      some (mark tag w, record { tag = tag; phase = marked request } ∷ [])
  advance_at tag (marked request) (some (handler delete_on_next_complete)) w =
      some (finish_with empty tag (logic request) w, [])

  -- The next part of a call of `complete`, and what is left of the call; `none` is the use of an object
  -- that does not exist.
  unfoldable pub advance : Task Req → World Resp → Option (World Resp × List (Task Req))
  unfolding advance_at
  advance t w = advance_at t.tag t.phase (get_elem? w.objects t.tag) w

  pub data Step (s : System Req Resp) : System Req Resp → Type (ℓ ⊔ κ) where
    -- A worker's `AsyncNext` returns a tag; gRPC hands it back at most as often as it was given it.
    dequeues :
        (tag : ℕ) (is_okay : Bool) (request : Req)
        → count tag s.answered < asked tag s.world.calls
        → Step s (record s {
          answered = tag ∷ s.answered;
          tasks = record { tag = tag; phase = entered is_okay request } ∷ s.tasks;
        })
    -- Any worker in `complete` goes on.
    proceeds :
        (xs ys : List (Task Req)) (t : Task Req) {w' : World Resp} {rest : List (Task Req)}
        → s.tasks ≡ xs ++ t ∷ ys
        → advance t s.world ≡ some (w', rest)
        → Step s (record s {
          world = w';
          tasks = xs ++ (rest ++ ys);
          requests = taken t.phase (get_elem? s.world.objects t.tag) t.tag s.requests;
          refused = refusals t.phase (get_elem? s.world.objects t.tag) s.refused;
        })

  -- The queue as `wire_rpcs` leaves it: one handler.
  abbrev pub init : System Req Resp
  init = record {
    world = new_handler (record { objects = []; calls = [] });
    answered = [];
    tasks = [];
    requests = [];
    refused = 0;
  }

  pub data Reach : System Req Resp → Type (ℓ ⊔ κ) where
    start : Reach init
    later : {s t : System Req Resp} → Reach s → Step s t → Reach t
