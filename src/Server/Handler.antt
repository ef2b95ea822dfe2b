-- ===== src/Server/Handler.antt =====
-- server_rpc_handler.hpp: ServerRpcHandler with logic that is executed immediately, on one completion
-- queue. A handler is named by its place in the order of construction, which is also the tag that gRPC
-- is given. Handler/Steps has the workers that call `complete` at the same time.
pub mod Steps
pub mod Invariant
mod Calls
mod Moves
pub mod Safety
mod Examples
use Prim.Native.String.{String}
use grpc_p.Base.{
  ℕ, suc, ◌+◌, ◌<◌, ◌≡◌, Bool, true, false, not, ◌||◌, Option, none, some, List, [], ◌∷◌, ◌++◌,
  length, get_elem?, set, if◌then◌else◌, ◌==◌,
}
use grpc_p.Base.Rows.{count}
use grpc_p.Status.GrpcCode.{StatusCode}

-- What `logic_` does with a request.
pub data LogicResult {ℓ} (Resp : Type ℓ) : Type ℓ where
  returned : Resp → LogicResult Resp
  threw : LogicResult Resp

-- The calls that a handler makes, with `this` as the tag.
pub data Call {ℓ} (Resp : Type ℓ) : Type ℓ where
  bind_request : (tag : ℕ) → Call Resp
  finish : (tag : ℕ) → Resp → StatusCode → String → Call Resp
  delete : (tag : ℕ) → Call Resp

-- A handler that exists, by its `delete_on_next_complete_`; or one that has been deleted.
pub data Object : Type 0 where
  handler : (delete_on_next_complete : Bool) → Object
  deleted : Object

pub record World {ℓ} (Resp : Type ℓ) : Type ℓ where
  pub objects : List Object
  pub calls : List (Call Resp)  -- the latest first

module _ {ℓ} {Resp : Type ℓ} where
  -- `new ServerRpcHandler{…}`
  unfoldable pub new_handler : World Resp → World Resp
  new_handler w = record {
    objects = w.objects ++ handler false ∷ [];
    calls = bind_request (length w.objects) ∷ w.calls;
  }

  -- `delete this`
  unfoldable pub delete_this : (tag : ℕ) → World Resp → World Resp
  delete_this tag w = record { objects = set w.objects tag deleted; calls = delete tag ∷ w.calls }

  -- The two calls of `Finish`. `empty` is `ResponseType{}`.
  unfoldable pub reply : (empty : Resp) → LogicResult Resp → Resp × StatusCode × String
  reply empty (returned r) = (r, StatusCode.ok, "")
  reply empty threw = (empty, StatusCode.internal, "")

  unfoldable pub finish_with :
      (empty : Resp) → (tag : ℕ) → LogicResult Resp → World Resp → World Resp
  unfolding reply
  finish_with empty tag l w =
      let (response, code, message) = reply empty l in
      record w { calls = finish tag response code message ∷ w.calls }

  -- `delete_on_next_complete_ = true`
  unfoldable pub mark : (tag : ℕ) → World Resp → World Resp
  mark tag w = record w { objects = set w.objects tag (handler true) }

  -- The `else` of `complete`: a new handler is made, and this one answers its request.
  unfoldable pub serve : (empty : Resp) → (tag : ℕ) → LogicResult Resp → World Resp → World Resp
  unfolding new_handler mark finish_with
  serve empty tag l w = finish_with empty tag l (mark tag (new_handler w))

  complete_at :
      Option Object → Resp → ℕ → Bool → LogicResult Resp → World Resp → Option (World Resp)
  unfolding serve delete_this
  complete_at none empty tag is_okay l w = none
  complete_at (some deleted) empty tag is_okay l w = none
  complete_at (some (handler delete_on_next_complete)) empty tag is_okay l w =
      some
        (if delete_on_next_complete || not is_okay then delete_this tag w else serve empty tag l w)

  -- `complete`, with what the logic would do with the request, and no other worker in between;
  -- `none` is a call on an object that does not exist.
  unfoldable pub complete :
      (empty : Resp)
      → (tag : ℕ) → (is_okay : Bool) → LogicResult Resp
      → World Resp
      → Option (World Resp)
  unfolding complete_at
  complete empty tag is_okay l w = complete_at (get_elem? w.objects tag) empty tag is_okay l w

  -- How many operations a tag has been given to gRPC for.
  abbrev pub asked : ℕ → List (Call Resp) → ℕ
  asked i [] = 0
  asked i (bind_request t ∷ cs) = (if t == i then 1 else 0) + asked i cs
  asked i (finish t r c m ∷ cs) = (if t == i then 1 else 0) + asked i cs
  asked i (delete t ∷ cs) = asked i cs
