-- ===== src/Server/Handler/Invariant.antt =====
-- What holds of the handlers of a queue in every reachable state.
use Prim.Native.String.{String}
use grpc_p.Base.{
  ℕ, ◌+◌, ◌≤◌, ◌≡◌, refl, ap, Bool, false, Option, none, some, List, [], ◌∷◌, ◌++◌, map, length,
  get_elem?, arith, if◌then◌else◌, ◌==◌, ltb, ◌⊎◌, inl, inr,
}
use grpc_p.Base.Rows.{total, total-insert, total_mono, count, one_if, one_if_self}
use grpc_p.Status.GrpcCode.{StatusCode}
use grpc_p.Server.Handler.{
  LogicResult, Call, finish, delete, Object, handler, deleted, reply, asked,
}
use grpc_p.Server.Handler.Steps.{Phase, entered, bound, marked, Task, System}

-- 1 where a handler exists, and where it waits for a request.
abbrev pub live : Option Object → ℕ
live (some (handler b)) = 1
live _ = 0

abbrev pub waiting : Object → ℕ
waiting (handler false) = 1
waiting _ = 0

abbrev pub waiting_at : Option Object → ℕ
waiting_at none = 0
waiting_at (some o) = waiting o

module _ {ℓ} {Resp : Type ℓ} where
  abbrev pub deletes : ℕ → List (Call Resp) → ℕ
  deletes i [] = 0
  deletes i (delete t ∷ cs) = one_if i t + deletes i cs
  deletes i (_ ∷ cs) = deletes i cs

  -- The answers given, each with its tag, the latest first.
  abbrev pub replies : List (Call Resp) → List (ℕ × (Resp × StatusCode × String))
  replies [] = []
  replies (finish t r c m ∷ cs) = (t, (r, c, m)) ∷ replies cs
  replies (_ ∷ cs) = replies cs

pub Object-cases : (o : Option Object) → (live o ≡ 0) ⊎ ((b : Bool) × (o ≡ some (handler b)))
Object-cases none = inl refl
Object-cases (some deleted) = inl refl
Object-cases (some (handler b)) = inr (b, refl)

module _ {ℓ κ} {Req : Type ℓ} {Resp : Type κ} (logic : Req → LogicResult Resp) (empty : Resp) where
  -- An answer: the tag of its handler, and what `Finish` is given.
  abbrev pub Given : Type κ
  Given = ℕ × (Resp × StatusCode × String)

  -- The answer that a request calls for.
  abbrev pub reply_to : ℕ × Req → Given
  reply_to (tag, request) = (tag, reply empty (logic request))

  abbrev pub tag_of : ℕ × Req → ℕ
  tag_of (tag, request) = tag

  -- The calls of `complete` of one handler.
  abbrev pub busy : ℕ → Task Req → ℕ
  busy i t = one_if i t.tag

  -- 1 for a call between the new handler and the flag.
  abbrev pub in_bound : Phase Req → ℕ
  in_bound (bound request) = 1
  in_bound _ = 0

  abbrev pub is_bound : Task Req → ℕ
  is_bound t = in_bound t.phase

  abbrev pub bound_at : ℕ → Task Req → ℕ
  bound_at i t = if t.tag == i then in_bound t.phase else 0

  -- What the answer that a call has yet to give weighs.
  abbrev pub due_in : (Given → ℕ) → ℕ → Phase Req → ℕ
  due_in w tag (entered is_okay request) = 0
  due_in w tag (bound request) = w (reply_to (tag, request))
  due_in w tag (marked request) = w (reply_to (tag, request))

  abbrev pub due : (Given → ℕ) → Task Req → ℕ
  due w t = due_in w t.tag t.phase

  pub record Inv (s : System Req Resp) : Type (ℓ ⊔ κ) where
    pub pending :
        (i : ℕ)
        → asked i s.world.calls + total (busy i) s.tasks
          ≡ count i s.answered + live (get_elem? s.world.objects i)
    pub returned : (i : ℕ) → count i s.answered ≤ asked i s.world.calls
    pub one_waits : total waiting s.world.objects + s.refused ≡ 1 + total is_bound s.tasks
    pub unmarked : (i : ℕ) → total (bound_at i) s.tasks ≤ waiting_at (get_elem? s.world.objects i)
    pub freed :
        (i : ℕ)
        → deletes i s.world.calls + live (get_elem? s.world.objects i)
          ≡ (if ltb i (length s.world.objects) then 1 else 0)
    pub replied :
        (w : Given → ℕ)
        → total w (replies s.world.calls) + total (due w) s.tasks
          ≡ total w (map reply_to s.requests)
    pub once :
        (i : ℕ)
        → count i (map tag_of s.requests) + waiting_at (get_elem? s.world.objects i)
          ≤ live (get_elem? s.world.objects i)
            + deletes i s.world.calls
            + total (bound_at i) s.tasks
    pub made : length s.world.objects ≡ 1 + length s.requests

  bound-busy : (i : ℕ) (ts : List (Task Req)) → total (bound_at i) ts ≤ total (busy i) ts
  bound-busy i ts = total_mono (bound_at i) (busy i) (λ t. at t.tag t.phase) ts
    where
      at : (tag : ℕ) (p : Phase Req) → (if tag == i then in_bound p else 0) ≤ one_if i tag
      at tag (entered is_okay request) = ground arith
      at tag (bound request) = ground arith
      at tag (marked request) = ground arith

  -- What a state with one call of `complete` at hand says of that call's handler.
  pub record Alone (s : System Req Resp) (others : List (Task Req)) (tag : ℕ) : Type 0 where
    pub object : (b : Bool) × (get_elem? s.world.objects tag ≡ some (handler b))
    pub no_other : total (bound_at tag) others ≡ 0

  live-le : (o : Option Object) → live o ≤ 1
  live-le none = omega arith
  live-le (some deleted) = omega arith
  live-le (some (handler b)) = omega arith

  pub alone :
      {s : System Req Resp} (xs ys : List (Task Req)) (t : Task Req)
      → s.tasks ≡ xs ++ t ∷ ys
      → Inv s
      → Alone s (xs ++ ys) t.tag
  alone {s} xs ys t at inv = record {
    object = elim (Object-cases (get_elem? s.world.objects t.tag)) [
      | inl dead ↦ absurd (omega (arith, few, inv.returned t.tag, inv.pending t.tag, dead))
      | inr alive ↦ alive
    ];
    no_other = omega (
      arith,
      few,
      inv.returned t.tag,
      inv.pending t.tag,
      live-le (get_elem? s.world.objects t.tag),
      bound-busy t.tag (xs ++ ys),
    );
  }
    where
      few : total (busy t.tag) s.tasks ≡ total (busy t.tag) (xs ++ ys) + 1
      few =
          omega (
            arith,
            ap (total (busy t.tag)) at,
            total-insert (busy t.tag) xs t ys,
            one_if_self t.tag,
          )
