-- ===== src/Context/History.antt =====
-- Any history of lifecycle calls on one context: which notifications run, and which queues are shut.
use mathlib.Core.Option
use grpc_p.Base.{ℕ, ◌+◌, Bool, true, false, Option, none, some, List, [], ◌∷◌, if◌then◌else◌, ◌==◌}
use grpc_p.Context.Defs.{ExecutionContext, Call, shutdown, notify}
use grpc_p.Context.Lifecycle.{
  Result, ok, threw, attach_server, run_while, stop, add_notify_at_stopped,
}

pub data Op {ℓ} (T : Type ℓ) : Type ℓ where
  attach : (work_queues : ℕ) → Op T
  run : Op T
  halt : Op T  -- `stop`, called from a thread that is not the context's own
  on_stop : T → Op T  -- `add_notify_at_stopped`

module _ {ℓ κ} {T : Type ℓ} {F : Type κ} where
  -- What a call that throws leaves: `attach_server` throws before it changes anything.
  unfoldable pub after : ExecutionContext T F → Result (ExecutionContext T F) → ExecutionContext T F
  after c (ok c') = c'
  after c (threw e) = c

  unfoldable pub perform : Op T → ExecutionContext T F → ExecutionContext T F
  unfolding after
  perform (attach k) c = after c (attach_server k c)
  perform run c = run_while c
  perform halt c = after c (stop none c)
  perform (on_stop t) c = add_notify_at_stopped t c

  unfoldable pub perform_all : List (Op T) → ExecutionContext T F → ExecutionContext T F
  perform_all [] c = c
  perform_all (op ∷ ops) c = perform_all ops (perform op c)

  -- The thunks that calls have notified, in order.
  abbrev pub notified : List (Call T F) → List T
  notified [] = []
  notified (notify t ∷ cs) = t ∷ notified cs
  notified (_ ∷ cs) = notified cs

  -- How often queue `i` of the context has been shut down.
  abbrev pub shut_count : ℕ → List (Call T F) → ℕ
  shut_count i [] = 0
  shut_count i (shutdown j ∷ cs) = (if j == i then 1 else 0) + shut_count i cs
  shut_count i (_ ∷ cs) = shut_count i cs

-- The thunks registered before the stop that takes effect, the first one after the first run; `none`
-- where there is no such stop.
abbrev pub before_stop {ℓ} : {T : Type ℓ} → (has_run : Bool) → List (Op T) → Option (List T)
before_stop b [] = none
before_stop b (attach k ∷ ops) = before_stop b ops
before_stop b (run ∷ ops) = before_stop true ops
before_stop true (halt ∷ ops) = some []
before_stop false (halt ∷ ops) = before_stop false ops
before_stop b (on_stop t ∷ ops) = Option.map (◌∷◌ t) (before_stop b ops)
