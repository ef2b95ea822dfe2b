-- ===== src/Rpc/Inflight.antt =====
-- detail/inflight_rpc.hpp and detail/alarm.hpp: the heap objects that a completion queue completes.
use grpc_p.Base.{ℕ, ◌+◌, Bool, Option, none, some, List, [], ◌∷◌, ◌++◌, map}
use grpc_p.Rpc.Wrapped.{Handled}

-- What such an object does: the calls into gRPC of its constructor, what its completion sends, and
-- `delete this`.
pub data Event {ℓ} (S : Type ℓ) : Type ℓ where
  make_reader : Event S  -- `response_reader_factory(client_context_)`
  start_call : Event S
  finish : Event S
  set_alarm : Event S
  sends : S → Event S
  deleted : Event S

module _ {ℓ} {S : Type ℓ} where
  -- `InflightRpc(response_reader_factory, thunk)`
  abbrev pub inflight_rpc : List (Event S)
  inflight_rpc = make_reader ∷ start_call ∷ finish ∷ []

  -- `InflightRpc::complete`: what the completion throws is dropped.
  unfoldable pub inflight_complete : Handled S → List (Event S)
  inflight_complete h = map sends h.sent ++ deleted ∷ []

  -- `Alarm(cq, thunk, deadline)`
  abbrev pub alarm : List (Event S)
  alarm = set_alarm ∷ []

  -- `Alarm::complete`; the thunk may be empty.
  unfoldable pub alarm_complete : Option (Bool → S) → Bool → List (Event S)
  alarm_complete none is_ok = []
  alarm_complete (some thunk) is_ok = sends (thunk is_ok) ∷ []

  abbrev pub deletions : List (Event S) → ℕ
  deletions [] = 0
  deletions (deleted ∷ es) = 1 + deletions es
  deletions (_ ∷ es) = deletions es

  abbrev pub sent_by : List (Event S) → List S
  sent_by [] = []
  sent_by (sends s ∷ es) = s ∷ sent_by es
  sent_by (_ ∷ es) = sent_by es
