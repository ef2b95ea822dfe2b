-- ===== src/Rpc/Signal.antt =====
-- What a receiver is sent, what code may throw, and grpc::Status as the library reads it.
use Prim.Native.String.{String}
use grpc_p.Base.{ℕ, ◌+◌, Bool, true, false, List, [], ◌∷◌}
use grpc_p.Status.GrpcCode.{StatusCode, ok}

-- `grpc::Status`: its code and its message. (The details are not read.)
pub record GrpcStatus : Type 0 where
  pub code : StatusCode
  pub message : String

-- `status.ok()`
abbrev pub is_ok : StatusCode → Bool
is_ok ok = true
is_ok _ = false

-- What `catch(std::exception& e)` and `catch(...)` tell apart; the text is `e.what()`.
pub data Exception : Type 0 where
  std_exception : String → Exception
  unknown : Exception

-- A call on a receiver: `set_value` that returned, `set_value` that threw, or `set_error`, which in
-- stdexec does not throw.
pub data Signal {ℓ κ} (V : Type ℓ) (E : Type κ) : Type (ℓ ⊔ κ) where
  value : V → Signal V E
  value_threw : V → Signal V E
  error : E → Signal V E

module _ {ℓ κ} {V : Type ℓ} {E : Type κ} where
  -- How often a receiver has been completed: a `set_value` that threw has not completed it.
  abbrev pub completions : List (Signal V E) → ℕ
  completions [] = 0
  completions (value v ∷ ss) = 1 + completions ss
  completions (value_threw v ∷ ss) = completions ss
  completions (error e ∷ ss) = 1 + completions ss
