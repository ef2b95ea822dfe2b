-- ===== src/Status/RpcStatus.antt =====
-- rpc_status.hpp: the class RpcStatus. A `std::error_code` is its value with a reference to a category;
-- `to_error_code` takes the reference of a temporary, which is dead when the constructor returns.
use Prim.Native.String.{String}
use grpc_p.Base.{ℕ, Bool, true, false, Option, none, some}
use grpc_p.Status.RpcCode.{RpcStatusCode, ok, to_int, of_int, message}

-- Whether the category that an error code refers to still exists.
pub data CategoryRef : Type 0 where
  alive dead : CategoryRef

pub record ErrorCode : Type 0 where
  pub value : ℕ
  pub category : CategoryRef

pub record RpcStatus : Type 0 where
  pub details : String
  pub error_code_ : ErrorCode

-- The end of the full expression in which a temporary category was made.
abbrev end_of_expression : ErrorCode → ErrorCode
end_of_expression e = record e { category = dead }

-- `std::error_code{static_cast<int>(code), RpcStatusCodeCategory{}}`, as its caller gets it.
unfoldable pub to_error_code : RpcStatusCode → ErrorCode
unfolding to_int
to_error_code code = end_of_expression (record { value = to_int code; category = alive })

-- `RpcStatus(RpcStatusCode error_code, std::string details)`
unfoldable pub make : RpcStatusCode → String → RpcStatus
unfolding to_error_code
make code details = record { details = details; error_code_ = to_error_code code }

-- `explicit RpcStatus(RpcStatusCode error_code = RpcStatusCode::Ok)`
unfoldable pub make_code : RpcStatusCode → RpcStatus
unfolding make
make_code code = make code ""

-- `static_cast<RpcStatusCode>(ec().value())`; `none` is a value that no enumerator has.
unfoldable pub error_code : RpcStatus → Option RpcStatusCode
unfolding of_int
error_code s = of_int s.error_code_.value

is_ok : Option RpcStatusCode → Bool
is_ok (some ok) = true
is_ok _ = false

-- `bool ok() const`
unfoldable pub status_ok : RpcStatus → Bool
unfolding error_code is_ok
status_ok s = is_ok (error_code s)

read_message : CategoryRef → ℕ → Option String
read_message alive value = some (message value)
read_message dead value = none

-- `error_message()`: `none` is the undefined read through a category that no longer exists.
unfoldable pub error_message : RpcStatus → Option String
unfolding read_message
error_message s = read_message s.error_code_.category s.error_code_.value
