-- ===== src/Status/RpcCode.antt =====
-- rpc_status_code.hpp and detail/rpc_status_code_category.hpp: the library's own codes, their
-- integer values and their messages.
use Prim.Native.String.{String}
use grpc_p.Base.{ℕ, List, [], ◌∷◌, Option, none, some, get_elem?}

pub data RpcStatusCode : Type 0 where
  ok cancelled unknown invalid_argument deadline_exceeded not_found already_exists permission_denied
        resource_exhausted :
      RpcStatusCode
  failed_precondition aborted out_of_range unimplemented internal unavailable data_loss
        unauthenticated unspecified :
      RpcStatusCode

-- The value of an enumerator: they count up from `Ok = 0`.
unfoldable pub to_int : RpcStatusCode → ℕ
to_int ok = 0
to_int cancelled = 1
to_int unknown = 2
to_int invalid_argument = 3
to_int deadline_exceeded = 4
to_int not_found = 5
to_int already_exists = 6
to_int permission_denied = 7
to_int resource_exhausted = 8
to_int failed_precondition = 9
to_int aborted = 10
to_int out_of_range = 11
to_int unimplemented = 12
to_int internal = 13
to_int unavailable = 14
to_int data_loss = 15
to_int unauthenticated = 16
to_int unspecified = 17

abbrev pub enumerators : List RpcStatusCode
enumerators =
    ok ∷ cancelled ∷ unknown ∷ invalid_argument ∷ deadline_exceeded ∷ not_found ∷ already_exists
    ∷ permission_denied ∷ resource_exhausted ∷ failed_precondition ∷ aborted ∷ out_of_range
    ∷ unimplemented ∷ internal ∷ unavailable ∷ data_loss ∷ unauthenticated ∷ unspecified ∷ []

-- `static_cast<RpcStatusCode>(e)`: the enumerator of value `e`, or `none` where no enumerator has it.
-- (An `int` below zero has none either.)
unfoldable pub of_int : ℕ → Option RpcStatusCode
of_int e = get_elem? enumerators e

unfoldable pub text : RpcStatusCode → String
text ok = "Success"
text cancelled = "The operation was cancelled, typically by the caller"
text unknown = "Unknown error"
text invalid_argument = "The client specified an invalid argument"
text deadline_exceeded = "The deadline expired before the operation could complete"
text not_found = "Some requested entity (e.g., file or directory) was not found"
text already_exists =
    "The entity that a client attempted to create (e.g., file or directory) already exists"
text permission_denied = "Permission denied"
text resource_exhausted =
    "Some resource has been exhausted, perhaps a per-user quota, or perhaps the entire file system is out of space"
text failed_precondition =
    "The operation was rejected because the system is not in a state required for the operation's execution"
text aborted = "The operation was aborted"
text out_of_range =
    "The operation was attempted past a valid range of some kind -- e.g., reading past the end of a file"
text unimplemented = "The operation is not implemented or is not supported/enabled in this service"
text internal = "Internal error; some invariants expected by the underlying system have been broken"
text unavailable = "The service is currently unavailable"
text data_loss = "Unrecoverable data loss or corruption"
text unauthenticated = "Unauthenticated access"
text unspecified = "Some unspecified error"

-- `RpcStatusCodeCategory::message(int e)`
unfoldable pub message : ℕ → String
unfolding of_int text
message e = elim (of_int e) [ some c ↦ text c | none ↦ "(unknown error)" ]

-- `RpcStatusCodeCategory::name()`
abbrev pub category_name : String
category_name = "rpc-status-code"
