-- ===== src/Status/RoundTrip.antt =====
-- The conversions of detail/utils.hpp undo each other, and a message tells its code.
use Prim.Native.String.{String}
use Prim.Native.String.{compare}
use Prim.Native.Nat.{lt, eq, gt}
use grpc_p.Base.{
  ℕ, ◌+◌, ◌≡◌, refl, ap, length, get_elem?-ge, arith, Option, none, some, List, [], ◌∷◌,
}
use grpc_p.Base.Int.{pos, negsuc}
use grpc_p.Status.RpcCode.{RpcStatusCode, to_int, of_int, message, text, enumerators}
use grpc_p.Status.GrpcCode.{StatusCode, other}
use grpc_p.Status.Convert.{to_rpc_status_code, to_grpc_status_code, to_grpc_of_value}

-- What becomes of a gRPC code that has gone through the library's: a value that the source does not
-- name is no longer told from `DO_NOT_USE`.
abbrev pub named : StatusCode → StatusCode
named (other _) = StatusCode.do_not_use
named s = s

to_rpc-to_grpc : (c : RpcStatusCode) → to_rpc_status_code (to_grpc_status_code c) ≡ c
unfolding to_rpc_status_code to_grpc_status_code
to_rpc-to_grpc RpcStatusCode.ok = refl
to_rpc-to_grpc _ = refl

to_grpc-to_rpc : (s : StatusCode) → to_grpc_status_code (to_rpc_status_code s) ≡ named s
unfolding to_rpc_status_code to_grpc_status_code
to_grpc-to_rpc StatusCode.ok = refl
to_grpc-to_rpc _ = refl

pub of_int-to_int : (c : RpcStatusCode) → of_int (to_int c) ≡ some c
unfolding of_int to_int
of_int-to_int RpcStatusCode.ok = refl
of_int-to_int _ = refl

no_enumerator : (n : ℕ) → to_grpc_of_value (pos (length enumerators + n)) ≡ StatusCode.unknown
unfolding to_grpc_of_value of_int
no_enumerator n =
    let past = get_elem?-ge enumerators (length enumerators + n) (omega arith) in
    rw (to_grpc_of_value, of_int, past) refl

enumerator_value : (c : RpcStatusCode) → to_grpc_of_value (pos (to_int c)) ≡ to_grpc_status_code c
unfolding to_grpc_of_value to_grpc_status_code of_int to_int
enumerator_value RpcStatusCode.ok = refl
enumerator_value _ = refl

-- The two conversions are inverse on the codes that the source names: every code of the library comes
-- back from gRPC's enumeration as it was, and every gRPC code comes back from the library's as it was,
-- but for a value with no name, which comes back as `DO_NOT_USE`. An `int` that is the value of an
-- enumerator of the library is converted as that enumerator is, and one beyond the last enumerator, or
-- below 0, to `UNKNOWN`.
pub to_rpc-to_grpc_inverse :
    (c : RpcStatusCode) (s : StatusCode)
    → (to_rpc_status_code (to_grpc_status_code c) ≡ c)
      × (to_grpc_status_code (to_rpc_status_code s) ≡ named s)
      × (to_grpc_of_value (pos (to_int c)) ≡ to_grpc_status_code c)
      × ((n : ℕ) → to_grpc_of_value (pos (length enumerators + n)) ≡ StatusCode.unknown)
      × ((n : ℕ) → to_grpc_of_value (negsuc n) ≡ StatusCode.unknown)
unfolding to_grpc_of_value
to_rpc-to_grpc_inverse c s =
    (to_rpc-to_grpc c, to_grpc-to_rpc s, enumerator_value c, no_enumerator, λ n. refl)

-- Reads a message back: the first code among `cs` that has it.
find_text : String → List RpcStatusCode → Option RpcStatusCode
find_text m [] = none
find_text m (c ∷ cs) = elim (compare (text c) m) [
  | eq ↦ some c
  | lt ↦ find_text m cs
  | gt ↦ find_text m cs
]

find_text-message : (c : RpcStatusCode) → find_text (message (to_int c)) enumerators ≡ some c
unfolding find_text message text to_int
find_text-message RpcStatusCode.ok = refl
find_text-message _ = refl

-- Two status codes with the same message are the same code.
message_injective : (c d : RpcStatusCode) → message (to_int c) ≡ message (to_int d) → c ≡ d
message_injective c d e =
    cc (find_text-message c, find_text-message d, ap (λ m. find_text m enumerators) e)
