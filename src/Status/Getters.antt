-- ===== src/Status/Getters.antt =====
-- What the getters of RpcStatus say of a status that a constructor made.
use Prim.Native.String.{String}
use grpc_p.Base.{◌≡◌, refl, ◌↔◌, true, some, none, arith}
use grpc_p.Status.RpcCode.{RpcStatusCode, ok}
use grpc_p.Status.RoundTrip.{of_int-to_int}
use grpc_p.Status.RpcStatus.{make, error_code, status_ok, error_message}

status_ok-make : (c : RpcStatusCode) (d : String) → (status_ok (make c d) ≡ true) ↔ (c ≡ ok)
unfolding make status_ok
status_ok-make ok d = ground arith
status_ok-make _ d = ground arith

-- A status reports the code and the details that it was made of, it is `ok()` exactly when the code is
-- `Ok`, and reading its message is undefined, whatever the code: the category is gone.
pub make_getters :
    (c : RpcStatusCode) (d : String)
    → (error_code (make c d) ≡ some c)
      × ((make c d).details ≡ d)
      × ((status_ok (make c d) ≡ true) ↔ (c ≡ ok))
      × (error_message (make c d) ≡ none)
unfolding make error_code status_ok error_message
make_getters c d = (of_int-to_int c, refl, status_ok-make c d, refl)
