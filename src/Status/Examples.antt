-- ===== src/Status/Examples.antt =====
-- The theorems on status codes and durations at concrete inputs.
use grpc_p.Base.{ℕ, length, ◌≡◌, refl, ◌↔◌, true, some, none, ◌+◌, ◌<◌, ◌≤◌}
use grpc_p.Base.Int.{pos, negsuc, pos_part, neg_part, ◌+ℤ◌, ◌*ℤ◌}
use grpc_p.Status.RpcCode.{RpcStatusCode, to_int, enumerators}
use grpc_p.Status.GrpcCode.{StatusCode}
use grpc_p.Status.Convert.{to_rpc_status_code, to_grpc_status_code, to_grpc_of_value}
use grpc_p.Status.RoundTrip.{to_rpc-to_grpc_inverse}
use grpc_p.Status.RpcStatus.{make, error_code, status_ok, error_message}
use grpc_p.Status.Getters.{make_getters}
use grpc_p.Status.Timespec.{
  billion, ClockType, duration_to_grp_timespec, duration_to_grp_timespec_lem,
}

to_rpc-to_grpc_inverse_example :
    (to_rpc_status_code (to_grpc_status_code RpcStatusCode.not_found) ≡ RpcStatusCode.not_found)
    × (to_grpc_status_code (to_rpc_status_code (StatusCode.other 42)) ≡ StatusCode.do_not_use)
    × (to_grpc_of_value (pos 5) ≡ to_grpc_status_code RpcStatusCode.not_found)
    × ((n : ℕ) → to_grpc_of_value (pos (length enumerators + n)) ≡ StatusCode.unknown)
    × ((n : ℕ) → to_grpc_of_value (negsuc n) ≡ StatusCode.unknown)
unfolding to_int
to_rpc-to_grpc_inverse_example =
    to_rpc-to_grpc_inverse RpcStatusCode.not_found (StatusCode.other 42)

make_getters_example :
    (error_code (make RpcStatusCode.aborted "late") ≡ some RpcStatusCode.aborted)
    × ((make RpcStatusCode.aborted "late").details ≡ "late")
    × ((status_ok (make RpcStatusCode.aborted "late") ≡ true)
        ↔ (RpcStatusCode.aborted ≡ RpcStatusCode.ok))
    × (error_message (make RpcStatusCode.aborted "late") ≡ none)
make_getters_example = make_getters RpcStatusCode.aborted "late"

-- -1.5 s.
duration_to_grp_timespec_lem_example :
    let t = duration_to_grp_timespec (negsuc 1_499_999_999) in
    (t.tv_sec *ℤ pos billion +ℤ t.tv_nsec ≡ negsuc 1_499_999_999)
    × (pos_part t.tv_nsec + neg_part t.tv_nsec < billion)
    × (pos_part t.tv_sec + pos_part t.tv_nsec ≤ 0)
    × (neg_part t.tv_sec + neg_part t.tv_nsec ≤ 1_500_000_000)
duration_to_grp_timespec_lem_example = duration_to_grp_timespec_lem (negsuc 1_499_999_999)

-- The fields carry the sign of the duration.
duration_to_grp_timespec_negative :
    duration_to_grp_timespec (negsuc 1_499_999_999)
    ≡ record { tv_sec = negsuc 0; tv_nsec = negsuc 499_999_999; clock_type = ClockType.monotonic }
unfolding duration_to_grp_timespec
duration_to_grp_timespec_negative = refl
