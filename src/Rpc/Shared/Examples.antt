-- ===== src/Rpc/Shared/Examples.antt =====
-- Operations of one sender, numbered 4 and 5, at concrete answers.
use grpc_p.Base.{ℕ, ◌≡◌, ◌≢◌, true, false, Option, none, [], ◌∷◌}
use grpc_p.Status.GrpcCode.{StatusCode}
use grpc_p.Rpc.Signal.{Exception}
use grpc_p.Rpc.Wrapped.{Converted, converted}
use grpc_p.Rpc.Once.{Answer}
use grpc_p.Rpc.Shared.{CallData, call_factory, post, run}
use grpc_p.Rpc.Shared.Starts.{completed, crossed_starts}

abbrev calm : Option ℕ → Option Exception
calm a = none

abbrev same : ℕ → Converted ℕ
same n = converted n

abbrev found : Answer ℕ
found = record {
  rpc_ok = true;
  status = record { code = StatusCode.ok; message = "" };
  response = 41;
}

abbrev lost : Answer ℕ
lost = record {
  rpc_ok = false;
  status = record { code = StatusCode.unavailable; message = "" };
  response = 0;
}

abbrev fresh : CallData
fresh = record { completion = none }

four-five : ◌≢◌ {A = ℕ} 4 5
four-five e = cc

crossed_starts_example :
    let sent =
      run false calm same
        (call_factory 4 ∷ call_factory 5 ∷ post 4 true found ∷ post 5 true lost ∷ [])
        fresh in
    (completed 4 sent ≡ 0) × (completed 5 sent ≡ 1)
crossed_starts_example = crossed_starts false calm same 4 5 found lost fresh four-five
