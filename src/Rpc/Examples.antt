-- ===== src/Rpc/Examples.antt =====
-- The theorems on RPCs at concrete answers.
use grpc_p.Base.{
  ℕ, zero, suc, ◌≡◌, ◌↔◌, refl, true, false, Option, none, some, [], ◌∷◌, if◌then◌else◌,
}
use grpc_p.Status.GrpcCode.{StatusCode}
use grpc_p.Status.RpcCode.{RpcStatusCode}
use grpc_p.Status.RpcStatus.{make}
use grpc_p.Context.State.{can_post}
use grpc_p.Context.Defs.{ExecutionContext}
use grpc_p.Context.Post.{construct}
use grpc_p.Rpc.Signal.{Exception, std_exception, is_ok, error, completions}
use grpc_p.Rpc.Wrapped.{Converted, converted, threw}
use grpc_p.Rpc.Inflight.{deletions, sent_by}
use grpc_p.Rpc.Once.{Answer}
use grpc_p.Rpc.Erased.{
  erased_invoke, erased_invoke-once, erased_invoke-given, erased_invoke-masks, given,
}

abbrev fresh : ExecutionContext ℕ ℕ
fresh = construct 2 1

fresh-can_post : can_post fresh.state ≡ true
unfolding construct
fresh-can_post = refl

-- gRPC could not find what was asked for; the response is empty.
abbrev absent : Answer ℕ
absent = record {
  rpc_ok = true;
  status = record { code = StatusCode.not_found; message = "no such user" };
  response = 0;
}

abbrev found : Answer ℕ
found = record {
  rpc_ok = true;
  status = record { code = StatusCode.ok; message = "" };
  response = 41;
}

-- A receiver that never throws, one that does, and a conversion that takes no empty response.
abbrev calm : {A : Type 0} → A → Option Exception
calm a = none

abbrev fussy : ℕ → Option Exception
fussy a = some (std_exception "full")

abbrev convert : ℕ → Converted ℕ
convert zero = threw (std_exception "empty")
convert (suc n) = converted n

erased_invoke-once_example :
    (completions (sent_by (erased_invoke false calm convert 7 fresh absent)) ≡ 1)
    × (deletions (erased_invoke false calm convert 7 fresh absent)
        ≡ (if can_post fresh.state then 1 else 0))
erased_invoke-once_example = erased_invoke-once false calm convert 7 fresh absent

erased_invoke-given_example :
    (given false calm convert (sent_by (erased_invoke false calm convert 7 fresh found))
      ≡ some (some 40))
    ↔ ((can_post fresh.state ≡ true)
        × (true ≡ true)
        × (is_ok StatusCode.ok ≡ true)
        × (convert 41 ≡ converted 40)
        × (calm {A = Option ℕ} (some 40) ≡ none))
erased_invoke-given_example = erased_invoke-given false calm convert 7 fresh found 40 refl

erased_invoke-masks_example :
    sent_by (erased_invoke false calm convert 7 fresh absent)
    ≡ error (make RpcStatusCode.internal "exception unpacking protobuf, empty") ∷ []
erased_invoke-masks_example =
    erased_invoke-masks false calm convert 7 fresh absent (std_exception "empty") fresh-can_post
      refl refl
