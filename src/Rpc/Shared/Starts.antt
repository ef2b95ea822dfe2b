-- ===== src/Rpc/Shared/Starts.antt =====
-- Operations of one sender that are started one after the other, and two that are started at once.
use grpc_p.Base.{
  ℕ, ◌+◌, ◌≡◌, ◌≢◌, refl, Bool, true, false, Option, none, some, List, [], ◌∷◌, ◌++◌, map, arith,
}
use grpc_p.Base.Rows.{count, one_if}
use grpc_p.Status.RpcStatus.{RpcStatus}
use grpc_p.Rpc.Signal.{Exception, Signal, value, value_threw, error}
use grpc_p.Rpc.Wrapped.{Converted, handler, curried_completion, after_post}
use grpc_p.Rpc.Once.{Answer}
use grpc_p.Rpc.Shared.{CallData, call_factory, post, answer_call, run, starts}

module _ {κ} {R : Type κ} where
  -- How often the receiver of `op` is completed.
  abbrev pub completed : ℕ → List (ℕ × Signal (Option R) RpcStatus) → ℕ
  completed op [] = 0
  completed op ((i, value v) ∷ ss) = one_if op i + completed op ss
  completed op ((i, value_threw v) ∷ ss) = completed op ss
  completed op ((i, error e) ∷ ss) = one_if op i + completed op ss

  pub completed-append :
      (op : ℕ) (xs ys : List (ℕ × Signal (Option R) RpcStatus))
      → completed op (xs ++ ys) ≡ completed op xs + completed op ys
  completed-append op [] ys = omega arith
  completed-append op ((i, value v) ∷ xs) ys = omega (arith, completed-append op xs ys)
  completed-append op ((i, value_threw v) ∷ xs) ys = completed-append op xs ys
  completed-append op ((i, error e) ∷ xs) ys = omega (arith, completed-append op xs ys)

module _ {κ τ} {R : Type κ} {V : Type τ} (is_void : Bool) (throws : Option R → Option Exception)
    (convert : V → Converted R) where
  -- The completion of an operation completes its receiver, and no other, once.
  pub answer_call-some :
      (op i : ℕ) (a : Answer V)
      → completed op (answer_call is_void throws convert (some i) a) ≡ one_if op i
  unfolding answer_call curried_completion handler
  answer_call-some op i a = ground arith

  answer_call-none :
      (op : ℕ) (a : Answer V) → completed op (answer_call is_void throws convert none a) ≡ 0
  unfolding answer_call curried_completion
  answer_call-none op a = ground arith

  -- Operations of copies of one sender, started one after the other, whatever the context says to each
  -- and whatever gRPC answers: each receiver is completed as often as its operation is started.
  starts-completed :
      (op : ℕ) (ss : List (ℕ × (Bool × Answer V))) (d : CallData)
      → completed op (run is_void throws convert (starts is_void throws convert ss) d)
        ≡ count op (map (λ s. s.0) ss)
  unfolding run after_post
  starts-completed op [] d = refl
  starts-completed op ((i, (true, a)) ∷ ss) d = omega (
    arith,
    completed-append op (answer_call is_void throws convert (some i) a) (
        run is_void throws convert (starts is_void throws convert ss)
          (record { completion = none })),
    answer_call-some op i a,
    starts-completed op ss (record { completion = none }),
  )
  starts-completed op ((i, (false, a)) ∷ ss) d =
      omega (arith, starts-completed op ss (record { completion = some i }))

  -- Two operations of one sender that two threads start at once, so that both put their completion in
  -- before either posts: if the context takes both, then whatever gRPC answers, the receiver of the first
  -- is never completed, and that of the second once.
  pub crossed_starts :
      (p q : ℕ) (a b : Answer V) (d : CallData)
      → p ≢ q
      → let sent =
          run is_void throws convert
            (call_factory p ∷ call_factory q ∷ post p true a ∷ post q true b ∷ [])
            d in
        (completed p sent ≡ 0) × (completed q sent ≡ 1)
  unfolding run
  crossed_starts p q a b d ne = (ground (arith, total p), ground (arith, total q))
    where
      total :
          (op : ℕ)
          → completed op (
              run is_void throws convert
                (call_factory p ∷ call_factory q ∷ post p true a ∷ post q true b ∷ [])
                d)
            ≡ one_if op q
      total op = omega (
        arith,
        completed-append op (answer_call is_void throws convert (some q) a)
            (answer_call is_void throws convert none b ++ []),
        completed-append op (answer_call is_void throws convert none b) [],
        answer_call-some op q a,
        answer_call-none op b,
      )
