-- ===== src/FromScratch/Scheduled.antt =====
-- examples/from-scratch.cpp: senders of the run loop with functions applied, and a printing receiver.
use mathlib.Core.Option
use mathlib.Core.List.{append_assoc, append-nil}
use grpc_p.Base.{ℕ, ◌<◌, ◌≡◌, sym, ap, ◌∙◌, Option, none, some, List, [], ◌∷◌, ◌++◌, map, length}
use grpc_p.FromScratch.RunLoop.{head, new_loop, finish, Ran, returned, run, push_all}
use grpc_p.FromScratch.RunLoop.Chain.{Distinct}
use grpc_p.FromScratch.RunLoop.Fifo.{run-push_all}
use grpc_p.FromScratch.Senders.{Receiver, Sender, then_}

-- What has been printed; `none` after `std::terminate`.
abbrev pub Output : Type 0
Output = Option (List ℕ)

-- `printing_receiver`
unfoldable pub printing_receiver : {E : Type 0} → Receiver ℕ E (Output → Output)
printing_receiver = record {
  set_value = λ val. Option.map (λ printed. printed ++ val ∷ []);
  set_error = λ err _. none;
  set_stopped = λ _. none;
}

-- `E` stands for `std::exception_ptr`.
module _ (E : Type 0) where
  -- `run_loop::operation::execute`, for the receiver that it was connected to.
  unfoldable pub scheduled : Sender (Unit {0}) E
  scheduled W r = r.set_value tt

  -- What `execute` does of the operation at `address`, made by `connect(then(schedule(loop), f), …)`.
  unfoldable pub execute : (fs : ℕ → Unit {0} → ℕ) → (address : ℕ) → Output → Output
  unfolding scheduled printing_receiver then_
  execute fs address = then_ scheduled (fs address) (Output → Output) printing_receiver

  unfoldable pub execute_all : (fs : ℕ → Unit {0} → ℕ) → List ℕ → Output → Output
  execute_all fs [] out = out
  execute_all fs (address ∷ addresses) out = execute_all fs addresses (execute fs address out)

  -- What has been printed when `run` has returned.
  unfoldable pub printed : (fs : ℕ → Unit {0} → ℕ) → Ran → Output
  unfolding execute_all
  printed fs (returned ops) = execute_all fs ops (some [])
  printed fs _ = none

  execute_all-map :
      (fs : ℕ → Unit {0} → ℕ) (addresses out : List ℕ)
      → execute_all fs addresses (some out) ≡ some (out ++ map (λ a. fs a tt) addresses)
  unfolding execute_all execute
  execute_all-map fs [] out = ap some (sym (append-nil out))
  execute_all-map fs (a ∷ addresses) out =
      execute_all-map fs addresses (out ++ fs a tt ∷ [])
      ∙ ap some (append_assoc out (fs a tt ∷ []) (map (λ a. fs a tt) addresses))

  -- Operations with addresses of their own, each of a function applied to the loop's sender, are started
  -- on a new loop, and then `finish` and `run` are called, with more fuel than operations: `run` returns,
  -- and what has been printed is the results of the functions, each once and in the order of the starts.
  pub printed-run :
      (fs : ℕ → Unit {0} → ℕ) (addresses : List ℕ) (fuel : ℕ)
      → Distinct (head ∷ addresses)
      → length addresses < fuel
      → printed fs (run fuel (finish (push_all addresses new_loop)))
        ≡ some (map (λ a. fs a tt) addresses)
  unfolding printed
  printed-run fs addresses fuel once enough =
      ap (printed fs) (run-push_all addresses fuel once enough) ∙ execute_all-map fs addresses []
