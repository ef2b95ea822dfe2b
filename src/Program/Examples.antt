-- ===== src/Program/Examples.antt =====
-- A version of the algorithms in which a sender is what it completes with.
use Prim.Native.String.{String}
use Prim.Native.String.{◌++◌ as str_append}
use grpc_p.Base.{ℕ, ◌≡◌, refl, true, some, [], ◌∷◌, if◌then◌else◌, ◌==◌}
use grpc_p.Status.RpcStatus.{RpcStatus}
use grpc_p.Rpc.Once.{Answer}
use grpc_p.Greeting.{HelloReply}
use grpc_p.Greeting.Exchange.{Finished, Carries, greeting}
use grpc_p.Program.{succeeded, sumit, main}
use grpc_p.Program.Algorithms.{Stdexec, Outcome, value, error, Waited, returned, thrown}
use grpc_p.Program.Prints.{
  said, handlers, context, handlers-wait, context-can_post, listening, Greets, main_prints,
}

abbrev on_value : {A B : Type 0} → Outcome A → (A → Outcome B) → Outcome B
on_value (value a) f = f a
on_value (error e) f = error e

abbrev recover : {A : Type 0} → Outcome A → (RpcStatus → A) → Outcome A
recover (value a) f = value a
recover (error e) f = value (f e)

abbrev wait : {A : Type 0} → Outcome A → Waited A
wait (value a) = returned (some a)
wait (error e) = thrown e

abbrev all_of :
    {A B C D : Type 0} → Outcome A → Outcome B → Outcome C → Outcome D → Outcome (A × B × C × D)
all_of p q r s =
    on_value p (λ a. on_value q (λ b. on_value r (λ c. on_value s (λ d. value (a, b, c, d)))))

abbrev inline : Stdexec
inline = record {
  Sender = Outcome;
  Completes = λ s o. s ≡ o;
  just = value;
  then_ = λ s f. on_value s (λ a. value (f a));
  on = λ state s. s;
  when_all = all_of;
  let_value = on_value;
  upon_error = recover;
  sync_wait = wait;
  just_value = λ a. refl;
  then_value = λ s f a h. rw h;
  then_error = λ s f e h. rw h;
  on_completes = λ s o h. h;
  when_all_value = λ p q r s a b c d h i j k. rw (h, i, j, k);
  when_all_error = λ p q r s a b c e h i j k. rw (h, i, j, k);
  let_value_value = λ s f a o h k. rw h k;
  let_value_error = λ s f e h. rw h;
  upon_error_value = λ s f a h. rw h;
  upon_error_error = λ s f e h. rw h;
  sync_wait_value = λ s a h. rw h;
  sync_wait_error = λ s e h. rw h;
}

abbrev digits : ℕ → String
digits n = if n == 1 then "1" else if n == 2 then "2" else if n == 3 then "3" else "50051"

abbrev selected : String → ℕ
selected asked = 50051

abbrev carry : Finished → Answer HelloReply
carry (r, code, message) = record {
  rpc_ok = true;
  status = record { code = code; message = message };
  response = r;
}

carry-Carries : Carries carry
carry-Carries r code message = (refl, refl, λ e. refl)

abbrev client : String → String → Outcome String
client to user = value (said user)

client-Greets : Greets digits selected inline client carry
client-Greets user text told =
    let same =
      greeting carry (λ request. request) user 0 handlers context carry-Carries handlers-wait
        context-can_post in
    cc

main_prints_example :
    main digits inline selected client
    ≡ succeeded (
        str_append "response: " (str_append (said "Tritarch") "\n")
        ∷ str_append "result:   " (str_append (said (sumit digits (1, 2, 3, said "Tritarch"))) "\n")
        ∷ listening digits selected
        ∷ [])
main_prints_example = main_prints digits selected inline client carry carry-Carries client-Greets
