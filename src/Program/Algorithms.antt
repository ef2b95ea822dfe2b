-- ===== src/Program/Algorithms.antt =====
-- What main.cpp uses of stdexec, as a record of operations with the behaviour that stdexec documents. A
-- sender here completes in the same way each time that it is started.
use grpc_p.Base.{◌≡◌, Option, some}
use grpc_p.Status.RpcStatus.{RpcStatus}
use grpc_p.Context.State.{ExecutionState, running}

pub data Outcome (A : Type 0) : Type 0 where
  value : A → Outcome A
  error : RpcStatus → Outcome A

-- What `sync_wait` does: it returns, with no value if the sender was stopped, or throws.
pub data Waited (A : Type 0) : Type 0 where
  returned : Option A → Waited A
  thrown : RpcStatus → Waited A

pub record Stdexec : Type 1 where
  pub Sender : Type 0 → Type 0
  pub Completes : {A : Type 0} → Sender A → Outcome A → Type 0
  pub just : {A : Type 0} → A → Sender A
  pub then_ : {A B : Type 0} → Sender A → (A → B) → Sender B
  -- On the scheduler of a context in a state.
  pub on : {A : Type 0} → ExecutionState → Sender A → Sender A
  pub when_all :
      {A B C D : Type 0} → Sender A → Sender B → Sender C → Sender D → Sender (A × B × C × D)
  pub let_value : {A B : Type 0} → Sender A → (A → Sender B) → Sender B
  pub upon_error : {A : Type 0} → Sender A → (RpcStatus → A) → Sender A
  pub sync_wait : {A : Type 0} → Sender A → Waited A
  -- The functions that are given to them do not throw.
  pub just_value : {A : Type 0} (a : A) → Completes (just a) (value a)
  pub then_value :
      {A B : Type 0} (s : Sender A) (f : A → B) (a : A)
      → Completes s (value a)
      → Completes (then_ s f) (value (f a))
  pub then_error :
      {A B : Type 0} (s : Sender A) (f : A → B) (e : RpcStatus)
      → Completes s (error e)
      → Completes (then_ s f) (error e)
  pub on_completes :
      {A : Type 0} (s : Sender A) (o : Outcome A) → Completes s o → Completes (on running s) o
  pub when_all_value :
      {A B C D : Type 0} (p : Sender A) (q : Sender B) (r : Sender C) (s : Sender D) (a : A) (b : B)
      (c : C) (d : D)
      → Completes p (value a)
      → Completes q (value b)
      → Completes r (value c)
      → Completes s (value d)
      → Completes (when_all p q r s) (value (a, b, c, d))
  pub when_all_error :
      {A B C D : Type 0} (p : Sender A) (q : Sender B) (r : Sender C) (s : Sender D) (a : A) (b : B)
      (c : C) (e : RpcStatus)
      → Completes p (value a)
      → Completes q (value b)
      → Completes r (value c)
      → Completes s (error e)
      → Completes (when_all p q r s) (error e)
  pub let_value_value :
      {A B : Type 0} (s : Sender A) (f : A → Sender B) (a : A) (o : Outcome B)
      → Completes s (value a)
      → Completes (f a) o
      → Completes (let_value s f) o
  pub let_value_error :
      {A B : Type 0} (s : Sender A) (f : A → Sender B) (e : RpcStatus)
      → Completes s (error e)
      → Completes (let_value s f) (error e)
  pub upon_error_value :
      {A : Type 0} (s : Sender A) (f : RpcStatus → A) (a : A)
      → Completes s (value a)
      → Completes (upon_error s f) (value a)
  pub upon_error_error :
      {A : Type 0} (s : Sender A) (f : RpcStatus → A) (e : RpcStatus)
      → Completes s (error e)
      → Completes (upon_error s f) (value (f e))
  pub sync_wait_value :
      {A : Type 0} (s : Sender A) (a : A) → Completes s (value a) → sync_wait s ≡ returned (some a)
  pub sync_wait_error :
      {A : Type 0} (s : Sender A) (e : RpcStatus) → Completes s (error e) → sync_wait s ≡ thrown e
