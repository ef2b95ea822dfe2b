-- ===== src/Context/State.antt =====
-- execution_context.cpp: the state of an ExecutionContext and `set_state_`.
use grpc_p.Base.{ℕ, ◌+◌, ◌≡◌, ◌↔◌, ◌⊎◌, Bool, true, false, arith, ◌==◌, leb, if◌then◌else◌}

pub data ExecutionState : Type 0 where
  ready running shutting_down stopped : ExecutionState

-- The value of an enumerator, by which states are compared.
abbrev pub rank : ExecutionState → ℕ
rank ready = 0
rank running = 1
rank shutting_down = 2
rank stopped = 3

-- `state_.compare_exchange_strong(expected, state)`, with the state after it.
unfoldable pub compare_exchange : (expected state current : ExecutionState) → Bool × ExecutionState
compare_exchange expected state current =
    if rank current == rank expected then (true, state) else (false, current)

-- `set_state_`: whether it succeeded, and the state after it.
unfoldable pub set_state : (state current : ExecutionState) → Bool × ExecutionState
unfolding compare_exchange
set_state ready current = (false, current)
set_state running current = compare_exchange ready running current
set_state shutting_down current = compare_exchange running shutting_down current
set_state stopped current = compare_exchange shutting_down stopped current

-- `set_state_` succeeds exactly when the state asked for is the one after the current state, and
-- then enters it; when it fails it leaves the state as it was.
set_state_lem :
    (state current : ExecutionState)
    → (((set_state state current).0 ≡ true) ↔ (rank state ≡ rank current + 1))
      × ((set_state state current).1 ≡ (if (set_state state current).0 then state else current))
unfolding set_state
set_state_lem ready current = ground arith
set_state_lem _ current = ground arith

-- `get_state() <= ExecutionState::Running`
abbrev pub can_post : ExecutionState → Bool
can_post s = leb (rank s) (rank running)

-- The changes of state, as far as posts are concerned.
pub can_post-stop :
    (s : ExecutionState)
    → (set_state shutting_down s).0 ≡ true
    → (can_post s ≡ true) × (can_post (set_state shutting_down s).1 ≡ false)
unfolding set_state
can_post-stop s h = ground arith

pub can_post-keep :
    (state s : ExecutionState)
    → rank state ≡ 1 ⊎ rank state ≡ 3 ⊎ (set_state state s).0 ≡ false
    → can_post (set_state state s).1 ≡ can_post s
unfolding set_state
can_post-keep ready s h = ground arith
can_post-keep running s h = ground arith
can_post-keep shutting_down s h = ground arith
can_post-keep stopped s h = ground arith
