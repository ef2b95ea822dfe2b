-- ===== src/FromScratch/Senders.antt =====
-- examples/from-scratch.cpp: just, then and sync_wait. A sender is what `connect` and `start` make of a
-- receiver; `W` is what a call of a receiver does. The functions given to `then` do not throw.
pub mod Laws
use grpc_p.Base.{Bool, true, false, Option, none, some, if◌then◌else◌}

pub record Receiver (V E W : Type 0) : Type 0 where
  pub set_value : V → W
  pub set_error : E → W
  pub set_stopped : W

abbrev pub Sender : Type 0 → Type 0 → Type 1
Sender V E = (W : Type 0) → Receiver V E W → W

module _ {V E : Type 0} where
  -- `just_operation`
  unfoldable pub just : V → Sender V E
  just v W r = r.set_value v

  unfoldable pub then_receiver : {U W : Type 0} → Receiver V E W → (U → V) → Receiver U E W
  then_receiver r function = record {
    set_value = λ val. r.set_value (function val);
    set_error = r.set_error;
    set_stopped = r.set_stopped;
  }

  -- `then_operation`
  unfoldable pub then_ : {U : Type 0} → Sender U E → (U → V) → Sender V E
  unfolding then_receiver
  then_ s function W r = s W (then_receiver r function)

-- `sync_wait_control_block`, with the optional that it comes with.
pub record Control (V E : Type 0) : Type 0 where
  pub value : Option V
  pub ex : Option E
  pub is_done : Bool

abbrev pub new_control : {V E : Type 0} → Control V E
new_control = record { value = none; ex = none; is_done = false }

unfoldable pub sync_wait_receiver : {V E : Type 0} → Receiver V E (Control V E → Control V E)
sync_wait_receiver = record {
  set_value = λ val c. record c { value = some val; is_done = true };
  set_error = λ ex c. record c { ex = some ex; is_done = true };
  set_stopped = λ c. record c { is_done = true };
}

-- How `sync_wait` ends.
pub data Waited (V E : Type 0) : Type 0 where
  returned : Option V → Waited V E
  rethrown : E → Waited V E
  blocks : Waited V E

unfoldable pub waited : {V E : Type 0} → Control V E → Waited V E
waited c =
    if c.is_done then (elim (c.ex) [ some e ↦ rethrown e | none ↦ returned c.value ]) else blocks

unfoldable pub sync_wait : {V E : Type 0} → Sender V E → Waited V E
unfolding sync_wait_receiver waited
sync_wait {V} {E} s = waited (s (Control V E → Control V E) sync_wait_receiver new_control)
