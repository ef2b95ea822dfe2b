-- ===== src/Context/Worker/Round.antt =====
-- What the counters of an iteration say of the queues' answers.
use grpc_p.Base.{
  ℕ, zero, suc, ◌+◌, ◌^◌, ◌≤◌, ◌<◌, ◌≡◌, ◌≢◌, ◌⊎◌, inl, inr, ◌==◌, ◌∙◌, true, refl, arith,
  ℕ_discrete, ap,
}
use grpc_p.Queue.Stealing.{slot}
use grpc_p.Context.Worker.{
  NextStatus, shutdown, got_event, timeout, execute_cq, Counts, tally, executed_one,
  shutdown_requested, ask_queues,
}

-- Of one answer.
abbrev pub shut_one : NextStatus → ℕ
shut_one shutdown = 1
shut_one _ = 0

abbrev pub event_one : NextStatus → ℕ
event_one got_event = 1
event_one _ = 0

-- What is known of `left` tries from try `i` on that began with `k` and ended with `k'`.
pub record Asked (answer : ℕ → NextStatus) (t n left i : ℕ) (k k' : Counts) : Type 0 where
  pub same_total : k'.total_cq ≡ k.total_cq
  pub shut_le : k'.shutdown_cq ≤ k.shutdown_cq + left
  pub all_shut :
      ((j : ℕ) → i ≤ j → j < i + left → answer (slot t j n) ≡ shutdown)
      → k'.shutdown_cq ≡ k.shutdown_cq + left
  pub shut_all :
      k'.shutdown_cq ≡ k.shutdown_cq + left
      → (j : ℕ) → i ≤ j
      → j < i + left
      → answer (slot t j n) ≡ shutdown
  pub things_ge : k.things_executed ≤ k'.things_executed
  pub things_le : k'.things_executed ≤ k.things_executed + 1
  pub none_ready :
      ((j : ℕ) → i ≤ j → j < i + left → answer (slot t j n) ≢ got_event)
      → k'.things_executed ≡ k.things_executed
  pub ready_none :
      k'.things_executed ≡ k.things_executed
      → (j : ℕ) → i ≤ j
      → j < i + left
      → answer (slot t j n) ≢ got_event

answer-cases : (s : NextStatus) → (s ≡ shutdown) ⊎ ((s ≡ got_event) ⊎ (s ≡ timeout))
answer-cases shutdown = inl refl
answer-cases got_event = inr (inl refl)
answer-cases timeout = inr (inr refl)

from_here : (i j : ℕ) → i ≤ j → (j ≡ i) ⊎ (suc i ≤ j)
from_here i j lo = elim (ℕ_discrete j i) [ yes e ↦ inl e | no ne ↦ inr (omega arith) ]

==_self : (a : ℕ) → (a == a) ≡ true
==_self a = ground arith

module _ (answer : ℕ → NextStatus) (t n : ℕ) where
  -- After an event the loop asks no more.
  ask-executed :
      (left i current : ℕ) (k : Counts)
      → current < k.things_executed
      → ask_queues answer t n current left i k ≡ k
  unfolding ask_queues
  ask-executed zero i current k h = refl
  ask-executed (suc left) i current k h = ground arith

  -- A try with each answer, before the rest of the round.
  Asked-shut :
      {left i : ℕ} {k k' : Counts}
      → answer (slot t i n) ≡ shutdown
      → k.shutdown_cq + suc left < 2 ^ 32
      → Asked answer t n left (suc i) (tally shutdown_requested k) k'
      → Asked answer t n (suc left) i k k'
  unfolding tally
  Asked-shut {left} {i} e few a = record {
    same_total = a.same_total;
    shut_le = omega (arith, a.shut_le);
    all_shut = λ h. omega (arith, a.all_shut (λ j lo hi. h j (omega arith) (omega arith)));
    shut_all = λ all j lo hi. elim (from_here i j lo) [
      | inl here ↦ ap (λ j. answer (slot t j n)) here ∙ e
      | inr on ↦ a.shut_all (omega (arith, all)) j on (omega arith)
    ];
    things_ge = a.things_ge;
    things_le = a.things_le;
    none_ready = λ h. a.none_ready (λ j lo hi. h j (omega arith) (omega arith));
    ready_none = λ same j lo hi ready. elim (from_here i j lo) [
      | inl here ↦ cc (here, e, ready)
      | inr on ↦ a.ready_none same j on (omega arith) ready
    ];
  }

  Asked-timeout :
      {left i : ℕ} {k k' : Counts}
      → answer (slot t i n) ≡ timeout
      → Asked answer t n left (suc i) k k'
      → Asked answer t n (suc left) i k k'
  Asked-timeout {left} {i} e a = record {
    same_total = a.same_total;
    shut_le = omega (arith, a.shut_le);
    all_shut = λ h. cc (h i (omega arith) (omega arith), e);
    shut_all = λ all j lo hi. absurd (omega (arith, a.shut_le));
    things_ge = a.things_ge;
    things_le = a.things_le;
    none_ready = λ h. a.none_ready (λ j lo hi. h j (omega arith) (omega arith));
    ready_none = λ same j lo hi ready. elim (from_here i j lo) [
      | inl here ↦ cc (here, e, ready)
      | inr on ↦ a.ready_none same j on (omega arith) ready
    ];
  }

  Asked-event :
      {left i : ℕ} {k : Counts}
      → answer (slot t i n) ≡ got_event
      → k.things_executed + 1 < 2 ^ 32
      → Asked answer t n (suc left) i k (tally executed_one k)
  unfolding tally
  Asked-event {left} {i} e room = record {
    same_total = refl;
    shut_le = omega arith;
    all_shut = λ h. cc (h i (omega arith) (omega arith), e);
    shut_all = λ all j lo hi. absurd (omega arith);
    things_ge = omega arith;
    things_le = omega arith;
    none_ready = λ h. absurd (h i (omega arith) (omega arith) e);
    ready_none = λ same j lo hi. absurd (omega arith);
  }

  pub ask_queues-Asked :
      (left i : ℕ) (k : Counts)
      → k.shutdown_cq + left < 2 ^ 32
      → k.things_executed + 1 < 2 ^ 32
      → Asked answer t n left i k (ask_queues answer t n k.things_executed left i k)
  unfolding ask_queues tally execute_cq
  ask_queues-Asked zero i k few room = record {
    same_total = refl;
    shut_le = omega arith;
    all_shut = λ h. omega arith;
    shut_all = λ e j lo hi. absurd (omega arith);
    things_ge = omega arith;
    things_le = omega arith;
    none_ready = λ h. refl;
    ready_none = λ e j lo hi. absurd (omega arith);
  }
  ask_queues-Asked (suc left) i k few room = elim (answer-cases (answer (slot t i n))) [
    | inl e ↦
        rw (e, ==_self k.things_executed)
          (Asked-shut e few
            (ask_queues-Asked left (suc i) (tally shutdown_requested k) (omega arith) room))
    | inr (inl e) ↦
        rw
          (
            e,
            ==_self k.things_executed,
            ask-executed left (suc i) k.things_executed (tally executed_one k) (omega arith),
          )
          (Asked-event e room)
    | inr (inr e) ↦
        rw (e, ==_self k.things_executed)
          (Asked-timeout e (ask_queues-Asked left (suc i) k (omega arith) room))
  ]
