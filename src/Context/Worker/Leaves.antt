-- ===== src/Context/Worker/Leaves.antt =====
-- When a worker leaves its loop, and when it sleeps.
use native.Mathlib.Nat.{mod-lt}
use grpc_p.Base.{
  ℕ, zero, suc, ◌+◌, ◌^◌, ◌≤◌, ◌<◌, ◌≡◌, ◌≢◌, ◌↔◌, ◌∙◌, Bool, true, false, none, refl, List, [],
  ◌∷◌, arith, sym, ap, get_or, length,
}
use grpc_p.Base.Rows.{total}
use grpc_p.Queue.Stealing.{StealingQueue, u32, slot, steal}
use grpc_p.Queue.Probe.{slot-surjective}
use grpc_p.Context.Worker.{
  NextStatus, shutdown, got_event, Counts, run_completion_queues, run_all_queues, no_counts, turn,
  ran_one,
}
use grpc_p.Context.Worker.Round.{Asked, ask_queues-Asked}

-- What is known of the counters after some sets of queues: `none_ready` and `all_shut` stand for what
-- all the queues answer.
record Summed (all_shut none_ready : Type 0) (queues sets : ℕ) (k k' : Counts) : Type 0 where
  totals : k'.total_cq ≡ k.total_cq + queues
  shut_le : k'.shutdown_cq ≤ k.shutdown_cq + queues
  shut_iff : (k'.shutdown_cq ≡ k.shutdown_cq + queues) ↔ all_shut
  things_ge : k.things_executed ≤ k'.things_executed
  things_le : k'.things_executed ≤ k.things_executed + sets
  ready_iff : (k'.things_executed ≡ k.things_executed) ↔ none_ready

-- Room in the 32-bit counters.
record Fits (queues sets : ℕ) (k : Counts) : Type 0 where
  total_fits : k.total_cq + queues < 2 ^ 32
  shut_fits : k.shutdown_cq + queues < 2 ^ 32
  things_fit : k.things_executed + sets < 2 ^ 32

-- Each queue of a set is asked in a full round.
run_completion_queues-Summed :
    (answer : ℕ → NextStatus) (t n : ℕ) (k : Counts)
    → t + n ≤ 2 ^ 32
    → Fits n 1 k
    → Summed
        ((i : ℕ) → i < n → answer i ≡ shutdown)
        ((i : ℕ) → i < n → answer i ≢ got_event)
        n
        1
        k
        (run_completion_queues answer t n k)
unfolding run_completion_queues
run_completion_queues-Summed answer t n k near fits = record {
  totals = omega (arith, a.same_total, fits.total_fits);
  shut_le = a.shut_le;
  shut_iff = (
    λ e i small.
        let (j, hi, at_i) = slot-surjective t n i small near in
        ap answer (sym at_i) ∙ a.shut_all e j (omega arith) (omega arith),
    λ h. a.all_shut (λ j lo hi. h (slot t j n) (mod-lt _ (omega arith))),
  );
  things_ge = a.things_ge;
  things_le = a.things_le;
  ready_iff = (
    λ e i small ready.
        let (j, hi, at_i) = slot-surjective t n i small near in
        a.ready_none e j (omega arith) (omega arith) (ap answer at_i ∙ ready),
    λ h. a.none_ready (λ j lo hi. h (slot t j n) (mod-lt _ (omega arith))),
  );
}
  where
    k1 : Counts
    k1 = record k { total_cq = u32 (k.total_cq + n) }

    a : Asked answer t n n 0 k1 (run_completion_queues answer t n k)
    a = ask_queues-Asked answer t n n 0 k1 fits.shut_fits fits.things_fit

-- Every queue of every set.
abbrev pub AllShut : (ℕ → ℕ → NextStatus) → List ℕ → Type 0
AllShut answers sizes = (s i : ℕ) → i < get_or sizes s 0 → answers s i ≡ shutdown

abbrev pub NoneReady : (ℕ → ℕ → NextStatus) → List ℕ → Type 0
NoneReady answers sizes = (s i : ℕ) → i < get_or sizes s 0 → answers s i ≢ got_event

-- The first set, and then the others.
Summed-cons :
    (answers : ℕ → ℕ → NextStatus) (n S : ℕ) (sizes : List ℕ) {k k1 k' : Counts}
    → Summed
        ((i : ℕ) → i < n → answers 0 i ≡ shutdown)
        ((i : ℕ) → i < n → answers 0 i ≢ got_event)
        n
        1
        k
        k1
    → Summed
        (AllShut (λ s. answers (suc s)) sizes)
        (NoneReady (λ s. answers (suc s)) sizes)
        S
        (length sizes)
        k1
        k'
    → Summed
        (AllShut answers (n ∷ sizes))
        (NoneReady answers (n ∷ sizes))
        (n + S)
        (length (n ∷ sizes))
        k
        k'
Summed-cons answers n S sizes {k} {k1} {k'} a b = record {
  totals = omega (arith, a.totals, b.totals);
  shut_le = omega (arith, a.shut_le, b.shut_le);
  shut_iff = (shut, λ h. omega (arith, a.shut_iff.1 (h 0), b.shut_iff.1 (λ s. h (suc s))));
  things_ge = omega (arith, a.things_ge, b.things_ge);
  things_le = omega (arith, a.things_le, b.things_le);
  ready_iff = (ready, λ h. omega (arith, a.ready_iff.1 (h 0), b.ready_iff.1 (λ s. h (suc s))));
}
  where
    shut : k'.shutdown_cq ≡ k.shutdown_cq + (n + S) → AllShut answers (n ∷ sizes)
    shut e zero i h = a.shut_iff.0 (omega (arith, e, a.shut_le, b.shut_le)) i h
    shut e (suc s) i h = b.shut_iff.0 (omega (arith, e, a.shut_le, b.shut_le)) s i h

    ready : k'.things_executed ≡ k.things_executed → NoneReady answers (n ∷ sizes)
    ready e zero i h = a.ready_iff.0 (omega (arith, e, a.things_ge, b.things_ge)) i h
    ready e (suc s) i h = b.ready_iff.0 (omega (arith, e, a.things_ge, b.things_ge)) s i h

run_all_queues-Summed :
    (answers : ℕ → ℕ → NextStatus) (t : ℕ) (sizes : List ℕ) (k : Counts)
    → t + total (λ n. n) sizes ≤ 2 ^ 32
    → Fits (total (λ n. n) sizes) (length sizes) k
    → Summed
        (AllShut answers sizes)
        (NoneReady answers sizes)
        (total (λ n. n) sizes)
        (length sizes)
        k
        (run_all_queues answers t sizes k)
unfolding run_all_queues total
run_all_queues-Summed answers t [] k near fits = record {
  totals = omega arith;
  shut_le = omega arith;
  shut_iff = (λ e s i h. elim h [ ], λ h. omega arith);
  things_ge = omega arith;
  things_le = omega arith;
  ready_iff = (λ e s i h. elim h [ ], λ h. refl);
}
run_all_queues-Summed answers t (n ∷ sizes) k near fits =
    let a = run_completion_queues-Summed (answers 0) t n k (omega arith) (record {
      total_fits = omega (arith, fits.total_fits);
      shut_fits = omega (arith, fits.shut_fits);
      things_fit = omega (arith, fits.things_fit);
    }) in
    Summed-cons answers n (total (λ n. n) sizes) sizes a (
      run_all_queues-Summed (λ s. answers (suc s)) t sizes (run_completion_queues (answers 0) t n k)
        (omega arith)
        (record {
          total_fits = omega (arith, fits.total_fits, a.totals);
          shut_fits = omega (arith, fits.shut_fits, a.shut_le);
          things_fit = omega (arith, fits.things_fit, a.things_le);
        }))

module _ {ℓ} {T : Type ℓ} where
  -- Where a worker's number and the number of queues fit 32 bits together, and so does the number
  -- of servers: it leaves its loop exactly when every queue of the context and of each server
  -- answers that it has been shut down; and it sleeps exactly when it does not leave, takes no
  -- thunk and no queue at all has an event.
  pub turn-leaves-sleeps :
      (locks : ℕ → Bool) (answers : ℕ → ℕ → NextStatus) (t : ℕ) (sizes : List ℕ)
      (q : StealingQueue T)
      → t + total (λ n. n) sizes < 2 ^ 32
      → length sizes + 1 < 2 ^ 32
      → (((turn locks answers t sizes q).leaves ≡ true) ↔ AllShut answers sizes)
        × (((turn locks answers t sizes q).sleeps ≡ true) ↔ (
            ((turn locks answers t sizes q).leaves ≡ false)
            × ((steal locks q).0 ≡ none)
            × NoneReady answers sizes))
  unfolding turn ran_one
  turn-leaves-sleeps locks answers t sizes q near few = (
    (
      λ e. s.shut_iff.0 (ground (arith, e, s.totals)),
      λ h. ground (arith, s.shut_iff.1 h, s.totals),
    ),
    (
      λ e. (
        ground arith,
        ground (arith, s.things_le),
        s.ready_iff.0 (ground (arith, s.things_ge, s.things_le)),
      ),
      λ h. ground (arith, h, s.ready_iff.1 (h.2)),
    ),
  )
    where
      s :
          Summed
            (AllShut answers sizes)
            (NoneReady answers sizes)
            (total (λ n. n) sizes)
            (length sizes)
            no_counts
            (run_all_queues answers t sizes no_counts)
      s =
          run_all_queues-Summed answers t sizes no_counts (omega arith)
            (record { total_fits = omega arith; shut_fits = omega arith; things_fit = omega arith })
