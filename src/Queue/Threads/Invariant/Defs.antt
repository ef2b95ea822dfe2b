-- ===== src/Queue/Threads/Invariant/Defs.antt =====
-- How much each thread counts for, and the invariant.
use grpc_p.Base.{ℕ, ◌+◌, ◌^◌, ◌<◌, ◌≡◌, true, List, length}
use grpc_p.Base.Rows.{total, one_if, count}
use grpc_p.Queue.Content.{contents}
use grpc_p.Queue.Threads.{
  Pc, entered, choosing, trying, leaving, refusing, draining, testing, Shared,
}

-- Threads between the `fetch_add` and the `fetch_sub` of `in_push_`.
abbrev pub in_progress : Pc → ℕ
in_progress (entered x) = 1
in_progress (choosing x) = 1
in_progress (trying x o i) = 1
in_progress (leaving x) = 1
in_progress (refusing x) = 1
in_progress _ = 0

-- Threads that have seen `is_done_` unset and are still in `push`.
abbrev pub adding : Pc → ℕ
adding (choosing x) = 1
adding (trying x o i) = 1
adding (leaving x) = 1
adding _ = 0

abbrev pub stopping : Pc → ℕ
stopping (draining got i) = 1
stopping (testing got) = 1
stopping _ = 0

-- How often a thread holds `a`: as a pusher that has not pushed it, or among what it has ejected.
abbrev pub held : ℕ → Pc → ℕ
held a (entered x) = one_if a x
held a (choosing x) = one_if a x
held a (trying x o i) = one_if a x
held a (refusing x) = one_if a x
held a (draining got i) = count a got
held a (testing got) = count a got
held a _ = 0

abbrev pub ejected : ℕ → Pc → ℕ
ejected a (draining got i) = count a got
ejected a (testing got) = count a got
ejected a _ = 0

-- Pushed, and not yet reported by the return of `push`.
abbrev pub unreported : ℕ → Pc → ℕ
unreported a (leaving x) = one_if a x
unreported a _ = 0

pub record Inv (m : Shared) (ps : List Pc) : Type 0 where
  pub few : length ps < 2 ^ 32
  pub some_queue : 0 < m.n_queues
  pub sized : length m.queues ≡ m.n_queues
  pub counted : m.in_push ≡ total in_progress ps
  pub stopped : 0 < total stopping ps + m.drains → m.is_done ≡ true
  pub shut : 0 < m.drains → total adding ps ≡ 0
  pub kept :
      (a : ℕ)
      → count a m.submitted
        ≡ count a m.refused + count a m.delivered + count a (contents m.queues) + total (held a) ps
  pub reported :
      (a : ℕ)
      → count a m.accepted + total (unreported a) ps
        ≡ count a m.delivered + count a (contents m.queues) + total (ejected a) ps
