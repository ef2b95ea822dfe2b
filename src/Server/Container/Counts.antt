-- ===== src/Server/Container/Counts.antt =====
-- How often the calls of a container wire a queue, and those of a context shut a server's queue.
use grpc_p.Base.{
  ℕ, zero, suc, ◌+◌, ◌≡◌, refl, none, List, [], ◌∷◌, ◌++◌, map, length, replicate, arith,
  if◌then◌else◌, ◌==◌, leb, ltb, ◌&&◌,
}
use grpc_p.Context.Defs as Context
use grpc_p.Context.Defs.{ExecutionContext, shutdown_server, join, notify}
use grpc_p.Context.Lifecycle as Lifecycle
use grpc_p.Context.Lifecycle.{
  attach_server, run_while, stop, shutdowns, server_shutdowns, all_server_shutdowns, joins,
}
use grpc_p.Server.Container.{Call, wire_rpcs, build_and_start, add_completion_queue, wire_all}

-- How often a queue is wired, and the server started.
abbrev pub wired : ℕ → List Call → ℕ
wired i [] = 0
wired i (wire_rpcs j ∷ cs) = (if j == i then 1 else 0) + wired i cs
wired i (_ ∷ cs) = wired i cs

abbrev pub started : List Call → ℕ
started [] = 0
started (build_and_start ∷ cs) = suc (started cs)
started (_ ∷ cs) = started cs

pub wired-wire_all :
    (left i k : ℕ) → wired k (wire_all left i) ≡ (if leb i k && ltb k (i + left) then 1 else 0)
unfolding wire_all
wired-wire_all zero i k = ground arith
wired-wire_all (suc left) i k = ground (arith, wired-wire_all left (suc i) k)

pub started-wire_all : (left i : ℕ) → started (wire_all left i) ≡ 0
unfolding wire_all
started-wire_all zero i = refl
started-wire_all (suc left) i = started-wire_all left (suc i)

pub wired-queues :
    (n k : ℕ) (cs : List Call) → wired k (replicate n add_completion_queue ++ cs) ≡ wired k cs
wired-queues zero k cs = refl
wired-queues (suc n) k cs = wired-queues n k cs

pub started-queues :
    (n : ℕ) (cs : List Call) → started (replicate n add_completion_queue ++ cs) ≡ started cs
started-queues zero cs = refl
started-queues (suc n) cs = started-queues n cs

module _ {ℓ κ} (T : Type ℓ) (F : Type κ) where
  -- How often queue `k` of server `s` has been shut down.
  abbrev pub server_shut_count : (s k : ℕ) → List (Context.Call T F) → ℕ
  server_shut_count s k [] = 0
  server_shut_count s k (shutdown_server s' k' ∷ cs) =
      (if s' == s && k' == k then 1 else 0) + server_shut_count s k cs
  server_shut_count s k (_ ∷ cs) = server_shut_count s k cs

  -- The joins of a thread that is not the context's own.
  pub joins-quiet :
      (left i : ℕ)
      → (cs : List (Context.Call T F)) × (joins none left i ≡ Lifecycle.ok cs)
        × ((s k : ℕ) → server_shut_count s k cs ≡ 0)
  unfolding joins
  joins-quiet zero i = ([], refl, λ s k. refl)
  joins-quiet (suc left) i =
      let (cs, e, quiet) = joins-quiet left (suc i) in (join i ∷ cs, rw e, quiet)

  module _ (s k : ℕ) where
    pub shut-append :
        (xs ys : List (Context.Call T F))
        → server_shut_count s k (xs ++ ys) ≡ server_shut_count s k xs + server_shut_count s k ys
    shut-append [] ys = omega arith
    shut-append (shutdown_server s' k' ∷ xs) ys = omega (arith, shut-append xs ys)
    shut-append (_ ∷ xs) ys = omega (arith, shut-append xs ys)

    pub shut-shutdowns : (left i : ℕ) → server_shut_count s k (shutdowns left i) ≡ 0
    unfolding shutdowns
    shut-shutdowns zero i = refl
    shut-shutdowns (suc left) i = shut-shutdowns left (suc i)

    pub shut-notify : (ts : List T) → server_shut_count s k (map notify ts) ≡ 0
    shut-notify [] = refl
    shut-notify (t ∷ ts) = shut-notify ts

    shut-server_shutdowns :
        (s' left i : ℕ)
        → server_shut_count s k (server_shutdowns s' left i)
          ≡ (if s' == s && (leb i k && ltb k (i + left)) then 1 else 0)
    unfolding server_shutdowns
    shut-server_shutdowns s' zero i = ground arith
    shut-server_shutdowns s' (suc left) i = ground (arith, shut-server_shutdowns s' left (suc i))

    -- The last server of a list that starts with number `first`.
    pub shut-all_server_shutdowns :
        (first n : ℕ) (before : List ℕ)
        → s ≡ first + length before
        → server_shut_count s k (all_server_shutdowns first (before ++ n ∷ []))
          ≡ (if ltb k n then 1 else 0)
    unfolding all_server_shutdowns
    shut-all_server_shutdowns first n [] e =
        ground (arith, shut-append (server_shutdowns first n 0) [], shut-server_shutdowns first n 0)
    shut-all_server_shutdowns first n (q ∷ before) e = ground (
      arith,
      shut-append (server_shutdowns first q 0)
          (all_server_shutdowns (suc first) (before ++ n ∷ [])),
      shut-server_shutdowns first q 0,
      shut-all_server_shutdowns (suc first) n before (omega (arith, e)),
    )
