-- ===== src/Server/Container/Wiring.antt =====
-- Making a server, and the run and the stop of its context: which queues are wired, and which are shut.
use grpc_p.Base.{
  ℕ, ◌+◌, ◌%◌, ◌^◌, ◌≡◌, ◌≢◌, refl, none, List, [], ◌∷◌, ◌++◌, map, length, replicate, arith,
  if◌then◌else◌, ◌==◌, ltb, false,
}
use Prim.Native.String.{String}
use Prim.Native.String.{◌++◌ as str_append}
use grpc_p.Context.State.{ExecutionState, ready, shutting_down, running, stopped, set_state, rank}
use grpc_p.Context.Defs as Context
use grpc_p.Context.Defs.{ExecutionContext, notify}
use grpc_p.Context.Lifecycle as Lifecycle
use grpc_p.Context.Lifecycle.{
  already_running, attach_server, run_while, stop, shutdowns, all_server_shutdowns, joins,
}
use grpc_p.Server.Container.{
  Call, Container, attached, add_listening_port, register_service, add_completion_queue,
  build_and_start, wire_all, init, make, ok, threw, not_attached,
}
use grpc_p.Server.Container.Counts.{
  wired, started, wired-wire_all, started-wire_all, wired-queues, started-queues, server_shut_count,
  shut-append, shut-shutdowns, shut-notify, joins-quiet, shut-all_server_shutdowns,
}

some_queue : (n : ℕ) → n ≢ 0 → (n == 0) ≡ false
some_queue n ne = ground (arith, ne)

not_ready : (s : ExecutionState) → s ≢ ready → (rank s == rank ready) ≡ false
not_ready ready late = ground (arith, late)
not_ready running late = refl
not_ready shutting_down late = refl
not_ready stopped late = refl

module _ (decimal : ℕ → String) (selected : String → ℕ) where
  -- The calls of `init` where there is a queue to make.
  opening : (queues port : ℕ) → List Call
  opening queues port =
      add_listening_port (str_append "0.0.0.0:" (decimal port))
      ∷ register_service
      ∷ (replicate queues add_completion_queue ++ (build_and_start ∷ wire_all queues 0))

  bound : (port : ℕ) → ℕ
  bound port = selected (str_append "0.0.0.0:" (decimal port)) % 2 ^ 16

  make-opens {ℓ κ} :
      {T : Type ℓ} {F : Type κ} (queues port : ℕ) (c : ExecutionContext T F)
      → queues ≢ 0
      → make decimal selected queues port c ≡ record {
        calls = opening queues port;
        result =
            attached decimal selected
              (record { cqs = queues; port = bound port })
              (attach_server queues c);
      }
  unfolding make init opening bound
  make-opens queues port c ne = rw (some_queue queues ne)

  -- The server is started once and each of its queues wired once.
  opening-wires :
      (queues port : ℕ)
      → (started (opening queues port) ≡ 1)
        × ((i : ℕ) → wired i (opening queues port) ≡ (if ltb i queues then 1 else 0))
  unfolding opening
  opening-wires queues port =
      let rest : List Call = build_and_start ∷ wire_all queues 0 in
      (
        omega (arith, started-queues queues rest, started-wire_all queues 0),
        λ i. ground (arith, wired-queues queues i rest, wired-wire_all queues 0 i),
      )

  -- The stop of a running context shuts each queue of its last server once.
  stop-shuts {ℓ κ} :
      {T : Type ℓ} {F : Type κ} (c : ExecutionContext T F) (before : List ℕ) (n : ℕ)
      → (c' : ExecutionContext T F) × (stop none
            (record c { state = running; servers = before ++ n ∷ [] })
          ≡ Lifecycle.ok c')
        × ((k : ℕ)
            → server_shut_count T F (length before) k c'.calls
              ≡ server_shut_count T F (length before) k c.calls + (if ltb k n then 1 else 0))
  unfolding stop set_state
  stop-shuts {T} {F} c before n =
      let (joined, e, quiet) = joins-quiet T F c.threads 0 in
      let last : ℕ = length before in
      let ends : List (Context.Call T F) = map notify c.notifications in
      (
        record c {
          threads = 0;
          notifications = [];
          state = stopped;
          servers = before ++ n ∷ [];
          calls =
              c.calls
              ++ (shutdowns c.cqs 0
                  ++ (all_server_shutdowns 0 (before ++ n ∷ []) ++ (joined ++ ends)));
        },
        rw e,
        λ k. omega (
          arith,
          shut-append T F last k c.calls (
              shutdowns c.cqs 0 ++ (all_server_shutdowns 0 (before ++ n ∷ []) ++ (joined ++ ends))),
          shut-append T F last k (shutdowns c.cqs 0)
              (all_server_shutdowns 0 (before ++ n ∷ []) ++ (joined ++ ends)),
          shut-append T F last k (all_server_shutdowns 0 (before ++ n ∷ [])) (joined ++ ends),
          shut-append T F last k (joined) ends,
          shut-shutdowns T F last k c.cqs 0,
          shut-notify T F last k c.notifications,
          shut-all_server_shutdowns T F last k 0 n before (omega arith),
          quiet last k,
        ),
      )

  -- A server with at least one work queue, made on a context that is ready: `make` returns a container
  -- with the port that was found, in 16 bits, and attaches it. Once the context has run and been stopped
  -- by a thread that is not its own, each queue of the server has been wired once and shut down once, and
  -- no other queue has been wired, or shut down for this server.
  pub make_run_stop {ℓ κ} :
      {T : Type ℓ} {F : Type κ} (queues port : ℕ) (c : ExecutionContext T F)
      → queues ≢ 0
      → c.state ≡ ready
      → (k : Container) × (c' c'' : ExecutionContext T F) × ((make decimal selected queues port
            c).result
          ≡ ok (k, c'))
        × (k.port ≡ selected (str_append "0.0.0.0:" (decimal port)) % 2 ^ 16)
        × (stop none (run_while c') ≡ Lifecycle.ok c'')
        × ((i : ℕ)
            → (wired i (make decimal selected queues port c).calls
                ≡ (if ltb i queues then 1 else 0))
              × (server_shut_count T F (length c.servers) i c''.calls
                  ≡ server_shut_count T F (length c.servers) i c.calls
                    + (if ltb i queues then 1 else 0)))
  unfolding attach_server run_while attached bound set_state
  make_run_stop {T} {F} queues port c ne e =
      let (c'', halts, shuts) =
        stop-shuts (record c { threads = c.n_threads; state = running }) c.servers queues in
      (
        record { cqs = queues; port = bound port },
        record c { servers = c.servers ++ queues ∷ [] },
        c'',
        rw (make-opens queues port c ne, e),
        refl,
        rw e halts,
        λ i. (rw (make-opens queues port c ne) ((opening-wires queues port).1 i), shuts i),
      )

  -- A server with at least one work queue, made on a context that is not ready any more: `make` throws,
  -- after the server has been started once and each of its queues has been wired once.
  pub make_late {ℓ κ} :
      {T : Type ℓ} {F : Type κ} (queues port : ℕ) (c : ExecutionContext T F)
      → queues ≢ 0
      → c.state ≢ ready
      → ((make decimal selected queues port c).result ≡ threw (not_attached already_running))
        × (started (make decimal selected queues port c).calls ≡ 1)
        × ((i : ℕ)
            → wired i (make decimal selected queues port c).calls ≡ (if ltb i queues then 1 else 0))
  unfolding attach_server attached
  make_late queues port c ne late = (
    rw (make-opens queues port c ne, not_ready c.state late),
    rw (make-opens queues port c ne) ((opening-wires queues port).0),
    λ i. rw (make-opens queues port c ne) ((opening-wires queues port).1 i),
  )
