-- ===== src/Server/Container/Examples.antt =====
-- Servers made on concrete contexts.
use grpc_p.Base.{ℕ, ◌+◌, ◌%◌, ◌^◌, ◌≡◌, ◌≢◌, refl, none, length, if◌then◌else◌, ltb, ◌==◌}
use Prim.Native.String.{String}
use Prim.Native.String.{◌++◌ as str_append}
use grpc_p.Context.State.{ready, running}
use grpc_p.Context.Defs.{ExecutionContext}
use grpc_p.Context.Post.{construct}
use grpc_p.Context.Lifecycle as Lifecycle
use grpc_p.Context.Lifecycle.{already_running, run_while, stop}
use grpc_p.Server.Container.{Container, make, ok, threw, not_attached}
use grpc_p.Server.Container.Counts.{wired, started, server_shut_count}
use grpc_p.Server.Container.Wiring.{make_run_stop, make_late}

-- The text of a port, and the port that is found.
abbrev text : ℕ → String
text p = if p == 8080 then "8080" else "0"

abbrev selected : String → ℕ
selected address = 50051

abbrev fresh : ExecutionContext ℕ ℕ
fresh = construct 2 1

abbrev busy : ExecutionContext ℕ ℕ
busy = record fresh { state = running }

three : ◌≢◌ {A = ℕ} 3 0
three e = cc

fresh-ready : fresh.state ≡ ready
unfolding construct
fresh-ready = refl

busy-late : busy.state ≢ ready
busy-late e = cc

make_run_stop_example :
    (k : Container) × (c' c'' : ExecutionContext ℕ ℕ) × ((make text selected 3 0 fresh).result
      ≡ ok (k, c'))
    × (k.port ≡ selected (str_append "0.0.0.0:" (text 0)) % 2 ^ 16)
    × (stop none (run_while c') ≡ Lifecycle.ok c'')
    × ((i : ℕ)
        → (wired i (make text selected 3 0 fresh).calls ≡ (if ltb i 3 then 1 else 0))
          × (server_shut_count ℕ ℕ (length fresh.servers) i c''.calls
              ≡ server_shut_count ℕ ℕ (length fresh.servers) i fresh.calls
                + (if ltb i 3 then 1 else 0)))
make_run_stop_example = make_run_stop text selected 3 0 fresh three fresh-ready

make_late_example :
    ((make text selected 3 8080 busy).result ≡ threw (not_attached already_running))
    × (started (make text selected 3 8080 busy).calls ≡ 1)
    × ((i : ℕ) → wired i (make text selected 3 8080 busy).calls ≡ (if ltb i 3 then 1 else 0))
make_late_example = make_late text selected 3 8080 busy three busy-late
