-- ===== src/Context/Crew/Defs.antt =====
-- The threads of a pool and the steps that each may take.
use grpc_p.Base.{
  ℕ, ◌+◌, ◌≡◌, ◌≢◌, Bool, true, false, some, List, [], ◌∷◌, ◌++◌, replicate, set, get_elem?, ◌==◌,
}
use grpc_p.Context.Worker.{NextStatus, run_all_queues, no_counts}
use grpc_p.Queue.Threads.{
  Pc, idle, entered, leaving, refusing, popping, draining, testing, Shared, Move, System,
}
use grpc_p.Queue.Threads as Threads

-- Where a worker calls its thunks: in its loop, or after it.
pub data Mode : Type 0 where
  looping shutdown : Mode

-- What a thread does.
pub data Duty : Type 0 where
  outside : Duty  -- not of the pool: it posts now and then
  turning : Duty  -- at the head of the `while`
  stealing : Duty  -- in `try_pop`
  ejecting : Duty  -- in `stop_and_eject`
  calling : Mode → List ℕ → Duty  -- before the call of the first of these thunks
  in_thunk : Mode → List ℕ → Duty  -- in a thunk; these are left to call
  done : Duty  -- returned

abbrev pub may_post : Duty → Bool
may_post outside = true
may_post (in_thunk mode xs) = true
may_post _ = false

-- Whether all queues answer that they are shut down, by the counts of an iteration.
unfoldable pub all_shut :
    (answers : ℕ → ℕ → NextStatus) → (thread_number : ℕ) → (sizes : List ℕ) → Bool
all_shut answers thread_number sizes =
    let k = run_all_queues answers thread_number sizes no_counts in k.shutdown_cq == k.total_cq

-- Thread `i` accesses the task queue. `sizes` are those of the sets of completion queues.
pub data Access (sizes : List ℕ) (i : ℕ) (m : Shared)
    : Duty → Pc → Shared → Duty → Pc → Type 0 where
  begin_push :
      {d : Duty} {m' : Shared} (x : ℕ)
      → may_post d ≡ true
      → Move m idle m' (entered x)
      → Access sizes i m d idle m' d (entered x)
  inside :
      {d : Duty} {p p' : Pc} {m' : Shared}
      → p ≢ idle
      → p' ≢ idle
      → Move m p m' p'
      → Access sizes i m d p m' d p'
  pushed :
      {d : Duty} {x : ℕ} {m' : Shared}
      → Move m (leaving x) m' idle
      → Access sizes i m d (leaving x) m' d idle
  refused :
      {d : Duty} {x : ℕ} {m' : Shared}
      → Move m (refusing x) m' idle
      → Access sizes i m d (refusing x) m' d idle
  begin_pop :
      {o j : ℕ} {m' : Shared} (answers : ℕ → ℕ → NextStatus)
      → all_shut answers i sizes ≡ false
      → Move m idle m' (popping o j)
      → Access sizes i m turning idle m' stealing (popping o j)
  popped :
      {o j x : ℕ} {m' : Shared}
      → Move m (popping o j) m' idle
      → m'.delivered ≡ x ∷ m.delivered
      → Access sizes i m stealing (popping o j) m' (calling looping (x ∷ [])) idle
  empty :
      {o j : ℕ}
      → Move m (popping o j) m idle
      → Access sizes i m stealing (popping o j) m turning idle
  begin_eject :
      {m' : Shared} (answers : ℕ → ℕ → NextStatus)
      → all_shut answers i sizes ≡ true
      → Move m idle m' (draining [] 0)
      → Access sizes i m turning idle m' ejecting (draining [] 0)
  ejected :
      {got : List ℕ} {m' : Shared}
      → Move m (testing got) m' idle
      → Access sizes i m ejecting (testing got) m' (calling shutdown got) idle

-- A thread that is not in an operation of the task queue goes on; `ran` are the thunks called so far.
pub data Turn (ran : List ℕ) : Duty → List ℕ → Duty → Type 0 where
  call :
      {mode : Mode} {x : ℕ} {xs : List ℕ}
      → Turn ran (calling mode (x ∷ xs)) (x ∷ ran) (in_thunk mode xs)
  back : {mode : Mode} {xs : List ℕ} → Turn ran (in_thunk mode xs) ran (calling mode xs)
  next : Turn ran (calling looping []) ran turning
  finish : Turn ran (calling shutdown []) ran done

pub record Crew : Type 0 where
  pub system : System
  pub duties : List Duty
  pub ran : List ℕ

-- The scheduler picks a thread.
pub data Step (sizes : List ℕ) (s : Crew) : Crew → Type 0 where
  access :
      (i : ℕ) {d d' : Duty} {p p' : Pc} {m' : Shared}
      → get_elem? s.duties i ≡ some d
      → get_elem? s.system.threads i ≡ some p
      → Access sizes i s.system.shared d p m' d' p'
      → Step sizes s (record s {
        system = record { shared = m'; threads = set s.system.threads i p' };
        duties = set s.duties i d';
      })
  go_on :
      (i : ℕ) {d d' : Duty} {ran' : List ℕ}
      → get_elem? s.duties i ≡ some d
      → get_elem? s.system.threads i ≡ some idle
      → Turn s.ran d ran' d'
      → Step sizes s (record s { duties = set s.duties i d'; ran = ran' })

-- `run` has started its threads.
abbrev pub init : (n_queues n_workers n_outside : ℕ) → Crew
init n_queues n_workers n_outside = record {
  system = Threads.init n_queues (n_workers + n_outside);
  duties = replicate n_workers turning ++ replicate n_outside outside;
  ran = [];
}

pub data Reach (sizes : List ℕ) (n_queues n_workers n_outside : ℕ) : Crew → Type 0 where
  start : Reach sizes n_queues n_workers n_outside (init n_queues n_workers n_outside)
  later :
      {s t : Crew}
      → Reach sizes n_queues n_workers n_outside s
      → Step sizes s t
      → Reach sizes n_queues n_workers n_outside t
