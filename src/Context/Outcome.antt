-- ===== src/Context/Outcome.antt =====
-- What any history of lifecycle calls comes to: every notification runs once, every queue is shut once.
use mathlib.Core.Option
use mathlib.Core.List.{append_assoc, append-nil}
use grpc_p.Base.{
  ℕ, ◌+◌, ◌<◌, ◌≡◌, ◌≢◌, refl, sym, ap, subst, ◌∙◌, true, false, Option, none, some, List, [], ◌∷◌,
  ◌++◌, map, arith,
}
use grpc_p.Context.State.{ready, running, stopped, set_state}
use grpc_p.Context.Defs.{ExecutionContext, Call, notify}
use grpc_p.Context.Post.{construct}
use grpc_p.Context.Lifecycle.{
  attach_server, run_while, stop, shutdowns, all_server_shutdowns, add_notify_at_stopped,
}
use grpc_p.Context.History.{
  Op, attach, run, halt, on_stop, perform, perform_all, notified, shut_count, before_stop,
}
use grpc_p.Context.Calls.{
  notified-append, shut_count-append, joins-none, notified-shutdowns, shut_count-shutdowns,
  servers_quiet,
}

module _ {ℓ κ} (T : Type ℓ) (F : Type κ) where
  notified-notify : (ts : List T) → notified {T = T} {F = F} (map notify ts) ≡ ts
  notified-notify [] = refl
  notified-notify (t ∷ ts) = ap (◌∷◌ t) (notified-notify ts)

  shut_count-notify : (k : ℕ) (ts : List T) → shut_count {T = T} {F = F} k (map notify ts) ≡ 0
  shut_count-notify k [] = refl
  shut_count-notify k (t ∷ ts) = shut_count-notify k ts

  -- All that a stop calls, after what was called before.
  all_calls : List (Call T F) → ℕ → List ℕ → List (Call T F) → List T → List (Call T F)
  all_calls before cqs servers joined ts =
      before ++ (shutdowns cqs 0 ++ (all_server_shutdowns 0 servers ++ (joined ++ map notify ts)))

  notified-all_calls :
      (before : List (Call T F)) (cqs : ℕ) (servers : List ℕ) (joined : List (Call T F))
      (ts : List T)
      → notified joined ≡ []
      → notified (all_calls before cqs servers joined ts) ≡ notified before ++ ts
  unfolding all_calls
  notified-all_calls before cqs servers joined ts quiet = simp (
    notified-append T F,
    notified-shutdowns T F cqs 0,
    (servers_quiet T F 0 servers).0,
    quiet,
    notified-notify,
  )

  shut_count-all_calls :
      (k : ℕ) (before : List (Call T F)) (cqs : ℕ) (servers : List ℕ) (joined : List (Call T F))
      (ts : List T)
      → shut_count k joined ≡ 0
      → k < cqs
      → shut_count k (all_calls before cqs servers joined ts) ≡ shut_count k before + 1
  unfolding all_calls
  shut_count-all_calls k before cqs servers joined ts quiet small = omega (
    arith,
    shut_count-append T F k before
        (shutdowns cqs 0 ++ (all_server_shutdowns 0 servers ++ (joined ++ map notify ts))),
    shut_count-append T F k (shutdowns cqs 0)
        (all_server_shutdowns 0 servers ++ (joined ++ map notify ts)),
    shut_count-append T F k (all_server_shutdowns 0 servers) (joined ++ map notify ts),
    shut_count-append T F k joined (map notify ts),
    shut_once,
    (servers_quiet T F 0 servers).1 k,
    shut_count-notify k ts,
  )
    where
      shut_once : shut_count k (shutdowns {T = T} {F = F} cqs 0) ≡ 1
      shut_once = shut_count-shutdowns T F cqs 0 k ∙ ground arith

  -- What a history has added to the calls: nothing, or one shutdown of each queue with the pending
  -- notifications and the later ones `ts`.
  abbrev Added : ExecutionContext T F → ExecutionContext T F → Option (List T) → Type ℓ
  Added c c' none =
      (notified c'.calls ≡ notified c.calls)
      × ((k : ℕ) → k < c.cqs → shut_count k c'.calls ≡ shut_count k c.calls)
      × (c'.state ≢ stopped)
  Added c c' (some ts) =
      (notified c'.calls ≡ notified c.calls ++ (c.notifications ++ ts))
      × ((k : ℕ) → k < c.cqs → shut_count k c'.calls ≡ shut_count k c.calls + 1)
      × (c'.state ≡ stopped)

  -- A stopped context stays as it is.
  stopped_all :
      (c : ExecutionContext T F) (ops : List (Op T))
      → perform_all ops (record c { state = stopped }) ≡ record c { state = stopped }
  unfolding perform_all perform attach_server run_while stop add_notify_at_stopped set_state
  stopped_all c [] = refl
  stopped_all c (attach k ∷ ops) = stopped_all c ops
  stopped_all c (_ ∷ ops) = stopped_all c ops

  -- The stop of a running context, by a thread that is not its own.
  stop_running :
      (c : ExecutionContext T F)
      → (c' : ExecutionContext T F) × (perform halt (record c { state = running })
          ≡ record c' { state = stopped })
        × Added (record c { state = running }) (record c' { state = stopped }) (some [])
  unfolding perform stop set_state all_calls
  stop_running c =
      let (joined, e, quiet, other) = joins-none T F c.threads 0 in
      (
        record c {
          threads = 0;
          notifications = [];
          calls = all_calls c.calls c.cqs c.servers joined c.notifications;
        },
        rw e,
        (
          notified-all_calls c.calls c.cqs c.servers joined c.notifications quiet
              ∙ ap (◌++◌ (notified c.calls)) (sym (append-nil c.notifications)),
          λ k small.
              shut_count-all_calls k c.calls c.cqs c.servers joined c.notifications (other k) small,
          refl,
        ),
      )

  -- Adding a pending notification before the rest.
  Added-on_stop :
      (c c' : ExecutionContext T F) (t : T) (o : Option (List T))
      → Added (record c { notifications = c.notifications ++ t ∷ [] }) c' o
      → Added c c' (Option.map (◌∷◌ t) o)
  Added-on_stop c c' t none a = a
  Added-on_stop c c' t (some ts) a =
      (a.0 ∙ ap (◌++◌ (notified c.calls)) (append_assoc c.notifications (t ∷ []) ts), a.1, a.2)

  running_all :
      (c : ExecutionContext T F) (ops : List (Op T))
      → Added
          (record c { state = running })
          (perform_all ops (record c { state = running }))
          (before_stop true ops)
  unfolding perform_all perform attach_server run_while add_notify_at_stopped set_state
  running_all c [] = (refl, λ k small. refl, λ e. cc)
  running_all c (attach k ∷ ops) = running_all c ops
  running_all c (run ∷ ops) = running_all c ops
  running_all c (halt ∷ ops) =
      let (c', e, a) = stop_running c in
      subst (λ d. Added (record c { state = running }) (perform_all ops d) (some [])) (sym e)
        (subst (λ d. Added (record c { state = running }) d (some [])) (sym (stopped_all c' ops)) a)
  running_all c (on_stop t ∷ ops) =
      Added-on_stop (record c { state = running })
        (perform_all ops (record c { state = running; notifications = c.notifications ++ t ∷ [] }))
        t (before_stop true ops)
        (running_all (record c { notifications = c.notifications ++ t ∷ [] }) ops)

  ready_all :
      (c : ExecutionContext T F) (ops : List (Op T))
      → Added
          (record c { state = ready })
          (perform_all ops (record c { state = ready }))
          (before_stop false ops)
  unfolding perform_all perform attach_server run_while stop add_notify_at_stopped set_state
  ready_all c [] = (refl, λ k small. refl, λ e. cc)
  ready_all c (attach k ∷ ops) = ready_all (record c { servers = c.servers ++ k ∷ [] }) ops
  ready_all c (run ∷ ops) = running_all (record c { threads = c.n_threads }) ops
  ready_all c (halt ∷ ops) = ready_all c ops
  ready_all c (on_stop t ∷ ops) =
      Added-on_stop (record c { state = ready })
        (perform_all ops (record c { state = ready; notifications = c.notifications ++ t ∷ [] })) t
        (before_stop false ops)
        (ready_all (record c { notifications = c.notifications ++ t ∷ [] }) ops)

  -- What the history of a new context comes to, for the stop that takes effect, if there is one.
  abbrev pub ComesTo : ℕ → ExecutionContext T F → Option (List T) → Type ℓ
  ComesTo cqs c none =
      (notified c.calls ≡ []) × ((k : ℕ) → k < cqs → shut_count k c.calls ≡ 0) × (c.state ≢ stopped)
  ComesTo cqs c (some ts) =
      (notified c.calls ≡ ts) × ((k : ℕ) → k < cqs → shut_count k c.calls ≡ 1) × (c.state ≡ stopped)

  -- After any history of calls on a new context, made by threads that are not its own: if a stop
  -- has come after a run, the thunks registered before the first such stop have run, each once and
  -- in the order of registration, no later one has, each completion queue has been shut down once,
  -- and the context is stopped. Otherwise no notification has run, no queue has been shut down, and
  -- the context is not stopped.
  pub perform_all-ComesTo :
      (n_threads number_cqs : ℕ) (ops : List (Op T))
      → ComesTo number_cqs
          (perform_all ops (construct n_threads number_cqs))
          (before_stop false ops)
  unfolding construct
  perform_all-ComesTo n_threads number_cqs ops =
      from_new (before_stop false ops) (ready_all (construct n_threads number_cqs) ops)
    where
      from_new :
          (o : Option (List T))
          → Added
              (construct n_threads number_cqs)
              (perform_all ops (construct n_threads number_cqs))
              o
          → ComesTo number_cqs (perform_all ops (construct n_threads number_cqs)) o
      from_new none a = a
      from_new (some ts) a = a
