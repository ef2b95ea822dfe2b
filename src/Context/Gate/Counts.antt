-- ===== src/Context/Gate/Counts.antt =====
-- How much each thread and each call counts for, and the invariant.
use grpc_p.Base.{
  ℕ, zero, suc, ◌+◌, ◌^◌, ◌<◌, ◌≡◌, refl, sym, subst, ◌∙◌, true, none, List, [], ◌∷◌, ◌++◌, arith,
  length, if◌then◌else◌,
}
use grpc_p.Base.Rows.{total}
use grpc_p.Context.State.{can_post}
use grpc_p.Context.Defs.{ExecutionContext, Call, set_alarm, make_rpc, shutdown, join}
use grpc_p.Context.Lifecycle.{joins, ok, server_shutdowns, shutdowns, all_server_shutdowns}
use grpc_p.Context.History.{shut_count}
use grpc_p.Context.Calls.{shut_count-append, shut_count-shutdowns, servers_quiet}
use grpc_p.Context.Gate.{
  Post, delayed, rpc, call_of, Pc, entered, posting, leaving, waiting, halting, joining, notifying,
}

module _ {ℓ κ} {T : Type ℓ} {F : Type κ} where
  -- The queues of the context shut down so far, each as often as it was.
  abbrev pub shuts : List (Call T F) → ℕ
  shuts [] = 0
  shuts (shutdown i ∷ cs) = 1 + shuts cs
  shuts (_ ∷ cs) = shuts cs

  -- Alarms and RPCs among the calls.
  abbrev pub posts : List (Call T F) → ℕ
  posts [] = 0
  posts (set_alarm cq f t ∷ cs) = 1 + posts cs
  posts (make_rpc cq f ∷ cs) = 1 + posts cs
  posts (_ ∷ cs) = posts cs

  -- Alarms and RPCs made after some queue of the context has been shut down.
  abbrev pub late_posts : List (Call T F) → ℕ
  late_posts [] = 0
  late_posts (shutdown i ∷ cs) = posts cs
  late_posts (_ ∷ cs) = late_posts cs

  -- Threads between the `fetch_add` and the `fetch_sub` of `within_cq_post_`.
  abbrev pub in_post : Pc T F → ℕ
  in_post (entered p) = 1
  in_post (posting p) = 1
  in_post leaving = 1
  in_post _ = 0

  abbrev pub committed : Pc T F → ℕ
  committed (posting p) = 1
  committed _ = 0

  abbrev pub in_wait : Pc T F → ℕ
  in_wait waiting = 1
  in_wait _ = 0

  -- Past the busy wait of `stop`.
  abbrev pub past_wait : Pc T F → ℕ
  past_wait (halting cs) = 1
  past_wait (joining cs) = 1
  past_wait (notifying ts) = 1
  past_wait _ = 0

  -- How often a thread is still to shut queue `k` down.
  abbrev pub pending : ℕ → Pc T F → ℕ
  pending k (halting cs) = shut_count k cs
  pending k (joining cs) = shut_count k cs
  pending k _ = 0

  -- Posts among what a `stop` is still to call: none.
  abbrev pub to_post : Pc T F → ℕ
  to_post (halting cs) = posts cs
  to_post (joining cs) = posts cs
  to_post _ = 0

  pub record Inv (c : ExecutionContext T F) (ps : List (Pc T F)) : Type (ℓ ⊔ κ) where
    pub few : length ps < 2 ^ 64
    pub counted : c.within_cq_post ≡ total in_post ps
    pub open_ : can_post c.state ≡ true → shuts c.calls + total past_wait ps + total in_wait ps ≡ 0
    pub sealed : 0 < shuts c.calls + total past_wait ps → total committed ps ≡ 0
    pub quiet : total to_post ps ≡ 0
    pub late : late_posts c.calls ≡ 0
    pub once :
        (k : ℕ)
        → k < c.cqs
        → shut_count k c.calls + total (pending k) ps + total in_wait ps
          ≡ (if can_post c.state then 0 else 1)

  pub shuts-append : (xs ys : List (Call T F)) → shuts (xs ++ ys) ≡ shuts xs + shuts ys
  shuts-append [] ys = omega arith
  shuts-append (shutdown i ∷ xs) ys = omega (arith, shuts-append xs ys)
  shuts-append (_ ∷ xs) ys = shuts-append xs ys

  posts-append : (xs ys : List (Call T F)) → posts (xs ++ ys) ≡ posts xs + posts ys
  posts-append [] ys = omega arith
  posts-append (set_alarm cq f t ∷ xs) ys = omega (arith, posts-append xs ys)
  posts-append (make_rpc cq f ∷ xs) ys = omega (arith, posts-append xs ys)
  posts-append (_ ∷ xs) ys = posts-append xs ys

  -- A call that is no post is never late, and no call is before the first shutdown.
  pub late_posts-quiet :
      (xs : List (Call T F)) (call : Call T F)
      → posts (call ∷ []) ≡ 0
      → late_posts (xs ++ call ∷ []) ≡ late_posts xs
  late_posts-quiet [] call q = ground arith
  late_posts-quiet (shutdown i ∷ xs) call q = omega (arith, posts-append xs (call ∷ []))
  late_posts-quiet (_ ∷ xs) call q = late_posts-quiet xs call q

  pub late_posts-early :
      (xs : List (Call T F)) (call : Call T F)
      → shuts xs ≡ 0
      → late_posts (xs ++ call ∷ []) ≡ late_posts xs
  late_posts-early [] call q = ground arith
  late_posts-early (shutdown i ∷ xs) call q = omega arith
  late_posts-early (_ ∷ xs) call q = late_posts-early xs call q

  -- An accepted post shuts nothing down.
  pub shuts-call_of : (p : Post T F) (cq : ℕ) → shuts (call_of p cq ∷ []) ≡ 0
  shuts-call_of (delayed thunk delta) cq = refl
  shuts-call_of (rpc factory) cq = refl

  pub shut_count-call_of : (k : ℕ) (p : Post T F) (cq : ℕ) → shut_count k (call_of p cq ∷ []) ≡ 0
  shut_count-call_of k (delayed thunk delta) cq = refl
  shut_count-call_of k (rpc factory) cq = refl

  -- What is left of a shutdown or a join.
  pub shut_count-cons :
      (k : ℕ) (call : Call T F) (cs : List (Call T F))
      → shut_count k (call ∷ cs) ≡ shut_count k (call ∷ []) + shut_count k cs
  shut_count-cons k call cs = shut_count-append T F k (call ∷ []) cs

  pub posts-cons :
      (call : Call T F) (cs : List (Call T F)) → posts (call ∷ cs) ≡ posts (call ∷ []) + posts cs
  posts-cons call cs = posts-append (call ∷ []) cs

  joins_calls :
      (left i : ℕ)
      → (cs : List (Call T F)) × (joins none left i ≡ ok cs)
        × (posts cs ≡ 0)
        × ((k : ℕ) → shut_count k cs ≡ 0)
  unfolding joins
  joins_calls zero i = ([], refl, refl, λ k. refl)
  joins_calls (suc left) i =
      let (cs, e, q, s) = joins_calls left (suc i) in (join i ∷ cs, rw e, q, s)

  ok_injective : {xs ys : List (Call T F)} → ok xs ≡ ok ys → xs ≡ ys
  ok_injective h = cc

  pub joins-quiet :
      (left i : ℕ) {cs : List (Call T F)}
      → joins none left i ≡ ok cs
      → (posts cs ≡ 0) × ((k : ℕ) → shut_count k cs ≡ 0)
  joins-quiet left i {cs} e =
      let (cs', e', p, s) = joins_calls left i in
      subst (λ js. (posts js ≡ 0) × ((k : ℕ) → shut_count k js ≡ 0)) (ok_injective (sym e' ∙ e))
        (p, s)

module _ {ℓ κ} (T : Type ℓ) (F : Type κ) where
  posts-shutdowns : (left i : ℕ) → posts (shutdowns {T = T} {F = F} left i) ≡ 0
  unfolding shutdowns
  posts-shutdowns zero i = refl
  posts-shutdowns (suc left) i = posts-shutdowns left (suc i)

  posts-server : (server left i : ℕ) → posts (server_shutdowns {T = T} {F = F} server left i) ≡ 0
  unfolding server_shutdowns
  posts-server server zero i = refl
  posts-server server (suc left) i = posts-server server left (suc i)

  posts-servers :
      (server : ℕ) (qs : List ℕ) → posts (all_server_shutdowns {T = T} {F = F} server qs) ≡ 0
  unfolding all_server_shutdowns
  posts-servers server [] = refl
  posts-servers server (q ∷ qs) = omega (
    arith,
    posts-append {T = T} {F = F} (server_shutdowns server q 0)
        (all_server_shutdowns (suc server) qs),
    posts-server server q 0,
    posts-servers (suc server) qs,
  )

  -- What a stop calls before it joins: no post, and one shutdown of each queue.
  pub posts-halting :
      (cqs : ℕ) (servers : List ℕ)
      → posts (shutdowns {T = T} {F = F} cqs 0 ++ all_server_shutdowns 0 servers) ≡ 0
  posts-halting cqs servers = omega (
    arith,
    posts-append {T = T} {F = F} (shutdowns cqs 0) (all_server_shutdowns 0 servers),
    posts-shutdowns cqs 0,
    posts-servers 0 servers,
  )

  pub shut_count-halting :
      (k cqs : ℕ) (servers : List ℕ)
      → k < cqs
      → shut_count k (shutdowns {T = T} {F = F} cqs 0 ++ all_server_shutdowns 0 servers) ≡ 1
  shut_count-halting k cqs servers small = ground (
    arith,
    shut_count-append T F k (shutdowns cqs 0) (all_server_shutdowns 0 servers),
    shut_count-shutdowns T F cqs 0 k,
    (servers_quiet T F 0 servers).1 k,
  )
