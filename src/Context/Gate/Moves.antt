-- ===== src/Context/Gate/Moves.antt =====
-- A move of thread `i` keeps each field of the invariant.
use grpc_p.Context.Gate.Counts.{
  in_post, committed, in_wait, past_wait, pending, shuts, late_posts, to_post, Inv,
}
use grpc_p.Base.{
  ℕ, ◌+◌, ◌%◌, ◌^◌, ◌≤◌, ◌<◌, ◌≡◌, refl, inl, inr, sym, ◌∙◌, true, some, List, [], ◌∷◌, arith,
  length, length-set, get_elem?, set, if◌then◌else◌,
}
use grpc_p.Base.Rows.{total, total-set, total_mono, total-le-length}
use grpc_p.Context.State.{can_post, can_post-stop, can_post-keep, running, shutting_down, stopped}
use grpc_p.Context.Defs.{ExecutionContext, notify}
use grpc_p.Context.Post.{call_on_next, get_next_cq}
use grpc_p.Context.Lifecycle.{attach_server, add_notify_at_stopped}
use grpc_p.Context.History.{shut_count, after}
use grpc_p.Context.Calls.{shut_count-append}
use grpc_p.Context.Gate.Counts.{
  shuts-append, shuts-call_of, shut_count-call_of, shut_count-cons, posts-cons, posts-halting,
  shut_count-halting, joins-quiet, late_posts-quiet, late_posts-early,
}
use grpc_p.Context.Gate.{
  call_of, Pc, idle, Move, enter, see_open, make_call, leave, run, run_not, stop, stop_not, waited,
  halt_one, join_all, join_one, joined, notify_one,
}

module _ {ℓ κ} {T : Type ℓ} {F : Type κ} where
  in_post-le : (p : Pc T F) → in_post p ≤ 1
  in_post-le p = ground arith

  committed-le : (p : Pc T F) → committed p ≤ in_post p
  committed-le p = ground arith

  -- How each sum changes as thread `i` goes from `p` to `p'`.
  module _ {c : ExecutionContext T F} {ps : List (Pc T F)} (inv : Inv c ps) (i : ℕ) where
    record Mover (p p' : Pc T F) : Type 0 where
      post : total in_post (set ps i p') + in_post p ≡ total in_post ps + in_post p'
      commit : total committed (set ps i p') + committed p ≡ total committed ps + committed p'
      wait : total in_wait (set ps i p') + in_wait p ≡ total in_wait ps + in_wait p'
      past : total past_wait (set ps i p') + past_wait p ≡ total past_wait ps + past_wait p'
      pend :
          (k : ℕ)
          → total (pending k) (set ps i p') + pending k p ≡ total (pending k) ps + pending k p'
      quiet : total to_post (set ps i p') + to_post p ≡ total to_post ps + to_post p'
      some_past : past_wait p ≤ total past_wait ps
      some_commit : committed p ≤ total committed ps
      some_wait : in_wait p ≤ total in_wait ps
      some_quiet : to_post p ≤ total to_post ps
      few : total in_post ps < 2 ^ 64
      few' : total in_post (set ps i p') < 2 ^ 64
      fewer : total committed ps ≤ total in_post ps
      size : length (set ps i p') ≡ length ps

    mover : (p p' : Pc T F) → get_elem? ps i ≡ some p → Mover p p'
    mover p p' e = record {
      post = total-set in_post ps i p p' e;
      commit = total-set committed ps i p p' e;
      wait = total-set in_wait ps i p p' e;
      past = total-set past_wait ps i p p' e;
      pend = λ k. total-set (pending k) ps i p p' e;
      quiet = total-set to_post ps i p p' e;
      some_past = omega (arith, total-set past_wait ps i p idle e);
      some_commit = omega (arith, total-set committed ps i p idle e);
      some_wait = omega (arith, total-set in_wait ps i p idle e);
      some_quiet = omega (arith, total-set to_post ps i p idle e);
      few = omega (arith, total-le-length in_post in_post-le ps, inv.few);
      few' =
          omega
            (arith, total-le-length in_post in_post-le (set ps i p'), inv.few, length-set ps i p');
      fewer = total_mono committed in_post committed-le ps;
      size = length-set ps i p';
    }

    Move-counted :
        {p p' : Pc T F} {c' : ExecutionContext T F}
        → Move c p c' p'
        → Mover p p'
        → c'.within_cq_post ≡ total in_post (set ps i p')
    unfolding after attach_server add_notify_at_stopped call_on_next get_next_cq
    Move-counted (enter x) f = omega (arith, inv.counted, f.few')
    Move-counted leave f = omega (arith, inv.counted, f.post, f.few)
    Move-counted mv f = ground (arith, inv.counted, f.post)

    Move-open :
        {p p' : Pc T F} {c' : ExecutionContext T F}
        → Move c p c' p'
        → Mover p p'
        → can_post c'.state ≡ true
        → shuts c'.calls + total past_wait (set ps i p') + total in_wait (set ps i p') ≡ 0
    unfolding after attach_server add_notify_at_stopped call_on_next get_next_cq
    Move-open (make_call {p = x}) f h = omega (
      arith,
      inv.open_ h,
      f.wait,
      f.past,
      shuts-append c.calls (call_of x (c.next_cq_write_index % c.cqs) ∷ []),
      shuts-call_of x (c.next_cq_write_index % c.cqs),
    )
    Move-open (halt_one {call}) f h = absurd (omega (arith, inv.open_ h, f.some_past))
    Move-open (join_one {call}) f h = absurd (omega (arith, inv.open_ h, f.some_past))
    Move-open (notify_one {t}) f h = absurd (omega (arith, inv.open_ h, f.some_past))
    Move-open (stop e) f h = cc (h, (can_post-stop c.state e).1)
    Move-open (run e) f h =
        omega
          (arith, f.wait, f.past, inv.open_ (sym (can_post-keep running c.state (inl refl)) ∙ h))
    Move-open (run_not e) f h =
        omega
          (arith, f.wait, f.past, inv.open_ (sym (can_post-keep running c.state (inl refl)) ∙ h))
    Move-open (stop_not e) f h = omega (
      arith,
      f.wait,
      f.past,
      inv.open_ (sym (can_post-keep shutting_down c.state (inr (inr e))) ∙ h),
    )
    Move-open joined f h = omega (
      arith,
      f.wait,
      f.past,
      inv.open_ (sym (can_post-keep stopped c.state (inr (inl refl))) ∙ h),
    )
    Move-open mv f h = ground (arith, inv.open_, f.wait, f.past)

    Move-sealed :
        {p p' : Pc T F} {c' : ExecutionContext T F}
        → Move c p c' p'
        → Mover p p'
        → 0 < shuts c'.calls + total past_wait (set ps i p')
        → total committed (set ps i p') ≡ 0
    unfolding after attach_server add_notify_at_stopped call_on_next get_next_cq
    Move-sealed (see_open e) f h = omega (arith, inv.open_ e, f.past)
    Move-sealed (waited e) f h = omega (arith, inv.counted, f.commit, f.fewer, f.post)
    Move-sealed (make_call {p = x}) f h = omega (
      arith,
      inv.sealed,
      f.past,
      f.commit,
      f.some_commit,
      shuts-append c.calls (call_of x (c.next_cq_write_index % c.cqs) ∷ []),
      shuts-call_of x (c.next_cq_write_index % c.cqs),
    )
    Move-sealed (halt_one {call}) f h =
        omega (arith, inv.sealed (omega (arith, f.some_past)), f.commit)
    Move-sealed (join_one {call}) f h =
        omega (arith, inv.sealed (omega (arith, f.some_past)), f.commit)
    Move-sealed (notify_one {t}) f h =
        omega (arith, inv.sealed (omega (arith, f.some_past)), f.commit)
    Move-sealed mv f h = ground (arith, inv.sealed, f.commit, f.past)

    Move-late :
        {p p' : Pc T F} {c' : ExecutionContext T F}
        → Move c p c' p'
        → Mover p p'
        → late_posts c'.calls ≡ 0
    unfolding after attach_server add_notify_at_stopped call_on_next get_next_cq
    Move-late (make_call {p = x}) f =
        late_posts-early c.calls (call_of x (c.next_cq_write_index % c.cqs))
          (ground (arith, inv.sealed, f.some_commit))
        ∙ inv.late
    Move-late (halt_one {call} {cs}) f =
        late_posts-quiet c.calls call (omega (arith, inv.quiet, f.some_quiet, posts-cons call cs))
        ∙ inv.late
    Move-late (join_one {call} {cs}) f =
        late_posts-quiet c.calls call (omega (arith, inv.quiet, f.some_quiet, posts-cons call cs))
        ∙ inv.late
    Move-late (notify_one {t}) f = late_posts-quiet c.calls (notify t) refl ∙ inv.late
    Move-late mv f = ground (arith, inv.late)

    Move-quiet :
        {p p' : Pc T F} {c' : ExecutionContext T F}
        → Move c p c' p'
        → Mover p p'
        → total to_post (set ps i p') ≡ 0
    Move-quiet (waited e) f = omega (arith, inv.quiet, f.quiet, posts-halting T F c.cqs c.servers)
    Move-quiet (join_all e) f = omega (arith, inv.quiet, f.quiet, (joins-quiet c.threads 0 e).0)
    Move-quiet (halt_one {call} {cs}) f = omega (arith, inv.quiet, f.quiet, posts-cons call cs)
    Move-quiet (join_one {call} {cs}) f = omega (arith, inv.quiet, f.quiet, posts-cons call cs)
    Move-quiet mv f = ground (arith, inv.quiet, f.quiet)

    pub Move-cqs : {p p' : Pc T F} {c' : ExecutionContext T F} → Move c p c' p' → c'.cqs ≡ c.cqs
    unfolding after attach_server add_notify_at_stopped call_on_next get_next_cq
    Move-cqs (enter x) = refl
    Move-cqs mv = ground arith

    Move-once :
        {p p' : Pc T F} {c' : ExecutionContext T F}
        → Move c p c' p'
        → Mover p p'
        → (k : ℕ) → k < c.cqs
        → shut_count k c'.calls + total (pending k) (set ps i p') + total in_wait (set ps i p')
          ≡ (if can_post c'.state then 0 else 1)
    unfolding after attach_server add_notify_at_stopped call_on_next get_next_cq
    Move-once (make_call {p = x}) f k h = omega (
      arith,
      inv.once k h,
      f.wait,
      f.pend k,
      shut_count-append T F k c.calls (call_of x (c.next_cq_write_index % c.cqs) ∷ []),
      shut_count-call_of k x (c.next_cq_write_index % c.cqs),
    )
    Move-once (halt_one {call} {cs}) f k h = omega (
      arith,
      inv.once k h,
      f.wait,
      f.pend k,
      shut_count-cons k call cs,
      shut_count-append T F k c.calls (call ∷ []),
    )
    Move-once (join_one {call} {cs}) f k h = omega (
      arith,
      inv.once k h,
      f.wait,
      f.pend k,
      shut_count-cons k call cs,
      shut_count-append T F k c.calls (call ∷ []),
    )
    Move-once (notify_one {t}) f k h =
        omega
          (arith, inv.once k h, f.wait, f.pend k, shut_count-append T F k c.calls (notify t ∷ []))
    Move-once (waited e) f k h =
        omega (arith, inv.once k h, f.wait, f.pend k, shut_count-halting T F k c.cqs c.servers h)
    Move-once (join_all e) f k h =
        omega (arith, inv.once k h, f.wait, f.pend k, (joins-quiet c.threads 0 e).1 k)
    Move-once (stop e) f k h =
        ground (arith, inv.once k h, f.wait, f.pend k, can_post-stop c.state e)
    Move-once (run e) f k h =
        rw (can_post-keep running c.state (inl refl))
          (omega (arith, inv.once k h, f.wait, f.pend k))
    Move-once (run_not e) f k h =
        rw (can_post-keep running c.state (inl refl))
          (omega (arith, inv.once k h, f.wait, f.pend k))
    Move-once (stop_not e) f k h =
        rw (can_post-keep shutting_down c.state (inr (inr e)))
          (omega (arith, inv.once k h, f.wait, f.pend k))
    Move-once joined f k h =
        rw (can_post-keep stopped c.state (inr (inl refl)))
          (omega (arith, inv.once k h, f.wait, f.pend k))
    Move-once mv f k h = ground (arith, inv.once k h, f.wait, f.pend k)

    pub Move-Inv :
        {p p' : Pc T F} {c' : ExecutionContext T F}
        → get_elem? ps i ≡ some p
        → Move c p c' p'
        → Inv c' (set ps i p')
    Move-Inv {p} {p'} e mv = record {
      few = omega (arith, inv.few, f.size);
      counted = Move-counted mv f;
      open_ = Move-open mv f;
      sealed = Move-sealed mv f;
      quiet = Move-quiet mv f;
      late = Move-late mv f;
      once = λ k small. Move-once mv f k (omega (arith, Move-cqs mv));
    }
      where
        f : Mover p p'
        f = mover p p' e
