-- ===== src/FromScratch/Threaded/Trace.antt =====
-- Executions in which one thread at a time is not blocked: all go through the same states.
use grpc_p.Base.{
  ℕ, zero, suc, ◌+◌, ◌<◌, ◌≡◌, sym, ap, subst, none, some, List, [], ◌∷◌, arith, length, get_elem?,
}
use grpc_p.FromScratch.Senders.{Sender}
use grpc_p.FromScratch.Threaded.{
  State, main_step, worker_step, Step, by_main, by_worker, Steps, here, after,
}

module _ {E : Type 0} (work : ℕ → Sender ℕ E) where
  -- The states that every schedule goes through, in order, up to one without a step.
  unfoldable pub Trace : List (State E) → Type 0
  Trace [] = ⊥
  Trace (x ∷ []) = (t : State E) → ¬ Step work x t
  Trace (x ∷ y ∷ rest) = Step work x y × ((t : State E) → Step work x t → t ≡ y) × Trace (y ∷ rest)

  Trace-Step :
      (xs : List (State E)) (n : ℕ) (s t : State E)
      → Trace xs
      → get_elem? xs n ≡ some s
      → Step work s t
      → get_elem? xs (n + 1) ≡ some t
  unfolding Trace
  Trace-Step [] n s t line e st = absurd line
  Trace-Step (x ∷ []) zero s t line e st =
      let same : s ≡ x = cc in absurd (line t (subst (λ y. Step work y t) same st))
  Trace-Step (x ∷ []) (suc n) s t line e st = cc
  Trace-Step (x ∷ y ∷ rest) zero s t line e st =
      let same : s ≡ x = cc in ap some (sym (line.1 t (subst (λ z. Step work z t) same st)))
  Trace-Step (x ∷ y ∷ rest) (suc n) s t line e st =
      let next : suc (n + 1) ≡ suc n + 1 = omega arith in
      subst (λ k. get_elem? (x ∷ y ∷ rest) k ≡ some t) next
        (Trace-Step (y ∷ rest) n s t line.2 e st)

  pub Trace-Steps :
      (x : State E) (xs : List (State E)) {n : ℕ} {t : State E}
      → Trace (x ∷ xs)
      → Steps work x n t
      → get_elem? (x ∷ xs) n ≡ some t
  Trace-Steps x xs line (here e) = rw e
  Trace-Steps x xs line (after {n} {t = s} ss st e) =
      rw e (Trace-Step (x ∷ xs) n s _ line (Trace-Steps x xs line ss) st)

  pub Trace-next :
      (xs : List (State E)) (n : ℕ) (s : State E)
      → Trace xs
      → get_elem? xs n ≡ some s
      → n + 1 < length xs
      → (t : State E) × Step work s t
  unfolding Trace
  Trace-next [] n s line e small = absurd line
  Trace-next (x ∷ []) zero s line e small = absurd (omega (arith, small))
  Trace-next (x ∷ []) (suc n) s line e small = absurd (omega (arith, small))
  Trace-next (x ∷ y ∷ rest) zero s line e small =
      let same : x ≡ s = cc in (y, subst (λ z. Step work z y) same line.0)
  Trace-next (x ∷ y ∷ rest) (suc n) s line e small =
      Trace-next (y ∷ rest) n s line.2 e (omega (arith, small))

  pub Trace-last :
      (xs : List (State E)) (n : ℕ) (s t : State E)
      → Trace xs
      → get_elem? xs n ≡ some s
      → n + 1 ≡ length xs
      → ¬ Step work s t
  unfolding Trace
  Trace-last [] n s t line e end st = line
  Trace-last (x ∷ []) zero s t line e end st =
      let same : s ≡ x = cc in line t (subst (λ y. Step work y t) same st)
  Trace-last (x ∷ []) (suc n) s t line e end st = absurd (omega (arith, end))
  Trace-last (x ∷ y ∷ rest) zero s t line e end st = absurd (omega (arith, end))
  Trace-last (x ∷ y ∷ rest) (suc n) s t line e end st =
      Trace-last (y ∷ rest) n s t line.2 e (omega (arith, end)) st

  -- A state in which one thread alone is not blocked, and one in which both are.
  pub main_moves :
      (x y : State E) (rest : List (State E))
      → main_step work x ≡ some y
      → worker_step work x ≡ none
      → Trace (y ∷ rest)
      → Trace (x ∷ y ∷ rest)
  unfolding Trace
  main_moves x y rest m w line = (by_main m, only, line)
    where
      only : (t : State E) → Step work x t → t ≡ y
      only t (by_main e) = cc
      only t (by_worker e) = cc

  pub worker_moves :
      (x y : State E) (rest : List (State E))
      → main_step work x ≡ none
      → worker_step work x ≡ some y
      → Trace (y ∷ rest)
      → Trace (x ∷ y ∷ rest)
  unfolding Trace
  worker_moves x y rest m w line = (by_worker w, only, line)
    where
      only : (t : State E) → Step work x t → t ≡ y
      only t (by_main e) = cc
      only t (by_worker e) = cc

  pub none_moves :
      (x : State E) → main_step work x ≡ none → worker_step work x ≡ none → Trace (x ∷ [])
  unfolding Trace
  none_moves x m w t (by_main e) = cc
  none_moves x m w t (by_worker e) = cc
