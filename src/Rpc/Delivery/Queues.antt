-- ===== src/Rpc/Delivery/Queues.antt =====
-- Sums over completion queues, and when a queue answers that it is shut down.
use grpc_p.Base.{
  ℕ, zero, suc, ◌+◌, ◌<◌, ◌≡◌, ◌↔◌, refl, if◌then◌else◌, ◌==◌, Bool, true, false, List, [], ◌∷◌,
  ◌++◌, set, get_or, replicate, length, arith,
}
use grpc_p.Base.Rows.{total, one_if, one_if_self, count}
use grpc_p.Context.Worker.{shutdown}
use grpc_p.Rpc.Once.{Answer}
use grpc_p.Rpc.Delivery.{CompletionQueue, next_status}

module _ {ℓ} {A : Type ℓ} (w : A → ℕ) (d : A) where
  pub total-set_or :
      (xs : List A) (i : ℕ) (v : A)
      → i < length xs
      → total w (set xs i v) + w (get_or xs i d) ≡ total w xs + w v
  unfolding total
  total-set_or [] i v h = elim h [ ]
  total-set_or (x ∷ xs) zero v h = omega arith
  total-set_or (x ∷ xs) (suc i) v h = omega (arith, total-set_or xs i v (omega arith))

  pub total_at : (xs : List A) (i : ℕ) → i < length xs → total w xs ≡ 0 → w (get_or xs i d) ≡ 0
  unfolding total
  total_at [] i h e = elim h [ ]
  total_at (x ∷ xs) zero h e = omega (arith, e)
  total_at (x ∷ xs) (suc i) h e = total_at xs i (omega arith) (omega (arith, e))

  pub total_zero :
      (xs : List A) → ((i : ℕ) → i < length xs → w (get_or xs i d) ≡ 0) → total w xs ≡ 0
  unfolding total
  total_zero [] h = refl
  total_zero (x ∷ xs) h =
      omega (arith, h 0 (omega arith), total_zero xs (λ i small. h (suc i) (omega arith)))

module _ {ℓ} {A : Type ℓ} where
  pub get_or-replicate : (n j : ℕ) (d : A) → get_or (replicate n d) j d ≡ d
  get_or-replicate zero j d = refl
  get_or-replicate (suc n) zero d = refl
  get_or-replicate (suc n) (suc j) d = get_or-replicate n j d

  pub get_or-set :
      (xs : List A) (k i : ℕ) (v d : A)
      → k < length xs
      → get_or (set xs k v) i d ≡ (if k == i then v else get_or xs i d)
  get_or-set [] k i v d h = elim h [ ]
  get_or-set (x ∷ xs) zero zero v d h = refl
  get_or-set (x ∷ xs) zero (suc i) v d h = ground arith
  get_or-set (x ∷ xs) (suc k) zero v d h = ground arith
  get_or-set (x ∷ xs) (suc k) (suc i) v d h =
      ground (arith, get_or-set xs k i v d (omega (arith, h)))

pub count-insert :
    (op i : ℕ) (xs ys : List ℕ) → count op (xs ++ i ∷ ys) ≡ count op (xs ++ ys) + one_if op i
count-insert op i [] ys = omega arith
count-insert op i (x ∷ xs) ys = omega (arith, count-insert op i xs ys)

module _ {V : Type 0} where
  -- How often the answer to `op` is among the events of a queue.
  abbrev pub among : ℕ → List (ℕ × Answer V) → ℕ
  among op [] = 0
  among op ((i, a) ∷ es) = one_if op i + among op es

  pub among-append :
      (op : ℕ) (es fs : List (ℕ × Answer V)) → among op (es ++ fs) ≡ among op es + among op fs
  among-append op [] fs = omega arith
  among-append op ((i, a) ∷ es) fs = omega (arith, among-append op es fs)

  pub among-insert :
      (op : ℕ) (es : List (ℕ × Answer V)) (e : ℕ × Answer V) (fs : List (ℕ × Answer V))
      → among op (es ++ e ∷ fs) ≡ among op (es ++ fs) + one_if op e.0
  among-insert op [] (i, a) fs = omega arith
  among-insert op ((k, b) ∷ es) (i, a) fs = omega (arith, among-insert op es (i, a) fs)

  -- How often an InflightRpc of `op` is in a queue.
  abbrev pub in_flight : ℕ → CompletionQueue V → ℕ
  in_flight op q = count op q.waiting + among op q.answered

  -- 1 for a queue that is not shut down.
  abbrev pub open_one : CompletionQueue V → ℕ
  open_one q = if q.is_shutdown then 0 else 1

  -- A queue is at its end: it is shut down, and nothing is in it.
  abbrev pub AtEnd : CompletionQueue V → Type 0
  AtEnd q = (open_one q ≡ 0) × ((op : ℕ) → in_flight op q ≡ 0)

  pub next_of-shutdown :
      (es : List (ℕ × Answer V)) (waiting : List ℕ) (is_shutdown : Bool)
      → (next_status (record { waiting = waiting; answered = es; is_shutdown = is_shutdown })
          ≡ shutdown)
        ↔ AtEnd (record { waiting = waiting; answered = es; is_shutdown = is_shutdown })
  unfolding next_status
  next_of-shutdown ((i, a) ∷ es) waiting b =
      (λ h. cc, λ h. absurd (omega (arith, h.1 i, one_if_self i)))
  next_of-shutdown [] [] true = (λ h. (refl, λ op. omega arith), λ h. refl)
  next_of-shutdown [] [] false = (λ h. cc, λ h. absurd (omega (arith, h.0)))
  next_of-shutdown [] (x ∷ xs) true = (λ h. cc, λ h. absurd (omega (arith, h.1 x, one_if_self x)))
  next_of-shutdown [] (x ∷ xs) false = (λ h. cc, λ h. absurd (omega (arith, h.1 x, one_if_self x)))
