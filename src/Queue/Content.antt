-- ===== src/Queue/Content.antt =====
-- What a row of queues holds, as one list, and what a change of one queue does to it.
use mathlib.Core.List.{perm_middle, append_assoc}
use mathlib.Core.List.Perm
use grpc_p.Base.{
  ℕ, zero, suc, ◌<◌, ◌≡◌, refl, List, [], ◌∷◌, ◌++◌, arith, length, get_or, set, replicate,
}
use mathlib.Core.List.{Perm}
use grpc_p.Queue.Locking.{LockingQueue}
use grpc_p.Queue.Stealing.{no_queue}

append-eq-nil {ℓ} : {A : Type ℓ} (xs ys : List A) → xs ++ ys ≡ [] → (xs ≡ []) × (ys ≡ [])
append-eq-nil [] ys e = (refl, e)
append-eq-nil (x ∷ xs) ys e = cc

module _ {ℓ} {A : Type ℓ} where
  -- The thunks of all the queues, those of queue 0 first.
  abbrev pub contents : List (LockingQueue A) → List A
  contents [] = []
  contents (q ∷ qs) = q.queue ++ contents qs

  pub contents-replicate : (n : ℕ) → contents (replicate n no_queue) ≡ []
  contents-replicate zero = refl
  contents-replicate (suc n) = contents-replicate n

  pub contents-push :
      (qs : List (LockingQueue A)) (i : ℕ) (f : A)
      → i < length qs
      → Perm
          (contents (set qs i (record { queue = (get_or qs i no_queue).queue ++ f ∷ [] })))
          (f ∷ contents qs)
  contents-push [] i f h = elim h [ ]
  contents-push (q ∷ qs) zero f h =
      rw (append_assoc q.queue (f ∷ []) (contents qs)) (perm_middle q.queue (contents qs))
  contents-push (q ∷ qs) (suc i) f h =
      Perm.trans (Perm.append_left q.queue (contents-push qs i f (omega arith)))
        (perm_middle q.queue (contents qs))

  pub contents-pop :
      (qs : List (LockingQueue A)) (i : ℕ) (f : A) (rest : List A)
      → (get_or qs i no_queue).queue ≡ f ∷ rest
      → Perm (contents qs) (f ∷ contents (set qs i (record { queue = rest })))
  contents-pop [] i f rest e = cc
  contents-pop (q ∷ qs) zero f rest e = rw e (Perm.refl _)
  contents-pop (q ∷ qs) (suc i) f rest e =
      Perm.trans (Perm.append_left q.queue (contents-pop qs i f rest e))
        (perm_middle q.queue (contents (set qs i (record { queue = rest }))))

  pub contents-nil :
      (qs : List (LockingQueue A))
      → ((k : ℕ) → k < length qs → (get_or qs k no_queue).queue ≡ [])
      → contents qs ≡ []
  contents-nil [] h = refl
  contents-nil (q ∷ qs) h =
      let head : q.queue ≡ [] = h 0 (omega arith) in
      rw head (contents-nil qs (λ k small. h (suc k) (omega arith)))

  pub nil-contents :
      (qs : List (LockingQueue A)) (k : ℕ) → contents qs ≡ [] → (get_or qs k no_queue).queue ≡ []
  nil-contents [] k e = refl
  nil-contents (q ∷ qs) zero e = (append-eq-nil q.queue (contents qs) e).0
  nil-contents (q ∷ qs) (suc k) e = nil-contents qs k (append-eq-nil q.queue (contents qs) e).1
