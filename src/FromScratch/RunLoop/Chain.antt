-- ===== src/FromScratch/RunLoop/Chain.antt =====
-- The tasks that the loop's `next` pointers lead through, and what a push and a pop do to them.
use grpc_p.Base.{
  ℕ, ◌≤◌, ◌<◌, ◌≡◌, ◌≢◌, refl, sym, ap, ◌∙◌, List, [], ◌∷◌, ◌++◌, arith, if◌then◌else◌,
}
use grpc_p.Base.Rows.{count, count-append}
use grpc_p.FromScratch.RunLoop.{head, update, Loop, push_back, task, null, blocked, pop_front}

-- From `p` the pointers lead through `xs` and back to `head`.
abbrev pub Chain : (ℕ → ℕ) → ℕ → List ℕ → Type 0
Chain next p [] = next p ≡ head
Chain next p (x ∷ xs) = (next p ≡ x) × (x ≢ head) × Chain next x xs

abbrev pub last : ℕ → List ℕ → ℕ
last p [] = p
last p (x ∷ xs) = last x xs

abbrev pub Distinct : List ℕ → Type 0
Distinct xs = (a : ℕ) → count a xs ≤ 1

-- The loop holds the tasks `xs`, in order, and `tail` is the last of them, or `head`.
pub record IsQueue (l : Loop) (xs : List ℕ) : Type 0 where
  pub chain : Chain l.next head xs
  pub tail_last : l.tail ≡ last head xs
  pub distinct : Distinct (head ∷ xs)

count-last : (p : ℕ) (xs : List ℕ) → 0 < count (last p xs) (p ∷ xs)
count-last p [] = ground arith
count-last p (x ∷ xs) = omega (arith, count-last x xs)

last-append : (p : ℕ) (xs : List ℕ) (x : ℕ) → last p (xs ++ x ∷ []) ≡ x
last-append p [] x = refl
last-append p (y ∷ xs) x = last-append y xs x

-- A write at an address that is not on the way does not show.
Chain-update :
    (next : ℕ → ℕ) (a v p : ℕ) (xs : List ℕ)
    → count a (p ∷ xs) ≡ 0
    → Chain next p xs
    → Chain (update next a v) p xs
Chain-update next a v p [] out e = ground arith
Chain-update next a v p (x ∷ xs) out (e, ne, c) =
    (ground arith, ne, Chain-update next a v x xs (omega arith) c)

Chain-push :
    (next : ℕ → ℕ) (op p : ℕ) (xs : List ℕ)
    → Distinct (p ∷ xs)
    → count op (p ∷ xs) ≡ 0
    → op ≢ head
    → Chain next p xs
    → Chain (update (update next op head) (last p xs) op) p (xs ++ op ∷ [])
Chain-push next op p [] once out ne c = (ground arith, ne, ground arith)
Chain-push next op p (x ∷ xs) once out ne (e, nx, c) = (
  ground (arith, once p, count-last x xs),
  nx,
  Chain-push next op x xs (λ a. omega (arith, once a)) (omega arith) ne c,
)

-- A push onto a loop whose `tail` is right adds the task at the end.
pub push_back-IsQueue :
    (op : ℕ) (l : Loop) (xs : List ℕ)
    → IsQueue l xs
    → count op (head ∷ xs) ≡ 0
    → IsQueue (push_back op l) (xs ++ op ∷ [])
unfolding push_back
push_back-IsQueue op l xs q out = record {
  chain = rw q.tail_last (Chain-push l.next op head xs q.distinct out (ground arith) q.chain);
  tail_last = sym (last-append head xs op);
  distinct = λ a. ground (arith, q.distinct a, count-append a xs (op ∷ []));
}

Chain-pop :
    (next : ℕ → ℕ) (x : ℕ) (xs : List ℕ)
    → Distinct (head ∷ x ∷ xs)
    → next head ≡ x
    → Chain next x xs
    → Chain (update next head (next (next head))) head xs
Chain-pop next x [] once e c = ap next e ∙ c
Chain-pop next x (y ∷ xs) once e (ey, ny, c) =
    (ap next e ∙ ey, ny, Chain-update next head _ y xs (omega (arith, once head)) c)

-- A pop takes the first task. The `tail` stays, and is right afterwards only if a task is left.
pub pop_front-task :
    (l : Loop) (x : ℕ) (xs : List ℕ)
    → Chain l.next head (x ∷ xs)
    → Distinct (head ∷ x ∷ xs)
    → (l' : Loop) × (pop_front l ≡ (task x, l'))
      × Chain l'.next head xs
      × (l'.tail ≡ l.tail)
      × (l'.finishing ≡ l.finishing)
unfolding pop_front
pop_front-task l x xs (e, ne, c) once = (
  record l { next = update l.next head (l.next (l.next head)) },
  ground arith,
  Chain-pop l.next x xs once e c,
  refl,
  refl,
)

pub pop_front-empty :
    (l : Loop) → Chain l.next head [] → pop_front l ≡ (if l.finishing then null else blocked, l)
unfolding pop_front
pop_front-empty l e = ground arith
