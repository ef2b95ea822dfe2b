-- ===== src/Base/Rows.antt =====
-- Rows of threads: a weighted sum over a list, and counts of a number in a list.
use mathlib.Core.List.{List, [], ◌∷◌, ◌++◌}
use mathlib.Core.Option.{some}
use mathlib.Core.Path.{◌≡◌, refl}
use Prim.Native.Nat.{ℕ, zero, suc, ◌+◌, ◌≤◌}
use native.Mathlib.Omega.{arith}
use grpc_p.Base.Tests.{◌==◌, if◌then◌else◌}
use grpc_p.Base.Lists.{length, get_elem?, replicate, set}

module _ {ℓ} {A : Type ℓ} where
  unfoldable pub total : (A → ℕ) → List A → ℕ
  total w [] = 0
  total w (x ∷ xs) = w x + total w xs

  -- One place changes: the sum changes by the two weights there.
  pub total-set :
      (w : A → ℕ) (xs : List A) (i : ℕ) (p p' : A)
      → get_elem? xs i ≡ some p
      → total w (set xs i p') + w p ≡ total w xs + w p'
  unfolding total
  total-set w [] i p p' e = cc
  total-set w (x ∷ xs) zero p p' e = ground arith
  total-set w (x ∷ xs) (suc i) p p' e = omega (arith, total-set w xs i p p' e)

  pub total_mono : (v w : A → ℕ) → ((a : A) → v a ≤ w a) → (xs : List A) → total v xs ≤ total w xs
  unfolding total
  total_mono v w h [] = omega arith
  total_mono v w h (x ∷ xs) = omega (arith, h x, total_mono v w h xs)

  pub total-le-length : (w : A → ℕ) → ((a : A) → w a ≤ 1) → (xs : List A) → total w xs ≤ length xs
  unfolding total
  total-le-length w h [] = omega arith
  total-le-length w h (x ∷ xs) = omega (arith, h x, total-le-length w h xs)

  pub total-append : (w : A → ℕ) (xs ys : List A) → total w (xs ++ ys) ≡ total w xs + total w ys
  unfolding total
  total-append w [] ys = omega arith
  total-append w (x ∷ xs) ys = omega (arith, total-append w xs ys)

  -- One more place, anywhere.
  pub total-insert :
      (w : A → ℕ) (xs : List A) (x : A) (ys : List A)
      → total w (xs ++ x ∷ ys) ≡ total w (xs ++ ys) + w x
  unfolding total
  total-insert w [] x ys = omega arith
  total-insert w (y ∷ xs) x ys = omega (arith, total-insert w xs x ys)

  pub total-replicate : (w : A → ℕ) (n : ℕ) (a : A) → w a ≡ 0 → total w (replicate n a) ≡ 0
  unfolding total
  total-replicate w zero a h = refl
  total-replicate w (suc n) a h = omega (arith, h, total-replicate w n a h)

-- 1 where `x` is `a`.
abbrev pub one_if : ℕ → ℕ → ℕ
one_if a x = if x == a then 1 else 0

pub one_if_self : (a : ℕ) → one_if a a ≡ 1
one_if_self a = ground arith

abbrev pub count : ℕ → List ℕ → ℕ
count a [] = 0
count a (x ∷ xs) = one_if a x + count a xs

module _ (a : ℕ) where
  pub count-append : (xs ys : List ℕ) → count a (xs ++ ys) ≡ count a xs + count a ys
  count-append [] ys = omega arith
  count-append (x ∷ xs) ys = omega (arith, count-append xs ys)
