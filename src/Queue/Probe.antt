-- ===== src/Queue/Probe.antt =====
-- The slots that a round of tries visits: all of them, unless the 32-bit sum wraps within the round.
use native.Mathlib.Nat.{mod-lt, mod-le, mod-eq_of_lt, mul-add-mod_self_left, div-add-mod}
use grpc_p.Base.{ℕ, zero, suc, ◌+◌, ◌-◌, ◌*◌, ◌/◌, ◌%◌, ◌^◌, ◌≤◌, ◌<◌, ◌≡◌, ◌≢◌, ◌∙◌, arith, dec_le}
use grpc_p.Queue.Stealing.{u32, slot}

-- A multiple of `n` does not show in the remainder.
mod-reaches : (a q n k : ℕ) → a ≡ n * q + k → k < n → a % n ≡ k
mod-reaches a q n k e small = rw e (mul-add-mod_self_left n q k ∙ mod-eq_of_lt small)

-- Where the sum does not wrap, a slot is found from a quotient.
slot-reaches :
    (offset j q n k : ℕ)
    → offset + j < 2 ^ 32
    → offset + j ≡ n * q + k
    → k < n
    → slot offset j n ≡ k
slot-reaches offset j q n k fits e small =
    let whole : u32 (offset + j) ≡ offset + j = mod-eq_of_lt fits in
    rw whole (mod-reaches _ q n k e small)

-- Each slot is tried in some round of `n` tries.
pub slot-surjective :
    (offset n k : ℕ) → k < n → offset + n ≤ 2 ^ 32 → (j : ℕ) × (j < n) × (slot offset j n ≡ k)
slot-surjective offset n k small fits = elim (dec_le (offset % n) k) [
  | yes h ↦ (
    k - offset % n,
    omega arith,
    slot-reaches offset _ (offset / n) n k (omega (arith, mod-le offset n))
        (omega (arith, div-add-mod offset n)) small,
  )
  | no h ↦ (
    k + n - offset % n,
    omega (arith, mod-lt offset {m = n}),
    slot-reaches offset _ (offset / n + 1) n k (omega (arith, mod-lt offset {m = n}))
        (omega (arith, div-add-mod offset n, mod-lt offset {m = n})) small,
  )
]

-- The slot `n - 1` is not tried in a round that starts at the largest 32-bit index, if `n` does not
-- divide 2^32.
pub slot-misses : (n i : ℕ) → 2 ^ 32 % n ≢ 0 → n < 2 ^ 32 → i < n → slot (2 ^ 32 - 1) i n ≢ n - 1
slot-misses n zero odd small h e =
    odd (mod-reaches _ ((2 ^ 32 - 1) / n + 1) n 0 (omega (arith, div-add-mod (2 ^ 32 - 1) n)) h)
slot-misses n (suc i) odd small h e =
    absurd (omega (arith, e, wrapped, mod-eq_of_lt {n = i} {m = n} (omega arith)))
  where
    wrapped : u32 (2 ^ 32 - 1 + suc i) ≡ i
    wrapped = omega arith
