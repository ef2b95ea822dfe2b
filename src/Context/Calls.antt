-- ===== src/Context/Calls.antt =====
-- What the calls of a stop count for: the notifications in them, and the shutdowns of each queue.
use grpc_p.Base.{
  ℕ, zero, suc, ◌+◌, ◌≡◌, refl, ap, ◌∙◌, none, List, [], ◌∷◌, ◌++◌, arith, if◌then◌else◌, leb, ltb,
  ◌&&◌,
}
use grpc_p.Context.Defs.{Call, set_alarm, shutdown, join, notify}
use grpc_p.Context.Lifecycle.{ok, joins, shutdowns, server_shutdowns, all_server_shutdowns}
use grpc_p.Context.History.{notified, shut_count}

module _ {ℓ κ} (T : Type ℓ) (F : Type κ) where
  pub notified-append : (xs ys : List (Call T F)) → notified (xs ++ ys) ≡ notified xs ++ notified ys
  notified-append [] ys = refl
  notified-append (notify t ∷ xs) ys = ap (◌∷◌ t) (notified-append xs ys)
  notified-append (set_alarm _ _ _ ∷ xs) ys = notified-append xs ys
  notified-append (_ ∷ xs) ys = notified-append xs ys

  pub shut_count-append :
      (i : ℕ) (xs ys : List (Call T F))
      → shut_count i (xs ++ ys) ≡ shut_count i xs + shut_count i ys
  shut_count-append i [] ys = omega arith
  shut_count-append i (shutdown j ∷ xs) ys = omega (arith, shut_count-append i xs ys)
  shut_count-append i (_ ∷ xs) ys = shut_count-append i xs ys

  -- The calls of `stop` other than the notifications.
  pub joins-none :
      (left i : ℕ)
      → (cs : List (Call T F)) × (joins none left i ≡ ok cs)
        × (notified cs ≡ [])
        × ((k : ℕ) → shut_count k cs ≡ 0)
  unfolding joins
  joins-none zero i = ([], refl, refl, λ k. refl)
  joins-none (suc left) i =
      let (cs, e, quiet, other) = joins-none left (suc i) in (join i ∷ cs, rw e, quiet, other)

  pub notified-shutdowns : (left i : ℕ) → notified (shutdowns {T = T} {F = F} left i) ≡ []
  unfolding shutdowns
  notified-shutdowns zero i = refl
  notified-shutdowns (suc left) i = notified-shutdowns left (suc i)

  pub shut_count-shutdowns :
      (left i k : ℕ)
      → shut_count k (shutdowns {T = T} {F = F} left i)
        ≡ (if leb i k && ltb k (i + left) then 1 else 0)
  unfolding shutdowns
  shut_count-shutdowns zero i k = ground arith
  shut_count-shutdowns (suc left) i k = ground (arith, shut_count-shutdowns left (suc i) k)

  -- The calls on the servers' queues, and the notifications.
  server_quiet :
      (server left i : ℕ)
      → (notified (server_shutdowns {T = T} {F = F} server left i) ≡ [])
        × ((k : ℕ) → shut_count k (server_shutdowns {T = T} {F = F} server left i) ≡ 0)
  unfolding server_shutdowns
  server_quiet server zero i = (refl, λ k. refl)
  server_quiet server (suc left) i = server_quiet server left (suc i)

  pub servers_quiet :
      (server : ℕ) (qs : List ℕ)
      → (notified (all_server_shutdowns {T = T} {F = F} server qs) ≡ [])
        × ((k : ℕ) → shut_count k (all_server_shutdowns {T = T} {F = F} server qs) ≡ 0)
  unfolding all_server_shutdowns
  servers_quiet server [] = (refl, λ k. refl)
  servers_quiet server (q ∷ qs) =
      let one = server_quiet server q 0 in
      let rest = servers_quiet (suc server) qs in
      (
        notified-append (server_shutdowns server q 0) (all_server_shutdowns (suc server) qs)
            ∙ rw (one.0, rest.0),
        λ k. omega (
          arith,
          shut_count-append k (server_shutdowns server q 0) (all_server_shutdowns (suc server) qs),
          one.1 k,
          rest.1 k,
        ),
      )
