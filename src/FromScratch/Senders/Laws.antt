-- ===== src/FromScratch/Senders/Laws.antt =====
-- `then` applies its function to a value, passes errors and stops on, and `sync_wait` reports the three.
use grpc_p.Base.{◌≡◌, refl, ap, ◌∙◌, none, some}
use grpc_p.FromScratch.Senders.{
  Receiver, Sender, then_receiver, then_, sync_wait_receiver, new_control, Waited, returned,
  rethrown, waited, sync_wait,
}

-- The one call that a sender makes on its receiver.
pub data Completion (V E : Type 0) : Type 0 where
  value : V → Completion V E
  error : E → Completion V E
  stopped : Completion V E

module _ {V E : Type 0} where
  abbrev pub deliver : {W : Type 0} → Completion V E → Receiver V E W → W
  deliver (value v) r = r.set_value v
  deliver (error e) r = r.set_error e
  deliver stopped r = r.set_stopped

  abbrev pub Completes : Sender V E → Completion V E → Type 1
  Completes s d = (W : Type 0) (r : Receiver V E W) → s W r ≡ deliver d r

  abbrev pub result_of : Completion V E → Waited V E
  result_of (value v) = returned (some v)
  result_of (error e) = rethrown e
  result_of stopped = returned none

  sync_wait-Completes :
      (s : Sender V E) (d : Completion V E) → Completes s d → sync_wait s ≡ result_of d
  unfolding sync_wait
  sync_wait-Completes s d h = ap (λ k. waited (k new_control)) (h _ sync_wait_receiver) ∙ by_case d
    where
      by_case :
          (d : Completion V E) → waited (deliver d sync_wait_receiver new_control) ≡ result_of d
      by_case (value v) = refl
      by_case (error e) = refl
      by_case stopped = refl

module _ {V E U : Type 0} where
  abbrev pub map_value : (V → U) → Completion V E → Completion U E
  map_value f (value v) = value (f v)
  map_value f (error e) = error e
  map_value f stopped = stopped

  then-Completes :
      (f : V → U) (s : Sender V E) (d : Completion V E)
      → Completes s d
      → Completes (then_ s f) (map_value f d)
  unfolding then_ then_receiver
  then-Completes f s (value v) h W r = h W (then_receiver r f)
  then-Completes f s (error e) h W r = h W (then_receiver r f)
  then-Completes f s stopped h W r = h W (then_receiver r f)

  -- For a sender that makes one call on its receiver: with `then` it makes one, with the function applied
  -- to a value and with an error or a stop as it was; and `sync_wait` on that returns the value mapped,
  -- throws the error again, or returns no value.
  sync_wait-then :
      (f : V → U) (s : Sender V E) (d : Completion V E)
      → Completes s d
      → Completes (then_ s f) (map_value f d) × (sync_wait (then_ s f) ≡ result_of (map_value f d))
  sync_wait-then f s d h =
      let c = then-Completes f s d h in (c, sync_wait-Completes (then_ s f) (map_value f d) c)
