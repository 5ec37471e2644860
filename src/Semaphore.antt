-- ===== src/Semaphore.antt =====
-- GatewaySemaphore of src/payment/payment-processor.service.ts. A caller is a name `W`; a waiting
-- caller stands for the callback that `acquire` queues, which counts it in and resolves its
-- promise. `release` is called through the function that `acquire` resolves to, so only by a
-- caller that is counted: the count is then at least 1, where the truncated `-` is exact.
pub mod Gate
use payment_queue_system_bul.Prelude.{
  ℕ, ◌+◌, ◌-◌, Bool, true, false, List, [], ◌∷◌, ◌++◌, Option, none, some, ltb, if◌then◌else◌,
}

pub record GatewaySemaphore {ℓ} (W : Type ℓ) : Type ℓ where
  pub max : ℕ
  pub in_flight : ℕ
  pub waiters : List W

module _ {ℓ} {W : Type ℓ} where
  abbrev pub new : ℕ → GatewaySemaphore W
  new max = record { max = max; in_flight = 0; waiters = [] }

  -- Whether the promise is resolved at once.
  unfoldable pub acquire : W → GatewaySemaphore W → GatewaySemaphore W × Bool
  acquire w s =
      if ltb s.in_flight s.max
      then (record s { in_flight = s.in_flight + 1 }, true)
      else (record s { waiters = s.waiters ++ w ∷ [] }, false)

  -- `waiters.shift()` and the call of what it returns, which counts the waiter in.
  wake : List W → GatewaySemaphore W → GatewaySemaphore W × Option W
  wake [] s = (s, none)
  wake (next ∷ rest) s = (record s { waiters = rest; in_flight = s.in_flight + 1 }, some next)

  -- The waiter whose promise is resolved, if there is one.
  unfoldable pub release : GatewaySemaphore W → GatewaySemaphore W × Option W
  unfolding wake
  release s = wake s.waiters (record s { in_flight = s.in_flight - 1 })
