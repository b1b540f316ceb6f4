-- ===== src/Node/Loop/DutyCycle.antt =====
-- The time to the next frame.
use sufficient_io_t_applicat.Base.{ℕ, ◌+◌, ◌*◌, ◌^◌, ◌≤◌, ◌<◌, arith}
use sufficient_io_t_applicat.Node.Loop.{randr_above, next_duty_cycle, duty_cycle_rnd}

randr_above-le : (bound seed : ℕ) → (randr_above bound seed).1 ≤ 2 * bound
unfolding randr_above
randr_above-le bound seed = grind arith

-- With a configured time from 1000 ms on, and 1000 ms below what a uint32_t holds, the next frame
-- is due within 1000 ms of it, on either side.
pub next_duty_cycle_bounds :
    (app_tx_duty_cycle seed : ℕ)
    → 1000 ≤ app_tx_duty_cycle
    → app_tx_duty_cycle + 1000 < 2 ^ 32
    → let time = (next_duty_cycle app_tx_duty_cycle seed).1 in
      (app_tx_duty_cycle ≤ time + 1000) × (time ≤ app_tx_duty_cycle + 1000)
unfolding next_duty_cycle
next_duty_cycle_bounds duty seed low high = omega (arith, randr_above-le duty_cycle_rnd seed)

-- Where the configured time and the random number stay below 1000 ms together, the sum wraps: the
-- next frame is due after more than 49 days.
pub next_duty_cycle_wraps :
    (app_tx_duty_cycle seed : ℕ)
    → app_tx_duty_cycle + (randr_above duty_cycle_rnd seed).1 < 1000
    → 49 * 24 * 3600 * 1000 < (next_duty_cycle app_tx_duty_cycle seed).1
unfolding next_duty_cycle
next_duty_cycle_wraps duty seed low = omega arith
