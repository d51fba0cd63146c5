-- ===== src/ServerList/Schedule.antt =====
-- When the tasks of `ServerList::execute` run, and how long its loop waits.
use relb.Prelude.{ℕ, ◌+◌, ◌-◌, ◌*◌, ◌/◌, ◌%◌, ◌≤◌, ◌<◌, ◌≡◌, refl, ltb, if◌then◌else◌, arith}
use native.Mathlib.Nat.{div-add-mod, mod-lt, mul_comm}
use relb.Prelude.Int.{pos}
use relb.ServerList.Tasks.{next_fixed, wait_ms}

-- The first multiple of the period behind a span of time.
pub by_period :
    (x period : ℕ)
    → 0 < period
    → (x < (x / period + 1) * period) × ((x / period + 1) * period ≤ x + period)
by_period x period h =
    let split = div-add-mod x period in
    let below = mod-lt x h in
    let swapped = mul_comm (x / period) period in
    (omega (arith, split, below, swapped), omega (arith, split, below, swapped))

next_by_period :
    (next period now : ℕ)
    → 0 < period
    → next ≤ now
    → (now < next + ((now - next) / period + 1) * period)
      × (next + ((now - next) / period + 1) * period ≤ now + period)
next_by_period next period now h k =
    let (above, below) = by_period (now - next) period h in
    (omega (arith, above, below, k), omega (arith, above, below, k))

-- A task with fixed times that is due, with an interval that is not 0, runs next at one of its
-- times, a whole number of intervals after the one that has come, which lies behind the present by
-- at most one interval.
pub next_fixed_lem :
    (next interval now : ℕ)
    → 0 < interval
    → next ≤ now
    → (now < next_fixed next interval now)
      × (next_fixed next interval now ≤ now + 1000 * interval)
      × (n : ℕ) × (next_fixed next interval now ≡ next + n * (1000 * interval))
unfolding next_fixed
next_fixed_lem next interval now h k =
    let (a, b) = next_by_period next (1000 * interval) now (omega arith) k in
    (a, b, (now - next) / (1000 * interval) + 1, refl)

-- If the time of the next task is not past by more than the margin, the loop waits for a whole
-- number of seconds, at least one and at most fifteen, and no more than a second longer than up to
-- that time and the margin.
pub wait_ms_bounds :
    (next now : ℕ)
    → now ≤ next + 16
    → (w : ℕ) × (wait_ms next now ≡ pos w)
      × (w % 1000 ≡ 0)
      × (1000 ≤ w)
      × (w ≤ 15000)
      × (w ≤ next + 16 - now + 1000)
unfolding wait_ms
wait_ms_bounds next now h =
    let left = next + 16 - now in
    (
      (if ltb left 14000 then left else 14000) / 1000 * 1000 + 1000,
      ground arith,
      ground arith,
      ground arith,
      ground arith,
      ground arith,
    )
