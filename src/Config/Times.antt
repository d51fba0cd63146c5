-- ===== src/Config/Times.antt =====
-- The first run of a task that the configuration gives a time (src/AppConfig.cpp).
use relb.Prelude.{ℕ, ◌+◌, ◌*◌, ◌/◌, ◌<◌, ◌≤◌, ◌≡◌, true, arith}
use relb.Prelude.Int.{ℤ, pos, negsuc, pos_part, ltb_ℤ, leb_ℤ, ◌+ℤ◌, ◌-ℤ◌}
use relb.Config.State.{Calendar}
use relb.ServerList.Schedule.{by_period}
use relb.Config.Tasks.{next_run}

-- `d` reaches beyond the difference of two times, and `e` beyond it by no more than `p`.
beyond : (a b : ℤ) (d : ℕ) → pos_part (b -ℤ a) < d → ltb_ℤ b (a +ℤ pos d) ≡ true
beyond (pos a) (pos b) d h = ground arith
beyond (pos a) (negsuc b) d h = ground arith
beyond (negsuc a) (pos b) d h = ground arith
beyond (negsuc a) (negsuc b) d h = ground arith

within_period :
    (a b : ℤ) (d p : ℕ)
    → ltb_ℤ a b ≡ true
    → d ≤ pos_part (b -ℤ a) + p
    → leb_ℤ (a +ℤ pos d) (b +ℤ pos p) ≡ true
within_period (pos a) (pos b) d p l h = ground arith
within_period (pos a) (negsuc b) d p l h = ground arith
within_period (negsuc a) (pos b) d p l h = ground arith
within_period (negsuc a) (negsuc b) d p l h = ground arith

positive : (x : ℤ) → ltb_ℤ (pos 0) x ≡ true → 0 < 1000 * pos_part x
positive (pos n) h = ground arith
positive (negsuc n) h = ground arith

-- For an interval that is positive and a first run that is past, the next run lies behind the
-- present, by at most one interval.
next_run_bounds :
    (k : Calendar) (interval first : ℤ)
    → ltb_ℤ (pos 0) interval ≡ true
    → ltb_ℤ first k.again ≡ true
    → (ltb_ℤ k.again (next_run k interval first) ≡ true)
      × (leb_ℤ (next_run k interval first) (k.again +ℤ pos (1000 * pos_part interval)) ≡ true)
unfolding next_run
next_run_bounds k interval first v w =
    let x = pos_part (k.again -ℤ first) in
    let period = 1000 * pos_part interval in
    let (above, below) = by_period x period (positive interval v) in
    let d = (x / period + 1) * period in
    (beyond first k.again d above, within_period first k.again d period w below)
