-- ===== src/Clock.antt =====
-- zk/src/c/src/zookeeper.c: the times that the handle keeps. An int is its bit pattern.
use ruby_zookeeper.Prelude.{
  ltb, if◌then◌else◌, is_neg, sub_int, ℕ, ◌+◌, ◌-◌, ◌*◌, ◌/◌, ◌%◌, ◌^◌, ◌≤◌, ◌<◌, ◌≡◌, ◌↔◌, arith,
}

-- `struct timeval`; neither part is negative.
pub record Timeval : Type 0 where
  pub tv_sec : ℕ
  pub tv_usec : ℕ

-- The microseconds in it.
abbrev pub micros : Timeval → ℕ
micros t = t.tv_sec * 1000000 + t.tv_usec

-- The time that is so many microseconds after the epoch.
abbrev pub timeval_at : ℕ → Timeval
timeval_at t = record { tv_sec = t / 1000000; tv_usec = t % 1000000 }

-- As `gettimeofday` fills it.
abbrev pub IsTimeval : Timeval → Type 0
IsTimeval t = t.tv_usec < 1000000

-- `i.tv_sec * 1000 + i.tv_usec / 1000` of the differences, which may be negative, as an int: the
-- division cuts off towards 0, so that each difference counts on the side where it is positive.
unfoldable pub calculate_interval : Timeval → Timeval → ℕ
calculate_interval start end' =
    sub_int ((end'.tv_sec * 1000 + (end'.tv_usec - start.tv_usec) / 1000) % 2 ^ 32)
      ((start.tv_sec * 1000 + (start.tv_usec - end'.tv_usec) / 1000) % 2 ^ 32)

unfoldable pub get_timeval : ℕ → Timeval
get_timeval interval =
    let ms = if is_neg interval then 0 else interval in
    record { tv_sec = ms / 1000; tv_usec = ms % 1000 * 1000 }

-- The end of `zookeeper_interest`: `now` and the timeout, with the carry.
unfoldable pub deadline_after : Timeval → Timeval → Timeval
deadline_after now tv =
    let sec = now.tv_sec + tv.tv_sec in
    let usec = now.tv_usec + tv.tv_usec in
    if ltb 1000000 usec
    then record { tv_sec = sec + usec / 1000000; tv_usec = usec % 1000000 }
    else record { tv_sec = sec; tv_usec = usec }

-- For every interval, the negative ones among them, which count as 0: the timeval has less than a
-- second of microseconds, and is as long as the interval says.
pub get_timeval-bounds :
    (interval : ℕ)
    → IsTimeval (get_timeval interval)
      × (micros (get_timeval interval) ≡ (if is_neg interval then 0 else interval) * 1000)
unfolding get_timeval
get_timeval-bounds interval = (ground arith, ground arith)

-- For a time of the clock and a timeout of less than a second of microseconds: the deadline is that
-- much later to the microsecond, and its microseconds are at most a whole second, which is reached
-- exactly when the two add up to one.
pub deadline_after-bounds :
    (now tv : Timeval)
    → IsTimeval now
    → IsTimeval tv
    → (micros (deadline_after now tv) ≡ micros now + micros tv)
      × ((deadline_after now tv).tv_usec ≤ 1000000)
      × (((deadline_after now tv).tv_usec ≡ 1000000) ↔ (now.tv_usec + tv.tv_usec ≡ 1000000))
unfolding deadline_after
deadline_after-bounds now tv early late = ground arith
