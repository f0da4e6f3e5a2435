-- ===== src/Time/Native.antt =====
-- src/time/drivers/NativeTimeDriver.cpp. The steady clock of the platform is an argument, in
-- nanoseconds: what each read of it returns. The delay and the epoch time only call the platform.
use jenlib.Common.{ℕ, ◌-◌, ◌/◌, ◌%◌, ◌^◌, ◌≡◌, refl, Bool, true, false, not, if◌then◌else◌}

-- The static members.
pub record NativeClock : Type 0 where
  pub start_time : ℕ
  pub initialized : Bool

abbrev new_native_clock : NativeClock
new_native_clock = record { start_time = 0; initialized = false }

unfoldable initialize : NativeClock → ℕ → NativeClock
initialize clock t =
    if not clock.initialized then record { start_time = t; initialized = true } else clock

-- The clock is read in `initialize`, which returns `first`, and again for the duration.
unfoldable now_static : NativeClock → ℕ → ℕ → ℕ × NativeClock
now_static clock first t =
    let started = if not clock.initialized then initialize clock first else clock in
    ((t - started.start_time) / 1000000 % 2 ^ 32, started)

-- The times are the whole milliseconds since the first call read the clock, modulo 2 ^ 32.
now_static-now_static :
    (first t later u : ℕ)
    → let (time, clock) = now_static new_native_clock first t in
      (time ≡ (t - first) / 1000000 % 2 ^ 32)
      × ((now_static clock later u).0 ≡ (u - first) / 1000000 % 2 ^ 32)
unfolding now_static initialize
now_static-now_static first t later u = (refl, refl)
