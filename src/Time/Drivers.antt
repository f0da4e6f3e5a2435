-- ===== src/Time/Drivers.antt =====
-- src/time/drivers/ArduinoTimeDriver.cpp and src/time/drivers/EspIdfTimeDriver.cpp: 32-bit clocks that
-- count their overflows. What the platform's clock returns is an argument.
use jenlib.Common.{
  ℕ, ◌+◌, ◌-◌, ◌*◌, ◌/◌, ◌%◌, ◌^◌, ◌≤◌, ◌<◌, ◌≡◌, refl, inl, inr, Bool, List, [], ◌∷◌, ltb,
  if◌then◌else◌, Bool-cases, arith,
}

pub record Clock : Type 0 where
  pub last_time : ℕ
  pub overflow_count : ℕ

abbrev pub new_clock : Clock
new_clock = record { last_time = 0; overflow_count = 0 }

-- Both drivers' `now`, behind the reading of the clock.
unfoldable pub observe : Clock → ℕ → ℕ × Clock
observe c current_time = (
  current_time,
  record {
    last_time = current_time;
    overflow_count =
        if ltb current_time c.last_time then (c.overflow_count + 1) % 2 ^ 32 else c.overflow_count;
  },
)

-- `ArduinoTimeDriver::now`, from what `millis()` returns.
unfoldable pub arduino_now : Clock → ℕ → ℕ × Clock
unfolding observe
arduino_now c millis = observe c millis

-- `EspIdfTimeDriver::now`, from what `esp_timer_get_time()` returns.
unfoldable pub esp_idf_now : Clock → ℕ → ℕ × Clock
unfolding observe
esp_idf_now c time_us = observe c (time_us / 1000 % 2 ^ 32)

abbrev pub has_overflowed : Clock → ℕ → Bool
has_overflowed c time_value = ltb time_value c.last_time

unfoldable pub time_difference : ℕ → ℕ → ℕ
time_difference current_time previous_time =
    if ltb current_time previous_time
    then (2 ^ 32 - 1 - previous_time + current_time + 1) % 2 ^ 32
    else current_time - previous_time

-- The milliseconds since the start that the clock's 32 bits and its overflows make.
abbrev pub elapsed : Clock → ℕ
elapsed c = c.overflow_count * 2 ^ 32 + c.last_time

-- `now` on each of the times of a list, given in full milliseconds.
abbrev pub observe_all : Clock → List ℕ → Clock
observe_all c [] = c
observe_all c (time ∷ times) = observe_all (arduino_now c (time % 2 ^ 32)).1 times

-- Times that grow by less than one lap of the 32-bit clock from one to the next.
abbrev pub Steady : ℕ → List ℕ → Type 0
Steady from [] = Unit {0}
Steady from (time ∷ times) =
    (from ≤ time) × (time < from + 2 ^ 32) × (time < 2 ^ 64) × Steady time times

-- The last time of a list.
abbrev pub last : ℕ → List ℕ → ℕ
last from [] = from
last from (time ∷ times) = last time times

observe-elapsed :
    (c : Clock) (time : ℕ)
    → c.last_time < 2 ^ 32
    → c.overflow_count < 2 ^ 32
    → elapsed c ≤ time
    → time < elapsed c + 2 ^ 32
    → time < 2 ^ 64
    → let c' = (arduino_now c (time % 2 ^ 32)).1 in
      (elapsed c' ≡ time) × (c'.last_time < 2 ^ 32) × (c'.overflow_count < 2 ^ 32)
unfolding arduino_now observe
observe-elapsed c time fits counted later soon bound =
    let now = time % 2 ^ 32 in
    let below : now < 2 ^ 32 = omega arith in
    elim (Bool-cases (ltb now c.last_time)) [
      | inl wrapped ↦
          let less : now < c.last_time = ground arith in
          let small : c.overflow_count + 1 < 2 ^ 32 = omega arith in
          rw wrapped (omega arith, below, omega arith)
      | inr stays ↦
          let more : c.last_time ≤ now = ground arith in rw stays (omega arith, below, counted)
    ]

observe_all-elapsed :
    (c : Clock) (times : List ℕ) (from : ℕ)
    → c.last_time < 2 ^ 32
    → c.overflow_count < 2 ^ 32
    → elapsed c ≡ from
    → Steady from times
    → elapsed (observe_all c times) ≡ last from times
observe_all-elapsed c [] from fits counted e steady = e
observe_all-elapsed c (time ∷ times) from fits counted e (later, soon, bound, steady) =
    let (e', fits', counted') =
      observe-elapsed c time fits counted (omega arith) (omega arith) bound in
    observe_all-elapsed (arduino_now c (time % 2 ^ 32)).1 times time fits' counted' e' steady

-- A driver that is asked for the time at least once in each lap of its 32-bit clock, and before 2 ^
-- 64 milliseconds, holds in its overflows and its last time the full number of milliseconds.
pub overflows_counted :
    (times : List ℕ) → Steady 0 times → elapsed (observe_all new_clock times) ≡ last 0 times
overflows_counted times steady =
    observe_all-elapsed new_clock times 0 (omega arith) (omega arith) refl steady

-- time_difference undoes the addition of a 32-bit span to a 32-bit time, a lap of the clock
-- included.
pub time_difference_lem :
    (previous_time span : ℕ)
    → previous_time < 2 ^ 32
    → span < 2 ^ 32
    → time_difference ((previous_time + span) % 2 ^ 32) previous_time ≡ span
unfolding time_difference
time_difference_lem previous_time span before short =
    elim (Bool-cases (ltb ((previous_time + span) % 2 ^ 32) previous_time)) [
      | inl wrapped ↦
          let less : (previous_time + span) % 2 ^ 32 < previous_time = ground arith in
          rw wrapped (omega arith)
      | inr stays ↦
          let more : previous_time ≤ (previous_time + span) % 2 ^ 32 = ground arith in
          rw stays (omega arith)
    ]
