-- ===== src/Time.antt =====
-- include/jenlib/time/TimeTypes.h, include/jenlib/time/Time.h and src/time/Time.cpp: sixteen timers.
-- The static members are a record that each function takes and returns, a callback and a driver are
-- handles, and `size_t` has the 32 bits that it has on the boards.
pub mod Slots
pub mod Scheduling
pub mod Handles
pub mod Processing
pub mod Firing
pub mod Calls
pub mod Reentry
pub mod Drivers
mod Native
mod Tests
use jenlib.Common.{
  ℕ, zero, suc, ◌+◌, ◌%◌, ◌^◌, ◌-◌, Bool, true, false, List, [], ◌∷◌, ◌==◌, leb, ltb, not, ◌&&◌,
  ◌||◌, if◌then◌else◌, get_or, set, replicate, Option, none, some, map,
}
use mathlib.Core.Option

abbrev pub invalid_timer_id : ℕ
invalid_timer_id = 0

pub data TimerState : Type 0 where
  inactive active expired : TimerState

abbrev pub state_code : TimerState → ℕ
state_code TimerState.inactive = 0
state_code TimerState.active = 1
state_code TimerState.expired = 2

pub record TimerEntry : Type 0 where
  pub id : ℕ
  pub interval_ms : ℕ
  pub next_fire_time : ℕ
  pub callback : Option ℕ
  pub repeat : Bool
  pub state : TimerState

abbrev pub default_entry : TimerEntry
default_entry = record {
  id = invalid_timer_id;
  interval_ms = 0;
  next_fire_time = 0;
  callback = none;
  repeat = false;
  state = TimerState.inactive;
}

-- The constructor with parameters.
abbrev pub new_entry : ℕ → ℕ → ℕ → Option ℕ → Bool → TimerEntry
new_entry timer_id interval fire_time cb should_repeat = record {
  id = timer_id;
  interval_ms = interval;
  next_fire_time = fire_time;
  callback = cb;
  repeat = should_repeat;
  state = TimerState.active;
}

abbrev pub max_timers : ℕ
max_timers = 16

pub record Timers : Type 0 where
  pub initialized : Bool
  pub next_timer_id : ℕ
  pub timers : List TimerEntry
  pub timer_count : ℕ
  pub driver : Option ℕ

-- The static members before any call.
abbrev pub startup : Timers
startup = record {
  initialized = false;
  next_timer_id = 1;
  timers = replicate max_timers default_entry;
  timer_count = 0;
  driver = none;
}

abbrev pub in_state : TimerState → TimerEntry → Bool
in_state s timer = state_code timer.state == state_code s

abbrev pub with_state : TimerState → TimerEntry → TimerEntry
with_state s timer = record timer { state = s }

abbrev pub deactivate_all : List TimerEntry → List TimerEntry
deactivate_all = map (with_state TimerState.inactive)

-- `--timer_count_`
abbrev pub decrement : ℕ → ℕ
decrement n = (n + (2 ^ 32 - 1)) % 2 ^ 32

unfoldable pub initialize : Timers → Timers
initialize t =
    if not t.initialized
    then record {
      initialized = true;
      next_timer_id = 1;
      timers = deactivate_all t.timers;
      timer_count = 0;
      driver = t.driver;
    }
    else t

unfoldable pub get_next_timer_id : Timers → ℕ × Timers
get_next_timer_id t =
    if t.next_timer_id == invalid_timer_id
    then (invalid_timer_id, t)
    else (t.next_timer_id, record t { next_timer_id = (t.next_timer_id + 1) % 2 ^ 32 })

abbrev pub set_driver : Timers → Option ℕ → Timers
set_driver t driver = record t { driver = driver }

-- `std::count_if` on the active timers.
abbrev pub count_active : List TimerEntry → ℕ
count_active [] = 0
count_active (timer ∷ timers) =
    (if in_state TimerState.active timer then 1 else 0) + count_active timers

abbrev pub get_active_timer_count : Timers → ℕ
get_active_timer_count t = count_active t.timers

abbrev pub get_total_timer_count : Timers → ℕ
get_total_timer_count t = t.timer_count

unfoldable pub clear_all_timers : Timers → Timers
clear_all_timers t = record t { timers = deactivate_all t.timers; timer_count = 0 }

-- The loop over the slots that looks for a free one.
unfoldable pub find_available_slot : List TimerEntry → Option ℕ
find_available_slot [] = none
find_available_slot (timer ∷ timers) =
    if in_state TimerState.inactive timer
    then some 0
    else Option.map suc (find_available_slot timers)

-- The loop over the slots that looks for an active timer.
unfoldable pub find_timer : ℕ → List TimerEntry → Option ℕ
find_timer timer_id [] = none
find_timer timer_id (timer ∷ timers) =
    if timer.id == timer_id && in_state TimerState.active timer
    then some 0
    else Option.map suc (find_timer timer_id timers)

unfoldable pub cancel_callback : Timers → ℕ → Bool × Timers
cancel_callback t timer_id =
    if timer_id == invalid_timer_id then (false, t) else elim (find_timer timer_id t.timers) [
      | none ↦ (false, t)
      | some i ↦
          let stopped = with_state TimerState.inactive (get_or t.timers i default_entry) in
          (
            true,
            record t { timers = set t.timers i stopped; timer_count = decrement t.timer_count },
          )
    ]

-- `W` is the world outside of the time service; `driver_now` and `driver_delay` are the driver's.
module _ {W : Type 0} (driver_now : ℕ → W → ℕ) (driver_delay : ℕ → ℕ → W → W) where
  abbrev pub now : Timers → W → ℕ
  now t w = elim t.driver [ none ↦ 0 | some driver ↦ driver_now driver w ]

  abbrev pub delay : Timers → ℕ → W → W
  delay t delay_ms w = elim t.driver [ none ↦ w | some driver ↦ driver_delay driver delay_ms w ]

  unfoldable pub schedule_callback : Timers → ℕ → Option ℕ → Bool → W → ℕ × Timers
  schedule_callback t interval_ms none repeat w = (invalid_timer_id, t)
  schedule_callback t interval_ms (some callback) repeat w =
      if interval_ms == 0
      then (invalid_timer_id, t)
      else let t0 = initialize t in
        if leb max_timers t0.timer_count
        then (invalid_timer_id, t0)
        else let (timer_id, t1) = get_next_timer_id t0 in
          if timer_id == invalid_timer_id
          then (invalid_timer_id, t1)
          else let fire_time = (now t1 w + interval_ms) % 2 ^ 32 in
            let entry = new_entry timer_id interval_ms fire_time (some callback) repeat in
            elim (find_available_slot t1.timers) [
              | none ↦ (invalid_timer_id, t1)
              | some i ↦ (
                timer_id,
                record t1 {
                  timers = set t1.timers i entry;
                  timer_count = (t1.timer_count + 1) % 2 ^ 32;
                },
              )
            ]

  abbrev pub schedule_repeating_timer : Timers → ℕ → Option ℕ → W → ℕ × Timers
  schedule_repeating_timer t interval_ms callback w =
      schedule_callback t interval_ms callback true w

  abbrev pub schedule_one_shot : Timers → ℕ → Option ℕ → W → ℕ × Timers
  schedule_one_shot t delay_ms callback w = schedule_callback t delay_ms callback false w

  -- `process_timers`; running a callback may change the timers and the world.
  module _ (invoke : ℕ → Timers × W → Timers × W) where
    abbrev pub is_due : ℕ → TimerEntry → Bool
    is_due current_time timer =
        in_state TimerState.active timer && leb timer.next_fire_time current_time

    -- The call of a due timer's callback.
    abbrev pub fire : Option ℕ → ℕ × Timers × W → ℕ × Timers × W
    fire none s = s
    fire (some callback) (fired_count, t, w) =
        let (t', w') = invoke callback (t, w) in (fired_count + 1, t', w')

    -- What follows the call. The timer is a reference, read in the current state.
    abbrev pub settle : ℕ → ℕ → Timers → Timers
    settle current_time i t =
        let timer = get_or t.timers i default_entry in
        let again : TimerEntry = record timer {
          next_fire_time = (current_time + timer.interval_ms) % 2 ^ 32;
          state = TimerState.active;
        } in
        if timer.repeat then record t { timers = set t.timers i again } else record t {
          timers = set t.timers i (with_state TimerState.inactive timer);
          timer_count = decrement t.timer_count;
        }

    unfoldable pub visit_timer : ℕ → ℕ → ℕ × Timers × W → ℕ × Timers × W
    visit_timer current_time i (fired_count, t, w) =
        let timer = get_or t.timers i default_entry in
        let marked : Timers = record t {
          timers = set t.timers i (with_state TimerState.expired timer);
        } in
        let (fired_count', t', w') = fire timer.callback (fired_count, marked, w) in
        if is_due current_time timer
        then (fired_count', settle current_time i t', w')
        else (fired_count, t, w)

    unfoldable pub visit_timers : ℕ → ℕ → ℕ → ℕ × Timers × W → ℕ × Timers × W
    visit_timers zero current_time i s = s
    visit_timers (suc n) current_time i s =
        visit_timers n current_time (i + 1) (visit_timer current_time i s)

    unfoldable pub process_timers : Timers → W → ℕ × Timers × W
    process_timers t w =
        if t.timer_count == 0 then (0, t, w) else visit_timers max_timers (now t w) 0 (0, t, w)
