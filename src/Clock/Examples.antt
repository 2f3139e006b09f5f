-- ===== src/Clock/Examples.antt =====
-- A clock at 1000 Hz with one timer that is due, and callbacks that do nothing.
use os_from_scratch.Common.{
  ℕ, ◌+◌, ◌≤◌, ◌<◌, ◌≡◌, ◌≢◌, ◌⊎◌, refl, arith, true, false, Option, none, some, Bool-cases, inl,
  inr, ltb, ◌==◌, if◌then◌else◌,
}
use os_from_scratch.Common.Word.{u64}
use os_from_scratch.Clock.{
  Clock, TimerEvent, generic_timer_handler, clock_create_timer, clock_sleep_ms,
}
use os_from_scratch.Clock.Ticks.{Agrees, IsQuiet, generic_timer_handler_lem, clock_sleep_ms_lem}
use os_from_scratch.Clock.Timers.{
  LeavesTimers, Armed, is_due, fired, generic_timer_handler-timers, clock_create_timer_lem,
}

abbrev do_nothing : Option ℕ → Clock ℕ → Clock ℕ
do_nothing f s = s

abbrev first_timer : TimerEvent ℕ
first_timer = record { delay = 5; active = true; callback = some 7 }

abbrev no_timer : TimerEvent ℕ
no_timer = record { delay = 0; active = false; callback = none }

abbrev running : Clock ℕ
running = record {
  ticks = 3999;
  seconds = 3;
  frequency = 1000;
  tick_divider = 999;
  user_callback = some 1;
  timers = λ i. if i == 0 then first_timer else no_timer;
}

running-Agrees : Agrees running
running-Agrees = record { total = refl; below = omega arith }

do_nothing-LeavesTimers : LeavesTimers do_nothing
do_nothing-LeavesTimers = record { ticks = λ f s. refl; timers = λ f s. refl }

do_nothing-IsQuiet : IsQuiet do_nothing
do_nothing-IsQuiet = record {
  counters = λ f s. record { ticks = refl; seconds = refl; frequency = refl; tick_divider = refl };
  arms = λ f s armed. armed;
}

running-Armed : Armed 0 10 running.timers
unfolding Armed
running-Armed j le lt on = elim (Bool-cases (j == 0)) [
  | inl first ↦ (7, rw first refl)
  | inr other ↦ (let off : (running.timers j).active ≡ false = rw other refl in cc)
]

generic_timer_handler_lem_example :
    Agrees (generic_timer_handler do_nothing running)
    × ((generic_timer_handler do_nothing running).ticks ≡ 3999 + 1)
generic_timer_handler_lem_example =
    generic_timer_handler_lem do_nothing do_nothing-IsQuiet running running-Agrees running-Armed
      (omega arith) (omega arith)

generic_timer_handler-timers_example :
    (generic_timer_handler do_nothing running).timers 0
    ≡ (if ltb 0 10 then fired (is_due (u64 (3999 + 1)) first_timer) first_timer else first_timer)
generic_timer_handler-timers_example =
    generic_timer_handler-timers do_nothing do_nothing-LeavesTimers running 0 running-Armed

abbrev started : Clock ℕ
started = (clock_create_timer 20 (some 8) running).1

clock_create_timer_lem_example :
    ((n : ℕ) × ((clock_create_timer 20 (some 8) running).0 ≡ some n)
      × (n < 10)
      × ((running.timers n).active ≡ false)
      × ((j : ℕ) → j < n → (running.timers j).active ≡ true)
      × (started.timers n ≡ record { delay = u64 (3999 + 20); active = true; callback = some 8 })
      × ((j : ℕ) → j ≢ n → started.timers j ≡ running.timers j))
    ⊎ ((clock_create_timer 20 (some 8) running ≡ (none, running))
        × ((j : ℕ) → j < 10 → (running.timers j).active ≡ true))
clock_create_timer_lem_example = clock_create_timer_lem 20 (some 8) running

-- Each read finds the ticks one further.
abbrev one_by_one : ℕ → ℕ
one_by_one n = n

clock_sleep_ms_lem_example :
    (m : ℕ) × (clock_sleep_ms 9 one_by_one 4 ≡ some m)
    × (0 + 4 ≤ m)
    × ((j : ℕ) → 1 ≤ j → j < m → j < 0 + 4)
clock_sleep_ms_lem_example =
    clock_sleep_ms_lem 9 4 4 one_by_one (omega arith) (omega arith) (omega arith) (omega arith)
