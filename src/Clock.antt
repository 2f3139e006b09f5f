-- ===== src/Clock.antt =====
-- drivers/clock/clock.cpp: the tick counters, the ten timers, and the waits.
pub mod Ticks
pub mod Timers
mod Examples
use os_from_scratch.Common.{
  ℕ, zero, suc, ◌+◌, ◌-◌, ◌*◌, ◌^◌, Bool, true, false, ◌&&◌, not, Option, none, some, ltb, leb,
  ◌==◌, if◌then◌else◌,
}
use os_from_scratch.Common.Word.{u32, u64, store}

abbrev pub max_timers : ℕ
max_timers = 10

module _ (Callback : Type 0) where
  -- timer_event_t. `none` is a callback of NULL.
  pub record TimerEvent : Type 0 where
    pub delay : ℕ
    pub active : Bool
    pub callback : Option Callback

  -- The static variables of clock.cpp.
  pub record Clock : Type 0 where
    pub ticks : ℕ
    pub seconds : ℕ
    pub frequency : ℕ
    pub tick_divider : ℕ
    pub user_callback : Option Callback
    pub timers : ℕ → TimerEvent

-- `call` is what a call of a pointer to a callback does to the state of the clock, also one of NULL.
module _ {Callback : Type 0} (call : Option Callback → Clock Callback → Clock Callback) where
  -- The call of the callback of the user, which the source makes where the pointer is not NULL.
  abbrev pub call_back : Option Callback → Clock Callback → Clock Callback
  call_back none s = s
  call_back (some f) s = call (some f) s

  unfoldable pub count_tick : Clock Callback → Clock Callback
  count_tick s =
      let ticks = u64 (s.ticks + 1) in
      let divider = u32 (s.tick_divider + 1) in
      if s.frequency == divider
      then record s { ticks = ticks; seconds = u64 (s.seconds + 1); tick_divider = 0 }
      else record s { ticks = ticks; tick_divider = divider }

  -- One round of the loop over the timers, whose callback is called without a test for NULL.
  unfoldable pub run_timer : ℕ → ℕ → Clock Callback → Clock Callback
  unfolding store
  run_timer current_ms i s =
      let timer = s.timers i in
      if timer.active && leb timer.delay current_ms
      then call timer.callback
          (record s { timers = store s.timers i (record timer { active = false }) })
      else s

  unfoldable pub timers_loop : ℕ → ℕ → ℕ → Clock Callback → Clock Callback
  unfolding run_timer
  timers_loop zero i current_ms s = s
  timers_loop (suc left) i current_ms s =
      timers_loop left (i + 1) current_ms (run_timer current_ms i s)

  -- The handler up to the end of interrupt.
  unfoldable pub generic_timer_handler : Clock Callback → Clock Callback
  unfolding count_tick timers_loop
  generic_timer_handler s =
      let s1 = count_tick s in
      let s2 = call_back s1.user_callback s1 in timers_loop max_timers 0 s2.ticks s2

module _ {Callback : Type 0} where
  abbrev pub clock_set_handler : Option Callback → Clock Callback → Clock Callback
  clock_set_handler handler s = record s { user_callback = handler }

  -- The first inactive timer from `i` on.
  unfoldable pub find_timer : (ℕ → TimerEvent Callback) → ℕ → ℕ → Option ℕ
  find_timer timers zero i = none
  find_timer timers (suc left) i =
      let rest = find_timer timers left (i + 1) in if not (timers i).active then some i else rest

  -- The id, and the new state; `none` is the answer -1.
  unfoldable pub clock_create_timer :
      ℕ → Option Callback → Clock Callback → Option ℕ × Clock Callback
  unfolding find_timer store
  clock_create_timer ms callback s =
      let timer : TimerEvent Callback = record {
        delay = u64 (s.ticks + ms);
        active = true;
        callback = callback;
      } in
      elim (find_timer s.timers max_timers 0) [
        | none ↦ (none, s)
        | some i ↦ (some i, record s { timers = store s.timers i timer })
      ]

  -- A timer_id that is not negative; the source ignores a negative one.
  unfoldable pub clock_destroy_timer : ℕ → Clock Callback → Clock Callback
  unfolding store
  clock_destroy_timer timer_id s =
      if ltb timer_id max_timers
      then record s {
        timers = store s.timers timer_id (record (s.timers timer_id) { active = false });
      }
      else s

-- The waiting loop, where the n-th read of the ticks finds `read n`: the number of the read that
-- ends it. `none`: the fuel ran out.
unfoldable pub sleep_loop : ℕ → (ℕ → ℕ) → ℕ → ℕ → Option ℕ
sleep_loop zero read stop n = none
sleep_loop (suc fuel) read stop n =
    let rest = sleep_loop fuel read stop (n + 1) in if ltb (read n) stop then rest else some n

unfoldable pub clock_sleep_ms : ℕ → (ℕ → ℕ) → ℕ → Option ℕ
unfolding sleep_loop
clock_sleep_ms fuel read ms = sleep_loop fuel read (u64 (read 0 + ms)) 1

unfoldable pub clock_sleep_s : ℕ → (ℕ → ℕ) → ℕ → Option ℕ
unfolding clock_sleep_ms
clock_sleep_s fuel read s = clock_sleep_ms fuel read (u32 (s * 1000))
