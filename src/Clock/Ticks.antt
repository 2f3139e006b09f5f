-- ===== src/Clock/Ticks.antt =====
-- The counters of clock.cpp, and how long the waits take.
use os_from_scratch.Common.{
  ℕ, zero, suc, ◌+◌, ◌*◌, ◌%◌, ◌^◌, ◌≤◌, ◌<◌, ◌≡◌, refl, sym, ap, subst, ◌∙◌, arith, false, ◌&&◌,
  Option, none, some, ltb, leb, ◌==◌, Bool-cases, inl, inr, ==→eq, ==→ne,
}
use native.Mathlib.Nat.{le-mul_of_pos_right, add-mul}
use os_from_scratch.Common.Word.{u32, u64, store, store_self, store_ne}
use os_from_scratch.Clock.{
  Clock, call_back, count_tick, run_timer, timers_loop, generic_timer_handler, sleep_loop,
  clock_sleep_ms, clock_sleep_s,
}
use os_from_scratch.Clock.Timers.{Armed}

-- The counters agree: `ticks` is the whole seconds and the ticks since.
pub record Agrees {Callback : Type 0} (s : Clock Callback) : Type 0 where
  pub total : s.ticks ≡ s.seconds * s.frequency + s.tick_divider
  pub below : s.tick_divider < s.frequency

-- The counters of two states are the same.
pub record SameTicks {Callback : Type 0} (s t : Clock Callback) : Type 0 where
  pub ticks : s.ticks ≡ t.ticks
  pub seconds : s.seconds ≡ t.seconds
  pub frequency : s.frequency ≡ t.frequency
  pub tick_divider : s.tick_divider ≡ t.tick_divider

-- A callback leaves the counters, and starts no timer without a callback. Of a call of NULL nothing
-- is asked.
pub record IsQuiet {Callback : Type 0} (call : Option Callback → Clock Callback → Clock Callback)
    : Type 0 where
  pub counters : (f : Callback) (s : Clock Callback) → SameTicks (call (some f) s) s
  pub arms :
      (f : Callback) (s : Clock Callback)
      → Armed 0 10 s.timers
      → Armed 0 10 (call (some f) s).timers

module _ {Callback : Type 0} (call : Option Callback → Clock Callback → Clock Callback)
    (quiet : IsQuiet call) where
  same : (s : Clock Callback) → SameTicks s s
  same s = record { ticks = refl; seconds = refl; frequency = refl; tick_divider = refl }

  then_same : (s t u : Clock Callback) → SameTicks s t → SameTicks t u → SameTicks s u
  then_same s t u a b = record {
    ticks = a.ticks ∙ b.ticks;
    seconds = a.seconds ∙ b.seconds;
    frequency = a.frequency ∙ b.frequency;
    tick_divider = a.tick_divider ∙ b.tick_divider;
  }

  call_back-SameTicks :
      (f : Option Callback) (s : Clock Callback) → SameTicks (call_back call f s) s
  call_back-SameTicks none s = same s
  call_back-SameTicks (some f) s = quiet.counters f s

  call_back-Armed :
      (f : Option Callback) (s : Clock Callback)
      → Armed 0 10 s.timers
      → Armed 0 10 (call_back call f s).timers
  call_back-Armed none s armed = armed
  call_back-Armed (some f) s armed = quiet.arms f s armed

  -- A timer that is turned off leaves the others armed.
  turned_off :
      (i : ℕ) (s : Clock Callback)
      → Armed 0 10 s.timers
      → Armed 0 10 (store s.timers i (record (s.timers i) { active = false }))
  unfolding Armed
  turned_off i s armed = λ j le lt on. elim (Bool-cases (j == i)) [
    | inl here ↦
        (let off : (store s.timers i (record (s.timers i) { active = false }) j).active ≡ false =
            rw (==→eq j i here) (
              ap (λ t. t.active)
                (store_self s.timers i (record (s.timers i) { active = false }))) in
          cc)
    | inr other ↦
        (let ne = ==→ne j i other in
          let kept = store_ne s.timers i (record (s.timers i) { active = false }) j ne in
          let (f, e) = armed j le lt (ap (λ t. t.active) (sym kept) ∙ on) in
          (f, ap (λ t. t.callback) kept ∙ e))
  ]

  called_keeps :
      (f : Option Callback) (t : Clock Callback)
      → (g : Callback) × (f ≡ some g)
      → Armed 0 10 t.timers
      → SameTicks (call f t) t × Armed 0 10 (call f t).timers
  called_keeps f t (g, e) armed = rw e (quiet.counters g t, quiet.arms g t armed)

  -- One round keeps the counters and the timers armed.
  run_timer_keeps :
      (now i : ℕ) (s : Clock Callback)
      → i < 10
      → Armed 0 10 s.timers
      → SameTicks (run_timer call now i s) s × Armed 0 10 (run_timer call now i s).timers
  unfolding run_timer Armed
  run_timer_keeps now i s lt armed =
      elim (Bool-cases ((s.timers i).active && leb (s.timers i).delay now)) [
        | inl due ↦
            (let s1 = record s {
              timers = store s.timers i (record (s.timers i) { active = false });
            } in
              let (h, after) =
                called_keeps (s.timers i).callback s1
                  (armed i (omega arith) lt (ground (arith, due))) (turned_off i s armed) in
              rw (run_timer, due)
                (
                  record {
                    ticks = h.ticks;
                    seconds = h.seconds;
                    frequency = h.frequency;
                    tick_divider = h.tick_divider;
                  },
                  after,
                ))
        | inr waiting ↦ rw (run_timer, waiting) (same s, armed)
      ]

  timers_loop_keeps :
      (left i now : ℕ) (s : Clock Callback)
      → i + left ≤ 10
      → Armed 0 10 s.timers
      → SameTicks (timers_loop call left i now s) s
        × Armed 0 10 (timers_loop call left i now s).timers
  unfolding timers_loop
  timers_loop_keeps zero i now s le armed = (same s, armed)
  timers_loop_keeps (suc left) i now s le armed =
      let first = run_timer_keeps now i s (omega arith) armed in
      let rest =
        timers_loop_keeps left (i + 1) now (run_timer call now i s) (omega arith) first.1 in
      (
        then_same (timers_loop call left (i + 1) now (run_timer call now i s))
            (run_timer call now i s) s rest.0 first.0,
        rest.1,
      )

  count_tick-Agrees :
      (s : Clock Callback)
      → Agrees s
      → s.ticks + 1 < 2 ^ 64
      → s.frequency < 2 ^ 32
      → Agrees (count_tick call s) × ((count_tick call s).ticks ≡ s.ticks + 1)
  unfolding count_tick
  count_tick-Agrees s h room small =
      let whole : s.seconds ≤ s.seconds * s.frequency =
        le-mul_of_pos_right s.seconds (omega (arith, h.below)) in
      let next : u32 (s.tick_divider + 1) ≡ s.tick_divider + 1 = omega (arith, h.below) in
      elim (Bool-cases (s.frequency == s.tick_divider + 1)) [
        | inl full ↦
            rw (next, full)
              (
                record {
                  total = ground (arith, h.total, whole, add-mul s.seconds 1 s.frequency);
                  below = omega (arith, h.below);
                },
                omega arith,
              )
        | inr part ↦
            (let ne = ==→ne s.frequency (s.tick_divider + 1) part in
              rw (next, part)
                (
                  record { total = omega (arith, h.total); below = omega (arith, h.below) },
                  omega arith,
                ))
      ]

  count_tick_keeps :
      (s : Clock Callback)
      → ((count_tick call s).frequency ≡ s.frequency) × ((count_tick call s).timers ≡ s.timers)
  unfolding count_tick
  count_tick_keeps s = elim (Bool-cases (s.frequency == (s.tick_divider + 1) % 2 ^ 32)) [
    | inl full ↦ rw full (refl, refl)
    | inr part ↦ rw part (refl, refl)
  ]

  -- Behind the count of the tick the handler leaves the counters, and the timers armed.
  generic_timer_handler_keeps :
      (s : Clock Callback)
      → Armed 0 10 s.timers
      → SameTicks (generic_timer_handler call s) (count_tick call s)
        × Armed 0 10 (generic_timer_handler call s).timers
  unfolding generic_timer_handler
  generic_timer_handler_keeps s armed =
      let s1 = count_tick call s in
      let s2 = call_back call s1.user_callback s1 in
      let armed1 = subst (λ t. Armed 0 10 t) (sym (count_tick_keeps s).1) armed in
      let (kept, armed2) =
        timers_loop_keeps 10 0 s2.ticks s2 (omega arith)
          (call_back-Armed s1.user_callback s1 armed1) in
      (
        then_same (timers_loop call 10 0 s2.ticks s2) s2 s1 kept
            (call_back-SameTicks s1.user_callback s1),
        armed2,
      )

  pub generic_timer_handler-Armed :
      (s : Clock Callback) → Armed 0 10 s.timers → Armed 0 10 (generic_timer_handler call s).timers
  generic_timer_handler-Armed s armed = (generic_timer_handler_keeps s armed).1

  pub generic_timer_handler-frequency :
      (s : Clock Callback)
      → Armed 0 10 s.timers
      → (generic_timer_handler call s).frequency ≡ s.frequency
  generic_timer_handler-frequency s armed =
      (generic_timer_handler_keeps s armed).0.frequency ∙ (count_tick_keeps s).0

  -- Where each of the ten timers that is active has a callback, and no callback writes the counters
  -- or starts a timer without one, a tick of the clock counts one tick and keeps the counters in
  -- agreement: the seconds are the ticks divided by the frequency. This holds as long as the ticks
  -- fit in 64 bits, which at 1000 Hz is for 500 million years.
  pub generic_timer_handler_lem :
      (s : Clock Callback)
      → Agrees s
      → Armed 0 10 s.timers
      → s.ticks + 1 < 2 ^ 64
      → s.frequency < 2 ^ 32
      → Agrees (generic_timer_handler call s) × ((generic_timer_handler call s).ticks ≡ s.ticks + 1)
  generic_timer_handler_lem s h armed room small =
      let counted = count_tick-Agrees s h room small in
      let t = (generic_timer_handler_keeps s armed).0 in
      (
        record {
          total = rw (t.ticks, t.seconds, t.frequency, t.tick_divider) counted.0.total;
          below = rw (t.frequency, t.tick_divider) counted.0.below;
        },
        t.ticks ∙ counted.1,
      )

-- The reads of the ticks that a wait makes never go back.
pub Advances : (ℕ → ℕ) → Type 0
Advances read = (n : ℕ) → read n ≤ read (n + 1)

sleep_loop_lem :
    (fuel n stop k : ℕ) (read : ℕ → ℕ)
    → n ≤ k
    → k < n + fuel
    → stop ≤ read k
    → (m : ℕ) × (sleep_loop fuel read stop n ≡ some m)
      × (stop ≤ read m)
      × ((j : ℕ) → n ≤ j → j < m → read j < stop)
unfolding sleep_loop
sleep_loop_lem zero n stop k read le lt late = absurd (omega arith)
sleep_loop_lem (suc fuel) n stop k read le lt late = elim (Bool-cases (ltb (read n) stop)) [
  | inr over ↦ rw over (n, refl, ground arith, λ j p q. absurd (omega arith))
  | inl early ↦
      (let ne : ¬ (n ≡ k) = λ e. ground (arith, ap read e) in
        let (m, found, enough, wait) =
          sleep_loop_lem fuel (n + 1) stop k read (omega arith) (omega arith) late in
        rw early (
          m,
          found,
          enough,
          λ j p q. elim (Bool-cases (j == n)) [
            | inl at_n ↦ rw (==→eq j n at_n) (ground arith)
            | inr above ↦ (let other : ¬ (j ≡ n) = ==→ne j n above in wait j (omega arith) q)
          ],
        ))
]

-- If some later read finds the ticks `ms` further, `clock_sleep_ms` ends, at the first read
-- that does; the ticks stay below 2 ^ 64.
pub clock_sleep_ms_lem :
    (fuel ms k : ℕ) (read : ℕ → ℕ)
    → read 0 + ms < 2 ^ 64
    → 1 ≤ k
    → k ≤ fuel
    → read 0 + ms ≤ read k
    → (m : ℕ) × (clock_sleep_ms fuel read ms ≡ some m)
      × (read 0 + ms ≤ read m)
      × ((j : ℕ) → 1 ≤ j → j < m → read j < read 0 + ms)
unfolding clock_sleep_ms
clock_sleep_ms_lem fuel ms k read room one le late =
    let e : u64 (read 0 + ms) ≡ read 0 + ms = omega arith in
    rw e (sleep_loop_lem fuel 1 (read 0 + ms) k read one (omega arith) late)

-- `clock_sleep_s` of 4294968 seconds or more waits for fewer milliseconds than it was asked for:
-- it is the wait for the low 32 bits of `s * 1000`.
pub clock_sleep_s_wraps :
    (fuel s : ℕ) (read : ℕ → ℕ)
    → 4294968 ≤ s
    → s < 2 ^ 32
    → (ms : ℕ) × (clock_sleep_s fuel read s ≡ clock_sleep_ms fuel read ms) × (ms < s * 1000)
unfolding clock_sleep_s
clock_sleep_s_wraps fuel s read long fits = (u32 (s * 1000), refl, omega arith)
