-- ===== src/Clock/Timers.antt =====
-- The ten timers of clock.cpp.
use os_from_scratch.Common.{
  ℕ, zero, suc, ◌+◌, ◌%◌, ◌^◌, ◌≤◌, ◌<◌, ◌≡◌, ◌⊎◌, refl, ap, ◌∙◌, arith, Bool, true, false, ◌&&◌,
  Option, none, some, ltb, leb, ◌==◌, if◌then◌else◌, Bool-cases, inl, inr, ==→eq, ==→ne, ◌≢◌, subst,
  sym, fun_ext,
}
use os_from_scratch.Common.Word.{u64, store_self, store_ne}
use os_from_scratch.Clock.{
  Clock, TimerEvent, call_back, count_tick, run_timer, timers_loop, generic_timer_handler,
  find_timer, clock_create_timer,
}

-- A callback leaves the ticks and the timers as they are. Of a call of NULL nothing is asked.
pub record LeavesTimers {Callback : Type 0}
    (call : Option Callback → Clock Callback → Clock Callback) : Type 0 where
  pub ticks : (f : Callback) (s : Clock Callback) → (call (some f) s).ticks ≡ s.ticks
  pub timers : (f : Callback) (s : Clock Callback) → (call (some f) s).timers ≡ s.timers

-- Each of the timers from `i` up to `n` that is active has a callback.
unfoldable pub Armed : {Callback : Type 0} → ℕ → ℕ → (ℕ → TimerEvent Callback) → Type 0
Armed {Callback} i n timers =
    (j : ℕ)
    → i ≤ j
    → j < n
    → (timers j).active ≡ true
    → (f : Callback) × ((timers j).callback ≡ some f)

-- The timer fires at `now`.
abbrev pub is_due : {Callback : Type 0} → ℕ → TimerEvent Callback → Bool
is_due now timer = timer.active && leb timer.delay now

abbrev pub fired : {Callback : Type 0} → Bool → TimerEvent Callback → TimerEvent Callback
fired due timer = if due then record timer { active = false } else timer

module _ {Callback : Type 0} (call : Option Callback → Clock Callback → Clock Callback)
    (leaves : LeavesTimers call) where
  call_back-timers :
      (f : Option Callback) (s : Clock Callback) → (call_back call f s).timers ≡ s.timers
  call_back-timers none s = refl
  call_back-timers (some f) s = leaves.timers f s

  call_back-ticks :
      (f : Option Callback) (s : Clock Callback) → (call_back call f s).ticks ≡ s.ticks
  call_back-ticks none s = refl
  call_back-ticks (some f) s = leaves.ticks f s

  -- A timer that is due has a callback, and its call leaves the timers.
  called_timers :
      (now i n : ℕ) (s t : Clock Callback)
      → i < n
      → Armed i n s.timers
      → is_due now (s.timers i) ≡ true
      → (call (s.timers i).callback t).timers ≡ t.timers
  unfolding Armed
  called_timers now i n s t lt armed due =
      let (f, e) = armed i (omega arith) lt (ground (arith, due)) in rw e (leaves.timers f t)

  run_timer_self :
      (now i n : ℕ) (s : Clock Callback)
      → i < n
      → Armed i n s.timers
      → (run_timer call now i s).timers i ≡ fired (is_due now (s.timers i)) (s.timers i)
  unfolding run_timer
  run_timer_self now i n s lt armed = elim (Bool-cases (is_due now (s.timers i))) [
    | inr waiting ↦ rw waiting refl
    | inl due ↦ rw due (
        ap (λ t. t i) (called_timers now i n s _ lt armed due)
        ∙ store_self s.timers i (record (s.timers i) { active = false }))
  ]

  run_timer_other :
      (now i n j : ℕ) (s : Clock Callback)
      → i < n
      → Armed i n s.timers
      → j ≢ i
      → (run_timer call now i s).timers j ≡ s.timers j
  unfolding run_timer
  run_timer_other now i n j s lt armed ne = elim (Bool-cases (is_due now (s.timers i))) [
    | inr waiting ↦ rw waiting refl
    | inl due ↦ rw due (
        ap (λ t. t j) (called_timers now i n s _ lt armed due)
        ∙ store_ne s.timers i (record (s.timers i) { active = false }) j ne)
  ]

  run_timer-Armed :
      (now i n : ℕ) (s : Clock Callback)
      → i < n
      → Armed i n s.timers
      → Armed (i + 1) n (run_timer call now i s).timers
  unfolding Armed
  run_timer-Armed now i n s lt armed = λ j le hi on.
      let same = run_timer_other now i n j s lt armed (omega arith) in
      let (f, e) = armed j (omega arith) hi (ap (λ t. t.active) (sym same) ∙ on) in
      (f, ap (λ t. t.callback) same ∙ e)

  timers_loop-timers :
      (left i now j : ℕ) (s : Clock Callback)
      → Armed i (i + left) s.timers
      → (timers_loop call left i now s).timers j ≡ (
          if leb i j && ltb j (i + left)
          then fired (is_due now (s.timers j)) (s.timers j)
          else s.timers j)
  unfolding timers_loop
  timers_loop-timers zero i now j s armed =
      let out : (leb i j && ltb j (i + 0)) ≡ false = ground arith in rw out refl
  timers_loop-timers (suc left) i now j s armed =
      let same_end : i + suc left ≡ i + 1 + left = omega arith in
      let next = run_timer-Armed now i (i + suc left) s (omega arith) armed in
      let rest =
        timers_loop-timers left (i + 1) now j (run_timer call now i s)
          (subst (λ (n : ℕ). Armed (i + 1) n (run_timer call now i s).timers) same_end next) in
      elim (Bool-cases (j == i)) [
        | inl here ↦
            (let past : (leb (i + 1) j && ltb j (i + 1 + left)) ≡ false = ground arith in
              let in_range : (leb i j && ltb j (i + suc left)) ≡ true = ground arith in
              rw in_range (
                rest
                ∙ rw past (
                    rw (==→eq j i here)
                      (run_timer_self now i (i + suc left) s (omega arith) armed))))
        | inr other ↦
            (let ne = ==→ne j i other in
              let same_range : (leb (i + 1) j && ltb j (i + 1 + left))
                  ≡ (leb i j && ltb j (i + suc left)) =
                ground arith in
              let unchanged : (run_timer call now i s).timers j ≡ s.timers j =
                run_timer_other now i (i + suc left) j s (omega arith) armed ne in
              rw⁻¹ same_range (rest ∙ rw unchanged refl))
      ]

  count_tick-ticks : (s : Clock Callback) → (count_tick call s).ticks ≡ u64 (s.ticks + 1)
  unfolding count_tick
  count_tick-ticks s = elim (Bool-cases (s.frequency == (s.tick_divider + 1) % 2 ^ 32)) [
    | inl full ↦ rw full refl
    | inr part ↦ rw part refl
  ]

  count_tick-timers : (s : Clock Callback) (j : ℕ) → (count_tick call s).timers j ≡ s.timers j
  unfolding count_tick
  count_tick-timers s j = elim (Bool-cases (s.frequency == (s.tick_divider + 1) % 2 ^ 32)) [
    | inl full ↦ rw full refl
    | inr part ↦ rw part refl
  ]

  timers_loop-at :
      (s : Clock Callback) (j now : ℕ) (timer : TimerEvent Callback)
      → s.ticks ≡ now
      → s.timers j ≡ timer
      → Armed 0 10 s.timers
      → (timers_loop call 10 0 s.ticks s).timers j
        ≡ (if ltb j 10 then fired (is_due now timer) timer else timer)
  timers_loop-at s j now timer at_now at_timer armed =
      let range : (leb 0 j && ltb j (0 + 10)) ≡ ltb j 10 = ground arith in
      timers_loop-timers 10 0 s.ticks j s armed ∙ rw (range, at_now, at_timer) refl

  -- Where the callbacks leave the ticks and the timers alone, and each of the ten timers that is
  -- active has a callback, a tick turns off each of the ten timers that is active and due at the new
  -- time, and changes no other timer.
  pub generic_timer_handler-timers :
      (s : Clock Callback) (j : ℕ)
      → Armed 0 10 s.timers
      → (generic_timer_handler call s).timers j ≡ (
          if ltb j 10
          then fired (is_due (u64 (s.ticks + 1)) (s.timers j)) (s.timers j)
          else s.timers j)
  unfolding generic_timer_handler
  generic_timer_handler-timers s j armed =
      let s1 = count_tick call s in
      let s2 = call_back call s1.user_callback s1 in
      let now : s2.ticks ≡ u64 (s.ticks + 1) =
        call_back-ticks s1.user_callback s1 ∙ count_tick-ticks s in
      let before : s2.timers j ≡ s.timers j =
        ap (λ t. t j) (call_back-timers s1.user_callback s1) ∙ count_tick-timers s j in
      let all_before : s2.timers ≡ s.timers =
        call_back-timers s1.user_callback s1 ∙ fun_ext (λ k. count_tick-timers s k) in
      timers_loop-at s2 j (u64 (s.ticks + 1)) (s.timers j) now before
        (subst (λ t. Armed 0 10 t) (sym all_before) armed)

on_from :
    {Callback : Type 0} (timers : ℕ → TimerEvent Callback) (i j n : ℕ)
    → (timers i).active ≡ true
    → ((k : ℕ) → i + 1 ≤ k → k < n → (timers k).active ≡ true)
    → i ≤ j
    → j < n
    → (timers j).active ≡ true
on_from timers i j n on rest p q = elim (Bool-cases (j == i)) [
  | inl here ↦ rw (==→eq j i here) on
  | inr other ↦ (let ne = ==→ne j i other in rest j (omega arith) q)
]

find_timer_lem :
    {Callback : Type 0} (timers : ℕ → TimerEvent Callback) (left i : ℕ)
    → ((n : ℕ) × (find_timer timers left i ≡ some n)
        × (i ≤ n)
        × (n < i + left)
        × ((timers n).active ≡ false)
        × ((j : ℕ) → i ≤ j → j < n → (timers j).active ≡ true))
      ⊎ ((find_timer timers left i ≡ none)
          × ((j : ℕ) → i ≤ j → j < i + left → (timers j).active ≡ true))
unfolding find_timer
find_timer_lem timers zero i = inr (refl, λ j p q. absurd (omega arith))
find_timer_lem timers (suc left) i = elim (Bool-cases (timers i).active) [
  | inr off ↦ rw off (inl (i, refl, omega arith, omega arith, off, λ j p q. absurd (omega arith)))
  | inl on ↦ elim (find_timer_lem timers left (i + 1)) [
    | inl (n, found, lo, hi, off, before) ↦
        rw on (
          inl
            (n, found, omega arith, omega arith, off, λ j p q. on_from timers i j n on before p q))
    | inr (none_found, all) ↦ rw on (
        inr (
          none_found,
          λ j p q. on_from timers i j (i + suc left) on (λ k a b. all k a (omega arith)) p q,
        ))
  ]
]

-- `clock_create_timer` takes the first of the ten timers that is inactive, starts it for `ms`
-- ticks from now and changes no other timer; it answers -1 and changes nothing when all ten are
-- active.
pub clock_create_timer_lem :
    {Callback : Type 0} (ms : ℕ) (callback : Option Callback) (s : Clock Callback)
    → ((n : ℕ) × ((clock_create_timer ms callback s).0 ≡ some n)
        × (n < 10)
        × ((s.timers n).active ≡ false)
        × ((j : ℕ) → j < n → (s.timers j).active ≡ true)
        × ((clock_create_timer ms callback s).1.timers n
            ≡ record { delay = u64 (s.ticks + ms); active = true; callback = callback })
        × ((j : ℕ) → j ≢ n → (clock_create_timer ms callback s).1.timers j ≡ s.timers j))
      ⊎ ((clock_create_timer ms callback s ≡ (none, s))
          × ((j : ℕ) → j < 10 → (s.timers j).active ≡ true))
unfolding clock_create_timer
clock_create_timer_lem ms callback s = elim (find_timer_lem s.timers 10 0) [
  | inl (n, found, lo, hi, off, before) ↦
      rw (clock_create_timer, found)
        (inl (
          n,
          refl,
          hi,
          off,
          λ j lt. before j (omega arith) lt,
          store_self s.timers n _,
          λ j ne. store_ne s.timers n _ j ne,
        ))
  | inr (none_found, all) ↦
      rw (clock_create_timer, none_found) (inr (refl, λ j lt. all j (omega arith) lt))
]
