-- ===== src/Tests/TimeTests.antt =====
-- klib/time.c and its theorems at small tables of timers.
use jinx_os.Base.{
  ℕ, ◌+◌, ◌≡◌, refl, Bool, true, false, none, some, [], ◌∷◌, arith, set, replicate, ok,
}
use jinx_os.Kernel.{wrap, kmalloc_ok}
use jinx_os.Time.{
  Time, Timer, Timers, ntimers, msec2time, time2msec, free_timer, timer_start, timer_lap,
  timer_stop,
}
use jinx_os.Time.Timing.{timer_measures}
use jinx_os.Tests.ArrayTests.{always}

abbrev never : ℕ → Bool
never size = false

abbrev idle : Timer
idle = record { start_ticks = 5; stop_ticks = 7; active = false }

-- The second slot is empty.
abbrev table : Timers
table = some idle ∷ none ∷ some idle ∷ []

abbrev span : Time
span = record { msec = 4; sec = 3; min = 2; hr = 1 }

span-value : msec2time 3723004 ≡ span
unfolding msec2time
span-value = refl

-- The counter wraps between the start and the stop.
timer_measures_example :
    (started : Timers) × (timer_start table 4294967290 0 ≡ ok started)
    × (timer_lap started (wrap (4294967290 + 10)) 0 ≡ ok (msec2time 10))
    × (timer_stop started (wrap (4294967290 + 10)) 0
        ≡ ok (
          msec2time 10,
          set table 0 (
              some (record {
                start_ticks = 4294967290;
                stop_ticks = wrap (4294967290 + 10);
                active = false;
              })),
        ))
    × (time2msec (msec2time 10) ≡ 10)
timer_measures_example =
    timer_measures table 0 idle 4294967290 10 refl refl (omega arith) (omega arith)

given : kmalloc_ok always 12 ≡ true
unfolding kmalloc_ok
given = refl

abbrev full_table : Timers
full_table = replicate ntimers (some idle)

refused : kmalloc_ok never 12 ≡ false
unfolding kmalloc_ok
refused = refl

first : free_timer table 0 ≡ some 1
unfolding free_timer
first = refl
