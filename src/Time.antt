-- ===== src/Time.antt =====
-- klib/time.c: a span of time in parts, and the table of timers. `ticks` is what pit_ticks returns,
-- and `granted` says which sizes kmalloc serves.
pub mod Spans
pub mod Timing
pub mod Creation
use jinx_os.Base.{
  ℕ, zero, suc, ◌+◌, ◌-◌, ◌*◌, ◌/◌, ◌%◌, ◌^◌, Bool, true, false, not, Option, none, some, List, ltb,
  ◌==◌, if◌then◌else◌, get_elem?, set, [], ◌∷◌, Run, ok, panic, ◌>>=◌, ◌>>◌, check, deref,
}
use jinx_os.Kernel.{wrap, entimer, kmalloc_ok}

-- NTIMERS
abbrev pub ntimers : ℕ
ntimers = 128

-- struct time
pub record Time : Type 0 where
  pub msec : ℕ
  pub sec : ℕ
  pub min : ℕ
  pub hr : ℕ

-- struct timer, and the pointers to them.
pub record Timer : Type 0 where
  pub start_ticks : ℕ
  pub stop_ticks : ℕ
  pub active : Bool

abbrev pub Timers : Type 0
Timers = List (Option Timer)

unfoldable pub msec2time : ℕ → Time
msec2time msec =
    let secs = msec / 1000 in
    let mins = secs / 60 in
    let hrs = mins / 60 in
    if secs == 0
    then record { msec = msec % 1000; sec = 0; min = 0; hr = 0 }
    else if mins == 0
    then record { msec = msec % 1000; sec = secs % 60; min = 0; hr = 0 }
    else if hrs == 0
    then record { msec = msec % 1000; sec = secs % 60; min = mins % 60; hr = 0 }
    else record { msec = msec % 1000; sec = secs % 60; min = mins % 60; hr = hrs }

-- The whole computation is modulo 2 ^ 32.
unfoldable pub time2msec : Time → ℕ
time2msec t = wrap (((t.hr * 60 + t.min) * 60 + t.sec) * 1000 + t.msec)

unfoldable pub time_diff : Time → Time → Time
time_diff start stop =
    let ms_start = time2msec start in
    let ms_stop = time2msec stop in
    if ltb ms_start ms_stop
    then msec2time (wrap (ms_stop + 2 ^ 32 - ms_start))
    else msec2time (wrap (ms_start + 2 ^ 32 - ms_stop))

-- The first slot from `timer_id` on that holds no timer.
unfoldable pub free_timer : Timers → ℕ → Option ℕ
free_timer [] timer_id = none
free_timer (none ∷ rest) timer_id = some timer_id
free_timer (some t ∷ rest) timer_id = free_timer rest (timer_id + 1)

-- timer_create: the number that is returned, and the table. The block of a new timer is zeroed.
unfoldable pub timer_create : (ℕ → Bool) → Timers → ℕ × Timers
timer_create granted timers = elim (free_timer timers 0) [
  | none ↦ (entimer, timers)
  | some timer_id ↦ (
    timer_id,
    if kmalloc_ok granted 12
        then set timers timer_id (some (record { start_ticks = 0; stop_ticks = 0; active = false }))
        else timers,
  )
]

-- `timers[timer_id]`: outside the table the access is undefined, and no timer there fails the
-- assertion.
unfoldable pub timer_at : Timers → ℕ → Run Timer
timer_at timers timer_id = do
  slot ← deref (get_elem? timers timer_id)
  elim slot [ none ↦ panic | some t ↦ ok t ]

unfoldable pub timer_start : Timers → ℕ → ℕ → Run Timers
timer_start timers ticks timer_id = do
  t ← timer_at timers timer_id
  check (not t.active)
  ok (set timers timer_id (some (record t { active = true; start_ticks = ticks })))

-- `a - b` in 32 bits.
abbrev pub elapsed : ℕ → ℕ → ℕ
elapsed a b = wrap (a + 2 ^ 32 - b)

unfoldable pub timer_lap : Timers → ℕ → ℕ → Run Time
timer_lap timers ticks timer_id = do
  t ← timer_at timers timer_id
  check t.active
  ok (msec2time (elapsed ticks t.start_ticks))

unfoldable pub timer_stop : Timers → ℕ → ℕ → Run (Time × Timers)
timer_stop timers ticks timer_id = do
  t ← timer_at timers timer_id
  check t.active
  ok (
    msec2time (elapsed ticks t.start_ticks),
    set timers timer_id (some (record t { stop_ticks = ticks; active = false })),
  )

unfoldable pub timer_resume : Timers → ℕ → Run Timers
timer_resume timers timer_id = do
  t ← timer_at timers timer_id
  check (not t.active)
  ok (set timers timer_id (some (record t { active = true })))

unfoldable pub timer_reset : Timers → ℕ → Run Timers
timer_reset timers timer_id = do
  t ← timer_at timers timer_id
  ok (set timers timer_id (some (record { start_ticks = 0; stop_ticks = 0; active = false })))

unfoldable pub timer_delete : Timers → ℕ → Run Timers
timer_delete timers timer_id = do
  t ← timer_at timers timer_id
  check (not t.active)
  ok (set timers timer_id none)
