-- ===== src/Time/Timing.antt =====
-- klib/time.c: the table of timers. A timer measures the ticks between a start and a stop.
use jinx_os.Base.{
  ℕ, suc, ◌+◌, ◌^◌, ◌<◌, ◌≡◌, inl, inr, refl, ap, true, false, some, List, [], ◌∷◌, arith,
  if◌then◌else◌, get_elem?, set, length, get_elem?-set_self, ok, panic, Bool-cases, zero,
}
use jinx_os.Kernel.{wrap}
use jinx_os.Time.{
  Timer, Timers, msec2time, time2msec, timer_at, timer_start, timer_lap, timer_stop, timer_resume,
  timer_delete, elapsed,
}
use jinx_os.Time.Spans.{time2msec-msec2time}

-- The slot `timer_id` holds the timer `t`.
abbrev pub Holds : Timers → ℕ → Timer → Type 0
Holds timers timer_id t = get_elem? timers timer_id ≡ some (some t)

pub timer_at_lem :
    (timers : Timers) (i : ℕ) (t : Timer) → Holds timers i t → timer_at timers i ≡ ok t
unfolding timer_at
timer_at_lem timers i t h = rw h refl

pub get_elem?-lt {ℓ} :
    {A : Type ℓ} (xs : List A) (i : ℕ) (a : A) → get_elem? xs i ≡ some a → i < length xs
get_elem?-lt [] i a h = cc
get_elem?-lt (x ∷ xs) zero a h = omega arith
get_elem?-lt (x ∷ xs) (suc i) a h = omega (arith, get_elem?-lt xs i a h)

-- A write to a slot in use.
Holds-set :
    (timers : Timers) (i : ℕ) (t u : Timer) → Holds timers i t → Holds (set timers i (some u)) i u
Holds-set timers i t u h = get_elem?-set_self timers i (some u) (get_elem?-lt timers i (some t) h)

set-set {ℓ} : {A : Type ℓ} (xs : List A) (i : ℕ) (a b : A) → set (set xs i a) i b ≡ set xs i b
set-set [] i a b = refl
set-set (x ∷ xs) zero a b = refl
set-set (x ∷ xs) (suc i) a b = ap (◌∷◌ x) (set-set xs i a b)

-- A timer that is idle, is started and is stopped `d` < 2 ^ 32 ticks later reports `d`
-- milliseconds, also where the tick counter wraps around in between; a lap before the stop reports
-- the same.
pub timer_measures :
    (timers : Timers) (i : ℕ) (t : Timer) (now d : ℕ)
    → Holds timers i t
    → t.active ≡ false
    → now < 2 ^ 32
    → d < 2 ^ 32
    → (started : Timers) × (timer_start timers now i ≡ ok started)
      × (timer_lap started (wrap (now + d)) i ≡ ok (msec2time d))
      × (timer_stop started (wrap (now + d)) i
          ≡ ok (
            msec2time d,
            set timers i
                (some (record { start_ticks = now; stop_ticks = wrap (now + d); active = false })),
          ))
      × (time2msec (msec2time d) ≡ d)
unfolding timer_start timer_lap timer_stop
timer_measures timers i t now d h idle hn hd =
    let running : Timer = record t { active = true; start_ticks = now } in
    let started = set timers i (some running) in
    let at = timer_at_lem started i running (Holds-set timers i t running h) in
    let gone : elapsed (wrap (now + d)) now ≡ d = omega arith in
    (
      started,
      rw (timer_at_lem timers i t h, idle) refl,
      rw (at, gone) refl,
      rw (at, gone, set-set timers i (some running)) refl,
      time2msec-msec2time d hd,
    )

-- For a slot with a timer: starting, resuming or deleting it while it runs stops the kernel, and so
-- does a lap or a stop while it is idle.
pub timer_wrong_state :
    (timers : Timers) (i : ℕ) (t : Timer) (now : ℕ)
    → Holds timers i t
    → (if t.active
        then (timer_start timers now i ≡ panic)
          × (timer_resume timers i ≡ panic)
          × (timer_delete timers i ≡ panic)
        else (timer_lap timers now i ≡ panic) × (timer_stop timers now i ≡ panic))
unfolding timer_start timer_lap timer_stop timer_resume timer_delete
timer_wrong_state timers i t now h = elim (Bool-cases t.active) [
  | inl e ↦ rw (timer_at_lem timers i t h, e) (refl, refl, refl)
  | inr e ↦ rw (timer_at_lem timers i t h, e) (refl, refl)
]
