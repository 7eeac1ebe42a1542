-- ===== src/Thread/Waking.antt =====
-- thread/thread.c: thread_make_runnable where the run queue's lock is free.
use jinx_os.Base.{ℕ, ◌≡◌, not, false, refl, ap, some, [], ◌∷◌, ◌++◌, arith, ◌==◌, ok}
use jinx_os.Spinlock.{Machine, cli, ifx}
use jinx_os.Spinlock.Pairs.{free_lock, inside, outside, IsUp, acquire_free, spinlock_release_lem}
use jinx_os.Thread.{
  s_ready, Thread, Scheduler, cpu_started, cpu_idle, put, set_state, add_tail, enqueue,
  thread_make_runnable,
}
use jinx_os.Thread.Tables.{put_self, put-put}
use jinx_os.Thread.Resuming.{stands}

-- The processor after thread_make_runnable.
abbrev pub around : Machine → Machine
around m = ifx (outside (inside (record m { interrupts = false }))) m.interrupts

pub make_runnable_free :
    (s : Scheduler) (t : ℕ) (c : Thread)
    → IsUp s.machine
    → s.active_threads_lock ≡ free_lock
    → s.status ≡ cpu_started
    → s.threads t ≡ some c
    → c.listed ≡ false
    → thread_make_runnable s t false
      ≡ ok (record s {
        machine = around s.machine;
        active_threads = s.active_threads ++ t ∷ [];
        active_threads_lock = free_lock;
        threads = put s.threads t (some (stands c s_ready));
      })
unfolding thread_make_runnable set_state add_tail enqueue cli
make_runnable_free s t c up free started at unlisted =
    let m = record s.machine { interrupts = false } in
    rw
      (
        at,
        free,
        acquire_free m (record { real = up.real; counted = up.counted }),
        put_self s.threads t (some (record c { state = s_ready })),
        ap not unlisted,
        ap (λ y. not (y == cpu_idle)) started,
        spinlock_release_lem (inside m) up.real (omega arith) up.counted,
        put-put,
      )
      refl
