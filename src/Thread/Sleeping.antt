-- ===== src/Thread/Sleeping.antt =====
-- thread/thread.c: the current thread goes to sleep where no other can run.
use jinx_os.Base.{ℕ, ◌≡◌, some, List, [], ◌∷◌, get_elem?, Run, ◌>>=◌}
use jinx_os.Spinlock.{Spinlock, spinlock_acquire}
use jinx_os.Spinlock.Pairs.{free_lock, inside}
use jinx_os.Thread.{s_sleep, Thread, Scheduler}
use jinx_os.Thread.Switching.{thread_switch}
use jinx_os.Thread.Moves.{CanSwitch}

-- wchan_sleep by a thread that has just taken the channel's spinlock, as P and lock_acquire take it: up
-- to where another thread runs.
unfoldable pub sleep_on : Scheduler → ℕ → Run (Scheduler × Spinlock)
sleep_on s wc = do
  (m, lk) ← spinlock_acquire s.machine free_lock (0 ∷ [])
  thread_switch (record s { machine = m }) s_sleep wc lk

module _ (s : Scheduler) (v : CanSwitch s) (wc : ℕ) (sleepers : List ℕ)
    (channel : get_elem? s.wchans wc ≡ some sleepers) where
  -- With the channel's spinlock held.
  abbrev holding : Scheduler
  holding = record s { machine = inside s.machine }
