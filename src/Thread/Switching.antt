-- ===== src/Thread/Switching.antt =====
-- thread/thread.c: switching to the next thread of the run queue, and what calls it.
use jinx_os.Base.{
  ℕ, true, not, none, some, ◌==◌, if◌then◌else◌, length, get_elem?, set, [], ◌∷◌, Run, ok, panic,
  fault, ◌>>=◌, ◌>>◌, check, deref,
}
use jinx_os.Kernel.{null}
use jinx_os.Spinlock.{Spinlock, spinlock_init, spinlock_acquire, spinlock_release}
use jinx_os.Thread.{
  ThreadState, s_run, s_ready, s_sleep, s_zombie, is_sleep, Thread, Scheduler, cpu_started,
  cpu_idle, put, add_tail, rem_head, set_state, thread_checkstack, thread_exorcise,
  thread_make_runnable,
}

-- thread_switch from its do loop on, up to switchframe_switch, which loads the context of the thread
-- that is `thread` now. cpu_idle of cpu/cpu.c stops the kernel.
unfoldable pub run_next : Scheduler → Run Scheduler
run_next s = do
  (next, active, ts) ← rem_head s.threads s.active_threads
  elim next [
    | none ↦ do (m, lk) ← spinlock_release s.machine s.active_threads_lock; panic
    | some t ↦ do
      th ← deref (ts t)
      if th.proc == null then fault else ok tt
      (m, lk) ← spinlock_release s.machine s.active_threads_lock
      ok (record s {
        machine = m;
        status = cpu_started;
        thread = t;
        active_threads = active;
        active_threads_lock = lk;
        threads = put ts t (some (record th { state = s_run }));
      })
  ]

-- thread_switch behind its switch statement.
unfoldable pub switch_away : Scheduler → ThreadState → Run Scheduler
switch_away s newstate = do
  ts ← set_state s.threads s.thread newstate
  run_next (record s { status = cpu_idle; threads = ts })

-- The cases of the switch statement and what follows, under the run queue's lock. `wc` and `lk`
-- matter to S_SLEEP only, where `lk` is released.
unfoldable pub switch_case : Scheduler → ThreadState → ℕ → Spinlock → Run (Scheduler × Spinlock)
switch_case s s_run wc lk = panic
switch_case s s_ready wc lk =
    if length s.active_threads == 0
    then (do
      (m, free) ← spinlock_release s.machine s.active_threads_lock
      ok (record s { machine = m; active_threads_lock = free }, lk))
    else (do
      queued ← thread_make_runnable s s.thread true
      next ← switch_away queued s_ready
      ok (next, lk))
switch_case s s_sleep wc lk = do
  sleepers ← deref (get_elem? s.wchans wc)
  (joined, ts) ← add_tail s.threads sleepers s.thread
  (m, free) ← spinlock_release s.machine lk
  next ←
      switch_away (record s { machine = m; wchans = set s.wchans wc joined; threads = ts }) s_sleep
  ok (next, free)
switch_case s s_zombie wc lk = do
  (zombies, ts) ← add_tail s.threads s.zombie_threads s.thread
  next ← switch_away (record s { zombie_threads = zombies; threads = ts }) s_zombie
  ok (next, lk)

-- thread_switch from thread_checkstack on.
unfoldable pub switch_locked : Scheduler → ThreadState → ℕ → Spinlock → Run (Scheduler × Spinlock)
switch_locked s newstate wc lk = do
  th ← deref (s.threads s.thread)
  checked ← thread_checkstack s th
  (m, held) ← spinlock_acquire s.machine s.active_threads_lock (0 ∷ [])
  switch_case
      (record s {
        machine = m;
        active_threads_lock = held;
        threads = put s.threads s.thread (some checked);
      })
      newstate wc lk

unfoldable pub thread_switch : Scheduler → ThreadState → ℕ → Spinlock → Run (Scheduler × Spinlock)
thread_switch s newstate wc lk = do
  check (not s.machine.interrupts)
  clear ← (if is_sleep newstate then ok s else thread_exorcise s)
  if clear.status == cpu_idle then ok (clear, lk) else switch_locked clear newstate wc lk

unfoldable pub thread_schedule : Scheduler → Run Scheduler
thread_schedule s = do
  check (not s.machine.interrupts)
  (next, lk) ← thread_switch s s_ready null spinlock_init
  ok next

-- The current thread leaves its process, as proc_remthread of proc/proc.c does it.
unfoldable pub leave_process : Thread → Run Thread
leave_process th = do check (not (th.proc == null)); ok (record th { proc = null })

-- thread_exit behind its branch for a thread that has a parent.
unfoldable pub thread_exit_rest : Scheduler → Run Scheduler
thread_exit_rest s = do
  th ← deref (s.threads s.thread)
  left ← leave_process th
  checked ← thread_checkstack s left
  check (not (s.status == cpu_idle))
  (next, lk) ←
      thread_switch (record s { threads = put s.threads s.thread (some checked) }) s_zombie null
        spinlock_init
  ok next
