-- ===== src/WaitChannel.antt =====
-- synch/wchan.c: wait channels. A channel is the list of the threads that sleep on it, first to
-- last, which is what the thread lists of thread/threadlist.c stand for; `runnable` is the run queue
-- that thread_make_runnable appends to.
pub mod Waking
use jinx_os.Base.{
  ℕ, Bool, true, false, not, Option, none, some, List, [], ◌∷◌, ◌++◌, ◌==◌, if◌then◌else◌, Run, ok,
  ◌>>=◌, ◌>>◌, check,
}
use jinx_os.Spinlock.{Machine, Spinlock, spinlock_held, spinlock_release}

-- The run queue's spinlock, taken and released with interrupts off, as thread_switch and
-- thread_make_runnable do: it writes over `iflag`, and leaves all else as it was.
unfoldable pub run_queue_round : Machine → Machine
run_queue_round m = record m { iflag = false }

-- wchan_sleep, up to the point where another thread runs: thread_switch takes the run queue's spinlock,
-- queues the thread and releases `lk`. The thread takes `lk` again when it is woken, in the callers
-- below.
unfoldable pub wchan_sleep :
    Machine → Spinlock → Bool → List ℕ → ℕ → Run (Machine × Spinlock × List ℕ)
wchan_sleep m lk in_interrupt threads t = do
  check (not in_interrupt)
  check (spinlock_held m lk)
  check (m.spinlocks == 1)
  (m', lk') ← spinlock_release (run_queue_round m) lk
  ok (m', lk', threads ++ t ∷ [])

-- wchan_wakeone: the processor, the channel and the run queue.
unfoldable pub wchan_wakeone :
    Machine → Spinlock → List ℕ → List ℕ → Run (Machine × List ℕ × List ℕ)
wchan_wakeone m lk threads runnable = do
  check (spinlock_held m lk)
  elim threads [
    | [] ↦ ok (m, [], runnable)
    | target ∷ rest ↦ ok (run_queue_round m, rest, runnable ++ target ∷ [])
  ]

-- The first loop of wchan_wakeall: the threads of one list, one by one, to the tail of another.
unfoldable pub move_threads : List ℕ → List ℕ → List ℕ
move_threads [] to = to
move_threads (target ∷ from) to = move_threads from (to ++ target ∷ [])

-- The second loop: thread_make_runnable of one thread after the other.
unfoldable pub wake_threads : Machine → List ℕ → List ℕ → Machine × List ℕ
wake_threads m [] runnable = (m, runnable)
wake_threads m (target ∷ list) runnable =
    wake_threads (run_queue_round m) list (runnable ++ target ∷ [])

unfoldable pub wchan_wakeall :
    Machine → Spinlock → List ℕ → List ℕ → Run (Machine × List ℕ × List ℕ)
wchan_wakeall m lk threads runnable = do
  check (spinlock_held m lk)
  let (m', awake) = wake_threads m (move_threads threads []) runnable
  ok (m', [], awake)

unfoldable pub wchan_isempty : Machine → Spinlock → List ℕ → Run Bool
wchan_isempty m lk threads = do
  check (spinlock_held m lk)
  elim threads [ [] ↦ ok true | target ∷ rest ↦ ok false ]
