-- ===== src/Thread/Moves.antt =====
-- thread/thread.c: the current thread, and thread_switch up to its switch statement.
use jinx_os.Base.{ℕ, ◌≤◌, ◌≡◌, false, refl, some, List, [], ◌∷◌, arith, length, length-set, set, ok}
use jinx_os.Spinlock.{Spinlock, spinlock_acquire}
use jinx_os.Spinlock.Pairs.{free_lock, held_lock, inside}
use jinx_os.Spinlock.Quiet.{IsQuiet}
use jinx_os.Thread.{ThreadState, Thread, Scheduler, cpu_started, put, stack_magic}
use jinx_os.Thread.Switching.{switch_case, switch_locked}
use jinx_os.Thread.Resuming.{stamped, with_stack, thread_checkstack_lem, under}

-- The current thread is on no list and has a stack.
pub record Current (s : Scheduler) : Type 0 where
  pub c : Thread
  pub words : List ℕ
  pub at : s.threads s.thread ≡ some c
  pub free : c.listed ≡ false
  pub stack : c.stack ≡ some words
  pub room : 4 ≤ length words

-- A processor that is not idle and holds no spinlock, with interrupts off.
pub record CanSwitch (s : Scheduler) : Type 0 where
  pub quiet : IsQuiet s.machine s.active_threads_lock
  pub masked : s.machine.interrupts ≡ false
  pub started : s.status ≡ cpu_started
  pub mine : Current s

-- The current thread behind thread_checkstack, and the state with it.
abbrev pub checked : {s : Scheduler} → Current s → Thread
checked k = with_stack k.c (stamped k.words)

abbrev pub stamp : (s : Scheduler) → Current s → Scheduler
stamp s k = record s { threads = put s.threads s.thread (some (checked k)) }

pub locked_lem :
    (s : Scheduler) (k : Current s)
    → s.active_threads_lock ≡ free_lock
    → (state : ThreadState) (wc : ℕ) (lk : Spinlock)
    → spinlock_acquire s.machine free_lock (0 ∷ []) ≡ ok (inside s.machine, held_lock s.machine)
    → switch_locked s state wc lk
      ≡ switch_case (under (inside s.machine) (held_lock s.machine) (stamp s k)) state wc lk
unfolding switch_locked
locked_lem s k free state wc lk enter =
    rw (k.at, thread_checkstack_lem s k.c k.words k.stack k.room, free, enter) refl

pub stamped_room : (w : List ℕ) → 4 ≤ length w → 4 ≤ length (stamped w)
stamped_room w room =
    let a = set w 0 stack_magic in
    let b = set a 1 stack_magic in
    let c = set b 2 stack_magic in
    omega (
      arith,
      room,
      length-set w 0 stack_magic,
      length-set a 1 stack_magic,
      length-set b 2 stack_magic,
      length-set c 3 stack_magic,
    )

pub free-IsQuiet : {s : Scheduler} → CanSwitch s → IsQuiet s.machine free_lock
free-IsQuiet v = record { real = v.quiet.real; none_held = v.quiet.none_held; free = refl }
