-- ===== src/Thread.antt =====
-- thread/thread.c on one processor, which is the `cpu` of every thread: the running thread, the run
-- queue, the exited threads, and the wait channels with their sleepers. A list of threads is the
-- list that thread/threadlist.c implements; whether a thread's listnode is linked is `listed`. The
-- names of threads and of what they wait for are left out.
pub mod Switching
pub mod Tables
pub mod Resuming
pub mod Switch
pub mod Exorcism
pub mod Moves
pub mod Rounds
pub mod Sleeping
pub mod Waking
pub mod Newborn
pub mod Forking
pub mod Fork
use jinx_os.Base.{
  ℕ, zero, suc, ◌^◌, ◌-◌, Bool, true, false, not, ◌||◌, Option, none, some, List, [], ◌∷◌, ◌++◌,
  ◌==◌, if◌then◌else◌, length, get_elem?, set, Run, ok, panic, out_of_fuel, fault, ◌>>=◌, ◌>>◌,
  check, deref,
}
use jinx_os.Kernel.{null, success, enomem, store}
use jinx_os.Spinlock.{
  Machine, Spinlock, cli, ifx, spinlock_held, spinlock_acquire, spinlock_release,
}

-- threadstate_t
pub data ThreadState : Type 0 where
  s_run : ThreadState
  s_ready : ThreadState
  s_sleep : ThreadState
  s_zombie : ThreadState

abbrev pub is_run : ThreadState → Bool
is_run s_run = true
is_run _ = false

abbrev pub is_sleep : ThreadState → Bool
is_sleep s_sleep = true
is_sleep _ = false

abbrev pub is_zombie : ThreadState → Bool
is_zombie s_zombie = true
is_zombie _ = false

-- struct thread; `stack` is the words of the stack's page.
pub record Thread : Type 0 where
  pub state : ThreadState
  pub listed : Bool
  pub proc : ℕ
  pub stack : Option (List ℕ)
  pub rval : ℕ
  pub parent : ℕ

abbrev pub Threads : Type 0
Threads = ℕ → Option Thread

-- What a processor knows of its threads (struct cpu), all threads by address, all channels, and the
-- caller's variable that the argument of thread_fork points to.
pub record Scheduler : Type 0 where
  pub machine : Machine
  pub status : ℕ
  pub thread : ℕ
  pub bootthread : ℕ
  pub zombie_threads : List ℕ
  pub active_threads : List ℕ
  pub active_threads_lock : Spinlock
  pub wchans : List (List ℕ)
  pub threads : Threads
  pub thread_out : ℕ

abbrev pub cpu_started : ℕ
cpu_started = 1

abbrev pub cpu_idle : ℕ
cpu_idle = 3

-- THREAD_STACK_MAGIC
abbrev pub stack_magic : ℕ
stack_magic = 0xDEADFACE

unfoldable pub put : Threads → ℕ → Option Thread → Threads
put ts t th = λ a. if a == t then th else ts a

-- threadlist_addtail and threadlist_remhead, on the list and the thread's own node.
unfoldable pub add_tail : Threads → List ℕ → ℕ → Run (List ℕ × Threads)
add_tail ts list t = do
  th ← deref (ts t)
  check (not th.listed)
  ok (list ++ t ∷ [], put ts t (some (record th { listed = true })))

unfoldable pub rem_head : Threads → List ℕ → Run (Option ℕ × List ℕ × Threads)
rem_head ts [] = ok (none, [], ts)
rem_head ts (t ∷ list) = do
  th ← deref (ts t)
  ok (some t, list, put ts t (some (record th { listed = false })))

unfoldable pub thread_initstack : List ℕ → Run (List ℕ)
thread_initstack words = do
  a ← store words 0 stack_magic
  b ← store a 1 stack_magic
  c ← store b 2 stack_magic
  store c 3 stack_magic

-- `assert(stack[i] = THREAD_STACK_MAGIC)`: an assignment, and a test of what it assigned.
unfoldable pub assert_magic : List ℕ → ℕ → Run (List ℕ)
assert_magic words i = do set ← store words i stack_magic; check (not (stack_magic == 0)); ok set

unfoldable pub thread_checkstack : Scheduler → Thread → Run Thread
thread_checkstack s th = do
  check ((s.thread == s.bootthread) || elim th.stack [ some w ↦ true | none ↦ false ])
  words ← deref th.stack
  a ← assert_magic words 0
  b ← assert_magic a 1
  c ← assert_magic b 2
  d ← assert_magic c 3
  ok (record th { stack = some d })

-- thread_getstack; `page` is the page that page_get returns.
unfoldable pub thread_getstack : Option (List ℕ) → Run (List ℕ)
thread_getstack none = panic
thread_getstack (some page) = thread_initstack page

unfoldable pub thread_returnstack : Option (List ℕ) → Run (Unit {0})
thread_returnstack stack = check (elim stack [ some w ↦ true | none ↦ false ])

-- thread_create at the address `block` that kmalloc returns, or NULL; `name` says whether strdup
-- has memory.
unfoldable pub thread_create : Threads → ℕ → Bool → Option Threads
thread_create ts block name =
    if block == null
    then none
    else if not name
    then none
    else some (
        put ts block (
          some (record {
            state = s_ready;
            listed = false;
            proc = null;
            stack = none;
            rval = 2 ^ 32 - 1;
            parent = null;
          })))

unfoldable pub thread_destroy : Scheduler → ℕ → Run Scheduler
thread_destroy s t = do
  check (not s.machine.interrupts)
  check (not (t == s.thread))
  th ← deref (s.threads t)
  check (not (is_run th.state))
  check (th.proc == null)
  thread_returnstack th.stack
  check (not th.listed)
  ok (record s { threads = put s.threads t none })

-- The loop of thread_exorcise.
unfoldable pub exorcise_loop : ℕ → Scheduler → Run Scheduler
exorcise_loop zero s = out_of_fuel
exorcise_loop (suc fuel) s = do
  (t, zombies, ts) ← rem_head s.threads s.zombie_threads
  let left = record s { zombie_threads = zombies; threads = ts }
  elim t [
    | none ↦ ok left
    | some zombie ↦ do
      check (not (zombie == s.thread))
      th ← deref (ts zombie)
      check (is_zombie th.state)
      freed ← thread_destroy left zombie
      exorcise_loop fuel freed
  ]

unfoldable pub thread_exorcise : Scheduler → Run Scheduler
thread_exorcise s = do
  check (not s.machine.interrupts)
  exorcise_loop (suc (length s.zombie_threads)) s

-- thread_make_runnable behind its assignment to `state`, with the run queue's lock held.
unfoldable pub enqueue : Scheduler → ℕ → Run Scheduler
enqueue s t = do
  (active, ts) ← add_tail s.threads s.active_threads t
  check (not (s.status == cpu_idle))
  ok (record s { active_threads = active; threads = ts })

unfoldable pub set_state : Threads → ℕ → ThreadState → Run Threads
set_state ts t state = do th ← deref (ts t); ok (put ts t (some (record th { state = state })))

unfoldable pub thread_make_runnable : Scheduler → ℕ → Bool → Run Scheduler
thread_make_runnable s t holding_lock = do
  let (on, off) = cli s.machine
  ts ← set_state s.threads t s_ready
  let ready = record s { machine = off; threads = ts }
  if holding_lock
      then (do
        check (spinlock_held ready.machine ready.active_threads_lock)
        queued ← enqueue ready t
        ok (record queued { machine = ifx queued.machine on }))
      else (do
        (m, lk) ← spinlock_acquire ready.machine ready.active_threads_lock (0 ∷ [])
        queued ← enqueue (record ready { machine = m; active_threads_lock = lk }) t
        (m', free) ← spinlock_release queued.machine queued.active_threads_lock
        ok (record queued { machine = ifx m' on; active_threads_lock = free }))

-- thread_panic drops the runnable threads.
unfoldable pub thread_panic : Scheduler → Scheduler
thread_panic s = record s { active_threads = [] }
