-- ===== src/Thread/Forking.antt =====
-- thread/thread.c: what thread_fork comes to, with memory and without.
use jinx_os.Base.{
  ℕ, ◌≤◌, ◌≡◌, not, Bool, ◌&&◌, true, false, none, some, List, [], ◌∷◌, ◌++◌, ◌==◌, if◌then◌else◌,
  length,
}
use jinx_os.Kernel.{null}
use jinx_os.Spinlock.{Machine, ifx}
use jinx_os.Spinlock.Pairs.{free_lock, IsUp}
use jinx_os.Thread.{s_ready, Thread, Threads, Scheduler, cpu_started, put}
use jinx_os.Thread.Fork.{Grants}
use jinx_os.Thread.Resuming.{stands}
use jinx_os.Thread.Waking.{around}
use jinx_os.Thread.Newborn.{newborn, process_of}

-- Whether all that thread_fork asks for is there.
abbrev pub served : Grants → Bool → Bool
served g joinable =
    not (g.block == null) && g.name && (if joinable then g.csem && g.psem else true) && g.member

abbrev pub off : Machine → Machine
off m = record m { interrupts = false }

abbrev pub child : Scheduler → List ℕ → Bool → ℕ → Thread → Thread
child s w joinable proc c =
    stands (record (newborn w (if joinable then s.thread else null)) { proc = process_of proc c })
      s_ready

abbrev pub forked : Scheduler → Grants → List ℕ → Bool → ℕ → Thread → Scheduler
forked s g w joinable proc c = record s {
  machine = ifx (around (off s.machine)) s.machine.interrupts;
  active_threads = s.active_threads ++ g.block ∷ [];
  active_threads_lock = free_lock;
  threads = put s.threads g.block (some (child s w joinable proc c));
  thread_out = if joinable then g.block else s.thread_out;
}

-- Nothing but the interrupt flag and the caller's variable is changed.
abbrev pub unforked : Scheduler → ℕ → Scheduler
unforked s out = record s { machine = off s.machine; thread_out = out }

-- The caller's variable after a failed call: it is set once the new thread is there.
abbrev pub told : Scheduler → Grants → Bool → ℕ
told s g joinable = if not (g.block == null) && g.name && joinable then g.block else s.thread_out

module _ (s : Scheduler) (g : Grants) (c : Thread) (w : List ℕ) (up : IsUp s.machine)
    (free : s.active_threads_lock ≡ free_lock) (started : s.status ≡ cpu_started)
    (at : s.threads s.thread ≡ some c) (page : g.page ≡ some w) (room : 4 ≤ length w)
    (fresh : s.threads g.block ≡ none) where
  -- The state with the new thread at its address.
  abbrev with_newborn : ℕ → ℕ → Scheduler
  with_newborn parent out = record s {
    machine = off s.machine;
    threads = put s.threads g.block (some (newborn w parent));
    thread_out = out;
  }

  -- The table with the new thread as thread_create makes it.
  abbrev created : Threads
  created = put s.threads g.block (some (record (newborn w null) { stack = none }))
