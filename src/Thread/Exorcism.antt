-- ===== src/Thread/Exorcism.antt =====
-- thread/thread.c: thread_exorcise frees the exited threads.
use jinx_os.Base.{
  ℕ, suc, ◌+◌, ◌≤◌, ◌≡◌, ◌<◌, true, false, refl, Option, none, some, List, [], ltb, ◌==◌,
  if◌then◌else◌, ok,
}
use jinx_os.Kernel.{null}
use jinx_os.Thread.{s_zombie, Thread, Scheduler, put, rem_head, exorcise_loop}
use jinx_os.Thread.Tables.{one_at, occurs}

-- A thread that has exited: it has left its process, and still has its stack.
pub record IsDead (o : Option Thread) : Type 0 where
  pub th : Thread
  pub words : List ℕ
  pub at : o ≡ some th
  pub exited : th.state ≡ s_zombie
  pub member : (th.proc == null) ≡ true
  pub stack : th.stack ≡ some words

-- Interrupts are off, and the threads on the list of the exited ones have exited; no two of them are
-- the same, and none is the current one.
pub record HasDead (s : Scheduler) : Type 0 where
  pub masked : s.machine.interrupts ≡ false
  pub once : (t : ℕ) → occurs t s.zombie_threads + one_at s.thread t ≤ 1
  pub dead : (t : ℕ) → 0 < occurs t s.zombie_threads → IsDead (s.threads t)

-- The first exited thread is gone.
abbrev without : Scheduler → ℕ → List ℕ → Scheduler
without s t zombies = record s { zombie_threads = zombies; threads = put s.threads t none }

-- What thread_exorcise leaves of `s`.
pub record Exorcised (s s' : Scheduler) : Type 0 where
  pub none_left : s'.zombie_threads ≡ []
  pub same_thread : s'.thread ≡ s.thread
  pub same_queue : s'.active_threads ≡ s.active_threads
  pub same_channels : s'.wchans ≡ s.wchans
  pub same_machine : s'.machine ≡ s.machine
  pub freed :
      (t : ℕ) → s'.threads t ≡ (if ltb 0 (occurs t s.zombie_threads) then none else s.threads t)

pub exorcise_loop-nil :
    (fuel : ℕ) (s : Scheduler) → s.zombie_threads ≡ [] → exorcise_loop (suc fuel) s ≡ ok s
unfolding exorcise_loop rem_head
exorcise_loop-nil fuel s e = rw e refl
