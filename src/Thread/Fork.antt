-- ===== src/Thread/Fork.antt =====
-- thread/thread.c: thread_fork. What it asks for memory is answered by arguments: the address of the
-- new thread or NULL, whether its name is copied, its stack's page, and whether the semaphores and
-- the place among the process's threads are there.
use jinx_os.Base.{
  ℕ, Bool, false, not, Option, none, some, List, ◌==◌, if◌then◌else◌, Run, ok, ◌>>=◌, ◌>>◌, check,
  deref,
}
use jinx_os.Kernel.{null, success, enomem}
use jinx_os.Spinlock.{cli, ifx}
use jinx_os.Thread.{
  Threads, Scheduler, put, thread_create, thread_getstack, thread_checkstack, thread_destroy,
  thread_make_runnable,
}

pub record Grants : Type 0 where
  pub block : ℕ
  pub name : Bool
  pub page : Option (List ℕ)
  pub csem : Bool
  pub psem : Bool
  pub member : Bool

-- The returns of thread_fork that destroy the new thread; interrupts stay off.
unfoldable pub give_up : Scheduler → ℕ → Run (ℕ × Scheduler)
give_up s t = do freed ← thread_destroy s t; ok (enomem, freed)

-- thread_fork from proc_addthread on; `on` is its local.
unfoldable pub fork_member : Grants → Scheduler → Bool → ℕ → Run (ℕ × Scheduler)
fork_member grants s on proc = if not grants.member then give_up s grants.block else (do
  current ← deref (s.threads s.thread)
  th ← deref (s.threads grants.block)
  check (th.proc == null)
  let mine = if proc == null then current.proc else proc
  ready ←
      thread_make_runnable
        (record s { threads = put s.threads grants.block (some (record th { proc = mine })) })
        grants.block false
  ok (success, record ready { machine = ifx ready.machine on }))

-- thread_fork from the creation of the two semaphores on.
unfoldable pub fork_semaphores : Grants → Scheduler → Bool → ℕ → Run (ℕ × Scheduler)
fork_semaphores grants s on proc =
    if not grants.csem
    then give_up s grants.block
    else if not grants.psem
    then give_up s grants.block
    else fork_member grants s on proc

-- thread_fork from the test of `thread_out` on.
unfoldable pub fork_parent : Grants → Scheduler → Bool → Bool → ℕ → Run (ℕ × Scheduler)
fork_parent grants s on joinable proc = if not joinable then fork_member grants s on proc else (do
  th ← deref (s.threads grants.block)
  let child = put s.threads grants.block (some (record th { parent = s.thread }))
  fork_semaphores grants (record s { threads = child; thread_out = grants.block }) on proc)

-- thread_fork from thread_getstack on, with the new thread at its address.
unfoldable pub fork_stack : Grants → Scheduler → Bool → Bool → ℕ → Run (ℕ × Scheduler)
fork_stack grants s on joinable proc = do
  words ← thread_getstack grants.page
  th ← deref (s.threads grants.block)
  checked ← thread_checkstack s (record th { stack = some words })
  fork_parent grants (record s { threads = put s.threads grants.block (some checked) }) on joinable
      proc

-- thread_fork behind thread_create.
unfoldable pub fork_created :
    Grants → Scheduler → Bool → Bool → ℕ → Option Threads → Run (ℕ × Scheduler)
fork_created grants s on joinable proc none = ok (enomem, s)
fork_created grants s on joinable proc (some ts) =
    fork_stack grants (record s { threads = ts }) on joinable proc

-- `joinable` says whether `thread_out` is given; `proc` is the process, or NULL for the caller's.
unfoldable pub thread_fork : Scheduler → Grants → Bool → ℕ → Run (ℕ × Scheduler)
thread_fork s grants joinable proc =
    let (on, off) = cli s.machine in
    fork_created grants (record s { machine = off }) on joinable proc
      (thread_create s.threads grants.block grants.name)
