-- ===== src/Thread/Newborn.antt =====
-- thread/thread.c: the thread that thread_fork makes, and the end of thread_fork.

use jinx_os.Base.{
  ℕ, ◌-◌, ◌≤◌, ◌≡◌, ◌≢◌, ◌^◌, not, Bool, false, refl, ap, none, some, List, [], ◌∷◌, ◌++◌, arith,
  ◌==◌, ne→==, if◌then◌else◌, length, length-set, set, lt→ltb, Bool-cases, inl, inr, ok,
}
use jinx_os.Kernel.{null, store, success, enomem}
use jinx_os.Spinlock.{ifx}
use jinx_os.Spinlock.Pairs.{free_lock, IsUp}
use jinx_os.Thread.{
  s_ready, Thread, Scheduler, cpu_started, put, stack_magic, thread_initstack, thread_returnstack,
  thread_destroy,
}
use jinx_os.Thread.Fork.{Grants, give_up, fork_member}
use jinx_os.Thread.Tables.{put_self, put-put}
use jinx_os.Thread.Resuming.{stamped, stands}
use jinx_os.Thread.Waking.{around, make_runnable_free}

pub thread_initstack_lem : (w : List ℕ) → 4 ≤ length w → thread_initstack w ≡ ok (stamped w)
unfolding thread_initstack store
thread_initstack_lem w room =
    let a = set w 0 stack_magic in
    let b = set a 1 stack_magic in
    let c = set b 2 stack_magic in
    rw
      (
        lt→ltb 0 (length w) (omega (arith, room)),
        lt→ltb 1 (length a) (omega (arith, room, length-set w 0 stack_magic)),
        lt→ltb 2 (length b)
            (omega (arith, room, length-set w 0 stack_magic, length-set a 1 stack_magic)),
        lt→ltb 3 (length c) (
            omega (
              arith,
              room,
              length-set w 0 stack_magic,
              length-set a 1 stack_magic,
              length-set b 2 stack_magic,
            )),
      )
      refl

-- The thread that thread_fork makes, before it joins its process.
abbrev pub newborn : List ℕ → ℕ → Thread
newborn w parent = record {
  state = s_ready;
  listed = false;
  proc = null;
  stack = some (stamped (stamped w));
  rval = 2 ^ 32 - 1;
  parent = parent;
}

abbrev pub process_of : ℕ → Thread → ℕ
process_of proc current = if proc == null then current.proc else proc

module _ (s : Scheduler) (g : Grants) (c : Thread) (w : List ℕ) (parent : ℕ) (up : IsUp s.machine)
    (masked : s.machine.interrupts ≡ false) (free : s.active_threads_lock ≡ free_lock)
    (started : s.status ≡ cpu_started) (at : s.threads s.thread ≡ some c)
    (made : s.threads g.block ≡ some (newborn w parent)) (apart : g.block ≢ s.thread) where
  pub give_up_lem :
      give_up s g.block ≡ ok (enomem, record s { threads = put s.threads g.block none })
  unfolding give_up thread_destroy thread_returnstack
  give_up_lem = rw (ap not masked, ne→== _ _ apart, made) refl

  -- The new thread on the run queue.
  abbrev pub born : Bool → ℕ → ℕ × Scheduler
  born on proc = (
    success,
    record s {
      machine = ifx (around s.machine) on;
      active_threads = s.active_threads ++ g.block ∷ [];
      active_threads_lock = free_lock;
      threads =
          put s.threads g.block
            (some (stands (record (newborn w parent) { proc = process_of proc c }) s_ready));
    },
  )

  pub fork_member_lem :
      (on : Bool) (proc : ℕ)
      → fork_member g s on proc
        ≡ ok (
            if g.member
            then born on proc
            else (enomem, record s { threads = put s.threads g.block none }))
  unfolding fork_member
  fork_member_lem on proc = elim (Bool-cases g.member) [
    | inl e ↦
        let th = record (newborn w parent) { proc = process_of proc c } in
        rw
          (
            e,
            at,
            made,
            make_runnable_free (record s { threads = put s.threads g.block (some th) }) g.block th
                up free started (put_self s.threads g.block (some th)) refl,
            put-put,
          )
          refl
    | inr e ↦ rw (e, give_up_lem) refl
  ]
