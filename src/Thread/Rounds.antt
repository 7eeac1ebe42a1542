-- ===== src/Thread/Rounds.antt =====
-- thread/thread.c: threads that yield take turns.
use jinx_os.Base.{
  ℕ, zero, suc, ◌+◌, ◌≤◌, ◌<◌, ◌≡◌, ◌≢◌, not, false, refl, sym, ap, ◌∙◌, inl, inr, Option, some,
  List, [], ◌∷◌, ◌++◌, append_assoc, arith, ◌==◌, ==→eq, if◌then◌else◌, length, subst, ok, Run,
  ◌>>=◌, ◌>>◌, check, Returns, returns, Returns-mono, Returns-bind, Bool-cases,
}
use jinx_os.Spinlock.{Spinlock, spinlock_init}
use jinx_os.Spinlock.Quiet.{after, after-IsQuiet, enter_section}
use jinx_os.Spinlock.Pairs.{free_lock}
use jinx_os.Kernel.{null}
use jinx_os.Thread.{
  s_run, s_ready, Thread, Scheduler, cpu_idle, put, exorcise_loop, thread_exorcise,
}
use jinx_os.Thread.Switching.{switch_locked, thread_switch, thread_schedule}
use jinx_os.Thread.Tables.{one_at, occurs, occurs-append, put_self, put_other, put-put}
use jinx_os.Thread.Resuming.{stamped, resumed, stands}
use jinx_os.Thread.Switch.{switch_ready}
use jinx_os.Thread.Moves.{CanSwitch, checked, stamp, locked_lem, stamped_room, free-IsQuiet}
use jinx_os.Thread.Exorcism.{exorcise_loop-nil}

-- A thread that can run: it has a process and a stack.
pub record CanRun (o : Option Thread) : Type 0 where
  pub h : Thread
  pub words : List ℕ
  pub at : o ≡ some h
  pub member : (h.proc == null) ≡ false
  pub stack : h.stack ≡ some words
  pub room : 4 ≤ length words

-- Threads that take turns: the current one and those on the run queue can run, and are different from
-- each other; no exited thread waits to be freed. Of the others, such as a boot thread that sleeps
-- and has no stack, nothing is asked.
pub record InTurn (s : Scheduler) : Type 0 where
  pub can : CanSwitch s
  pub member : (can.mine.c.proc == null) ≡ false
  pub waiting : (x : ℕ) → 0 < occurs x s.active_threads → CanRun (s.threads x)
  pub once : (x : ℕ) → occurs x s.active_threads + one_at s.thread x ≤ 1
  pub none_dead : s.zombie_threads ≡ []

no_exorcism : (s : Scheduler) → InTurn s → thread_exorcise s ≡ ok s
unfolding thread_exorcise
no_exorcism s v =
    let run = exorcise_loop (suc (length s.zombie_threads)) s in
    ap (λ on. check (not on) >> run) v.can.masked
    ∙ ap (λ zombies. exorcise_loop (suc (length zombies)) s) v.none_dead
    ∙ exorcise_loop-nil 0 s v.none_dead

module _ (s : Scheduler) (v : InTurn s) (n : ℕ) (rest : List ℕ)
    (active : s.active_threads ≡ n ∷ rest) where
  next : CanRun (s.threads n)
  next = v.waiting n (ground (arith, ap (occurs n) active))

  apart : n ≢ s.thread
  apart e = ground (arith, v.once n, ap (occurs n) active)

  stopped : Thread
  stopped = stands (checked v.can.mine) s_ready

  -- The state where `n` runs and the thread that yielded is last on the queue.
  yielded : Scheduler
  yielded =
      resumed (record s { threads = put s.threads s.thread (some stopped) }) (after s.machine)
        free_lock n next.h (rest ++ s.thread ∷ [])

  switch-yielded : thread_switch s s_ready null spinlock_init ≡ ok (yielded, spinlock_init)
  unfolding thread_switch yielded stopped
  switch-yielded =
      let locked : switch_locked s s_ready null spinlock_init ≡ ok (yielded, spinlock_init) =
        locked_lem s v.can.mine v.can.quiet.free s_ready null spinlock_init
          (enter_section (free-IsQuiet v.can))
        ∙ switch_ready s.machine (stamp s v.can.mine) (checked v.can.mine) next.h n rest
            (free-IsQuiet v.can)
            (record {
              started = v.can.started;
              at = put_self s.threads s.thread (some (checked v.can.mine));
              free = v.can.mine.free;
              active = active;
              at_next = put_other s.threads s.thread n (some (checked v.can.mine)) apart ∙ next.at;
              apart = apart;
              member = next.member;
            })
            null spinlock_init
        ∙ rw put-put refl in
      let behind : Scheduler → Run (Scheduler × Spinlock) = λ clear.
        if clear.status == cpu_idle
        then ok (clear, spinlock_init)
        else switch_locked clear s_ready null spinlock_init in
      ap (λ on. check (not on) >> (thread_exorcise s >>= behind)) v.can.masked
      ∙ ap (λ r. r >>= behind) (no_exorcism s v)
      ∙ rw (ap (λ y. y == cpu_idle) v.can.started) locked

  schedule-yielded : thread_schedule s ≡ ok yielded
  unfolding thread_schedule
  schedule-yielded =
      ap (λ on. check (not on) >> (thread_switch s s_ready null spinlock_init >>= λ r. ok r.0))
        v.can.masked
      ∙ ap (λ r. r >>= λ q. ok q.0) switch-yielded

  waits_still : (x : ℕ) → 0 < occurs x (rest ++ s.thread ∷ []) → CanRun (yielded.threads x)
  unfolding yielded stopped
  waits_still x h =
      let differs : x ≢ n = λ e.
        ground (arith, v.once x, ap (occurs x) active, occurs-append x rest (s.thread ∷ []), h) in
      let after_stop = put s.threads s.thread (some stopped) in
      subst CanRun
        (sym (
          put_other after_stop n x (some (record next.h { listed = false; state = s_run }))
            differs))
        (elim (Bool-cases (x == s.thread)) [
          | inl e ↦
              subst (λ y. CanRun (after_stop y)) (sym (==→eq x s.thread e))
                (record {
                  h = stopped;
                  words = stamped v.can.mine.words;
                  at = put_self s.threads s.thread (some stopped);
                  member = v.member;
                  stack = refl;
                  room = stamped_room v.can.mine.words v.can.mine.room;
                })
          | inr e ↦
              subst CanRun
                (sym (put_other s.threads s.thread x (some stopped) (λ same. ground (arith, e))))
                (v.waiting x
                  (ground (arith, ap (occurs x) active, occurs-append x rest (s.thread ∷ []), h)))
        ])

  yielded-InTurn : InTurn yielded
  unfolding yielded stopped
  yielded-InTurn = record {
    can = record {
      quiet = after-IsQuiet (free-IsQuiet v.can);
      masked = ground (arith, v.can.masked);
      started = refl;
      mine = record {
        c = record next.h { listed = false; state = s_run };
        words = next.words;
        at =
            put_self (put s.threads s.thread (some stopped)) n
              (some (record next.h { listed = false; state = s_run }));
        free = refl;
        stack = next.stack;
        room = next.room;
      };
    };
    member = next.member;
    waiting = waits_still;
    once =
        λ x. ground (arith, v.once x, ap (occurs x) active, occurs-append x rest (s.thread ∷ []));
    none_dead = v.none_dead;
  }

  -- What a turn comes to.
  pub thread_schedule_lem :
      Returns
        (λ s'. InTurn s' × (s'.thread ≡ n) × (s'.active_threads ≡ rest ++ s.thread ∷ []))
        (thread_schedule s)
  unfolding yielded
  thread_schedule_lem =
      subst
        (Returns (λ s'. InTurn s' × (s'.thread ≡ n) × (s'.active_threads ≡ rest ++ s.thread ∷ [])))
        (sym schedule-yielded) (returns (yielded-InTurn, refl, refl))

-- The calls of thread_schedule by one thread after the other.
unfoldable pub schedules : ℕ → Scheduler → Run Scheduler
schedules zero s = ok s
schedules (suc k) s = thread_schedule s >>= schedules k

-- Among threads that take turns, each with a process and a stack, where `t` is `k` places behind the
-- head of the run queue and every thread yields when it runs: the kernel does not stop, `t` runs
-- after k + 1 turns, and the threads that ran before it wait behind all that were behind it, in
-- their order.
pub round_robin :
    (before : List ℕ) (t : ℕ) (behind : List ℕ) (s : Scheduler)
    → InTurn s
    → s.active_threads ≡ before ++ t ∷ behind
    → Returns
        (λ s'. InTurn s' × (s'.thread ≡ t) × (s'.active_threads ≡ behind ++ s.thread ∷ before))
        (schedules (suc (length before)) s)
unfolding schedules
round_robin [] t behind s v e =
    Returns-bind (thread_schedule_lem s v t behind e) (λ s' y. returns y)
round_robin (n ∷ before) t behind s v e =
    Returns-bind (thread_schedule_lem s v n (before ++ t ∷ behind) e) (λ s' y.
      let queue : s'.active_threads ≡ before ++ t ∷ (behind ++ s.thread ∷ []) =
        y.2 ∙ append_assoc before (t ∷ behind) (s.thread ∷ []) in
      Returns-mono (round_robin before t (behind ++ s.thread ∷ []) s' y.0 queue) (λ s'' z. (
        z.0,
        z.1,
        z.2
            ∙ append_assoc behind (s.thread ∷ []) (s'.thread ∷ before)
            ∙ ap (λ x. behind ++ s.thread ∷ x ∷ before) y.1,
      )))
