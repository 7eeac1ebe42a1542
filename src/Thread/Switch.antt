-- ===== src/Thread/Switch.antt =====
-- thread/thread.c: what thread_switch comes to from its checks of the stack on.
use jinx_os.Base.{
  ℕ, ◌≡◌, ◌≢◌, false, refl, ap, ◌∙◌, some, List, [], ◌∷◌, ◌++◌, arith, ◌==◌, ne→==, length, ok,
}
use jinx_os.Kernel.{null}
use jinx_os.Spinlock.{Machine, Spinlock}
use jinx_os.Spinlock.Pairs.{free_lock, held_lock, inside}
use jinx_os.Spinlock.Quiet.{IsQuiet, after, leave_section}
use jinx_os.Thread.{ThreadState, s_ready, Thread, Scheduler, cpu_started, put}
use jinx_os.Thread.Switching.{switch_case}
use jinx_os.Thread.Tables.{put_self, put_other, put-put}
use jinx_os.Thread.Resuming.{resumed, under, stands, make_runnable_held, switch_away_lem}

-- What is known where the switch statement starts: the current thread `c` is on no list, and `n` is
-- the first of the others.
pub record Ready (s : Scheduler) (c h : Thread) (n : ℕ) (rest : List ℕ) : Type 0 where
  pub started : s.status ≡ cpu_started
  pub at : s.threads s.thread ≡ some c
  pub free : c.listed ≡ false
  pub active : s.active_threads ≡ n ∷ rest
  pub at_next : s.threads n ≡ some h
  pub apart : n ≢ s.thread
  pub member : (h.proc == null) ≡ false

-- The state after the switch: the thread that was current stands on a list, in a new state.
abbrev pub moved : Scheduler → Thread → ThreadState → Scheduler
moved s c state = record s { threads = put s.threads s.thread (some (stands c state)) }

module _ (m : Machine) (s : Scheduler) (c h : Thread) (n : ℕ) (rest : List ℕ)
    (quiet : IsQuiet m free_lock) (r : Ready s c h n rest) (wc : ℕ) (lk : Spinlock) where
  away :
      (s.threads s.thread ≡ some c) × (put s.threads s.thread (some (stands c s_ready)) n ≡ some h)
  away = (r.at, put_other s.threads s.thread n (some (stands c s_ready)) r.apart ∙ r.at_next)

  pub switch_ready :
      switch_case (under (inside m) (held_lock m) s) s_ready wc lk
      ≡ ok (resumed (moved s c s_ready) (after m) free_lock n h (rest ++ s.thread ∷ []), lk)
  unfolding switch_case
  switch_ready =
      let others : (length s.active_threads == 0) ≡ false =
        ne→== _ 0 (λ i. omega (arith, ap length r.active)) in
      rw
        (
          others,
          make_runnable_held m s s.thread c r.started r.at r.free,
          switch_away_lem
              (record (under (inside m) (held_lock m) s) {
                active_threads = s.active_threads ++ s.thread ∷ [];
                threads = put s.threads s.thread (some (stands c s_ready));
              })
              (after m) free_lock s_ready (stands c s_ready) h n (rest ++ s.thread ∷ [])
              (leave_section quiet) (put_self s.threads s.thread (some (stands c s_ready)))
              (ap (λ l. l ++ s.thread ∷ []) r.active) away.1 r.apart r.member,
          put-put,
        )
        refl
