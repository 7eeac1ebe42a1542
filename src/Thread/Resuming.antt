-- ===== src/Thread/Resuming.antt =====
-- thread/thread.c: the check of the stack, and the switch to the next thread of the run queue.
use jinx_os.Base.{
  ℕ, ◌≤◌, ◌≡◌, ◌≢◌, ◌<◌, Bool, ◌||◌, true, false, refl, ◌∙◌, some, List, [], ◌∷◌, ◌++◌, arith, ◌==◌,
  length, set, ok, length-set, lt→ltb,
}
use jinx_os.Kernel.{null, store}
use jinx_os.Spinlock.{Machine, Spinlock, cli, ifx, spinlock_held, spinlock_release}
use jinx_os.Spinlock.Pairs.{held_lock, inside, held_lem}
use jinx_os.Thread.{
  ThreadState, s_run, s_ready, Thread, Scheduler, cpu_started, cpu_idle, put, stack_magic,
  assert_magic, thread_checkstack, set_state, add_tail, rem_head, enqueue, thread_make_runnable,
}
use jinx_os.Thread.Switching.{run_next, switch_away}
use jinx_os.Thread.Tables.{put_self, put_other, put-put}

abbrev pub stamped : List ℕ → List ℕ
stamped w = set (set (set (set w 0 stack_magic) 1 stack_magic) 2 stack_magic) 3 stack_magic

abbrev pub with_stack : Thread → List ℕ → Thread
with_stack th w = record th { stack = some w }

pub or_true : (b : Bool) → (b || true) ≡ true
or_true true = refl
or_true false = refl

pub section_held_of : (m : Machine) → spinlock_held (inside m) (held_lock m) ≡ true
section_held_of m = held_lem (inside m) m.thiscpu refl

pub assert_magic_lem :
    (w : List ℕ) (i : ℕ) → i < length w → assert_magic w i ≡ ok (set w i stack_magic)
unfolding assert_magic store
assert_magic_lem w i h = rw (lt→ltb _ _ h) refl

-- thread_checkstack passes on every stack, whatever its words are, and leaves the magic there.
pub thread_checkstack_lem :
    (s : Scheduler) (th : Thread) (w : List ℕ)
    → th.stack ≡ some w
    → 4 ≤ length w
    → thread_checkstack s th ≡ ok (with_stack th (stamped w))
unfolding thread_checkstack
thread_checkstack_lem s th w e room =
    let a = set w 0 stack_magic in
    let b = set a 1 stack_magic in
    let c = set b 2 stack_magic in
    rw
      (
        e,
        or_true (s.thread == s.bootthread),
        assert_magic_lem w 0 (omega (arith, room)),
        assert_magic_lem a 1 (omega (arith, room, length-set w 0 stack_magic)),
        assert_magic_lem b 2
            (omega (arith, room, length-set w 0 stack_magic, length-set a 1 stack_magic)),
        assert_magic_lem c 3 (
            omega (
              arith,
              room,
              length-set w 0 stack_magic,
              length-set a 1 stack_magic,
              length-set b 2 stack_magic,
            )),
      )
      refl

-- The next thread runs.
abbrev pub resumed : Scheduler → Machine → Spinlock → ℕ → Thread → List ℕ → Scheduler
resumed s m lk n h rest = record s {
  machine = m;
  status = cpu_started;
  thread = n;
  active_threads = rest;
  active_threads_lock = lk;
  threads = put s.threads n (some (record h { listed = false; state = s_run }));
}

pub run_next_lem :
    (s : Scheduler) (m : Machine) (lk : Spinlock) (n : ℕ) (h : Thread) (rest : List ℕ)
    → s.active_threads ≡ n ∷ rest
    → s.threads n ≡ some h
    → (h.proc == null) ≡ false
    → spinlock_release s.machine s.active_threads_lock ≡ ok (m, lk)
    → run_next s ≡ ok (resumed s m lk n h rest)
unfolding run_next rem_head
run_next_lem s m lk n h rest active at member free =
    rw
      (active, at, put_self s.threads n (some (record h { listed = false })), member, free, put-put)
      refl

-- The state where the processor is `m` and the run queue's lock is `lk`.
abbrev pub under : Machine → Spinlock → Scheduler → Scheduler
under m lk s = record s { machine = m; active_threads_lock = lk }

abbrev pub stands : Thread → ThreadState → Thread
stands th state = record th { listed = true; state = state }

pub make_runnable_held :
    (m : Machine) (s : Scheduler) (t : ℕ) (c : Thread)
    → s.status ≡ cpu_started
    → s.threads t ≡ some c
    → c.listed ≡ false
    → thread_make_runnable (under (inside m) (held_lock m) s) t true
      ≡ ok (record (under (inside m) (held_lock m) s) {
        active_threads = s.active_threads ++ t ∷ [];
        threads = put s.threads t (some (stands c s_ready));
      })
unfolding thread_make_runnable set_state add_tail enqueue cli ifx
make_runnable_held m s t c started at free =
    rw
      (
        at,
        section_held_of m,
        put_self s.threads t (some (record c { state = s_ready })),
        free,
        started,
        put-put,
      )
      refl

pub switch_away_lem :
    (s : Scheduler) (m : Machine) (lk : Spinlock) (state : ThreadState) (c h : Thread) (n : ℕ)
    (rest : List ℕ)
    → spinlock_release s.machine s.active_threads_lock ≡ ok (m, lk)
    → s.threads s.thread ≡ some c
    → s.active_threads ≡ n ∷ rest
    → s.threads n ≡ some h
    → n ≢ s.thread
    → (h.proc == null) ≡ false
    → switch_away s state
      ≡ ok (
          resumed
            (record s { threads = put s.threads s.thread (some (record c { state = state })) })
            m
            lk
            n
            h
            rest)
unfolding switch_away set_state
switch_away_lem s m lk state c h n rest release at active at_next apart member = rw at (
    run_next_lem
      (record s {
        status = cpu_idle;
        threads = put s.threads s.thread (some (record c { state = state }));
      })
      m lk n h rest active
      (put_other s.threads s.thread n (some (record c { state = state })) apart ∙ at_next) member
      release)
