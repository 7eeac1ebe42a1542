-- ===== src/Tests/SchedulerTests.antt =====
-- thread/thread.c and its theorems at a processor with five threads: 10 runs, 20 and 25 are on the run
-- queue, the boot thread 30 sleeps on channel 0 and has no stack, and 40 has exited.
use jinx_os.Base.{
  ℕ, ◌≡◌, refl, true, false, Bool, none, some, List, [], ◌∷◌, arith, replicate, Returns,
}
use jinx_os.Kernel.{null}
use jinx_os.Spinlock.Pairs.{free_lock}
use jinx_os.Thread.{
  ThreadState, s_run, s_ready, s_sleep, s_zombie, Thread, Threads, Scheduler, cpu_started, put,
}
use jinx_os.Thread.Fork.{Grants}
use jinx_os.Thread.Rounds.{schedules, InTurn, round_robin}

abbrev page : List ℕ
page = replicate 8 7

abbrev in_state : ThreadState → Bool → ℕ → Thread
in_state state listed proc = record {
  state = state;
  listed = listed;
  proc = proc;
  stack = some page;
  rval = 0;
  parent = 0;
}

no_threads : Threads
no_threads t = none

abbrev scheduler : Scheduler
scheduler = record {
  machine = record { thiscpu = 40; spinlocks = 0; interrupts = false; iflag = false };
  status = cpu_started;
  thread = 10;
  bootthread = 30;
  zombie_threads = 40 ∷ [];
  active_threads = 20 ∷ 25 ∷ [];
  active_threads_lock = free_lock;
  wchans = (30 ∷ []) ∷ [];
  threads =
      put
        (put
          (put
            (put (put no_threads 10 (some (in_state s_run false 5))) 25
              (some (in_state s_ready true 5)))
            20 (some (in_state s_ready true 5)))
          30 (some (record (in_state s_sleep true 5) { stack = none })))
        40 (some (in_state s_zombie true 0));
  thread_out = null;
}

-- 10, 20 and 25 take turns; 30, the boot thread, sleeps and has no stack.
turns : InTurn (record scheduler { zombie_threads = [] })
unfolding put no_threads
turns = record {
  can = record {
    quiet = record { real = omega arith; none_held = refl; free = refl };
    masked = refl;
    started = refl;
    mine = record {
      c = in_state s_run false 5;
      words = page;
      at = refl;
      free = refl;
      stack = refl;
      room = omega arith;
    };
  };
  member = refl;
  waiting = λ x h. record {
    h = in_state s_ready true 5;
    words = page;
    at = ground (arith, h);
    member = refl;
    stack = refl;
    room = omega arith;
  };
  once = λ x. ground arith;
  none_dead = refl;
}

round_robin_example :
    Returns
      (λ s'. InTurn s' × (s'.thread ≡ 25) × (s'.active_threads ≡ 10 ∷ 20 ∷ []))
      (schedules 2 (record scheduler { zombie_threads = [] }))
round_robin_example =
    round_robin (20 ∷ []) 25 [] (record scheduler { zombie_threads = [] }) turns refl

-- A call with memory for all but the second semaphore.
abbrev no_psem : Grants
no_psem = record {
  block = 50;
  name = true;
  page = some page;
  csem = true;
  psem = false;
  member = true;
}

abbrev awake : Scheduler
awake = record scheduler {
  machine = record { thiscpu = 40; spinlocks = 0; interrupts = true; iflag = false };
}

-- 10 runs, and the boot thread 30 sleeps on channel 0: no thread can run behind 10.
abbrev alone : Scheduler
alone = record scheduler { zombie_threads = []; active_threads = [] }
