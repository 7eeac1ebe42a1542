-- ===== src/Semaphore.antt =====
-- synch/semaphore.c: counting semaphores. What a thread does between the spinlock's acquisition and
-- its release is one step, since interrupts are off there; `true` says that the thread is through,
-- `false` that it sleeps on the channel.
pub mod Calls
pub mod Steps
use jinx_os.Base.{
  ℕ, ◌+◌, ◌-◌, ◌%◌, ◌^◌, Bool, true, false, not, Option, none, some, List, [], ◌∷◌, ltb, ◌==◌,
  if◌then◌else◌, Run, ok, ◌>>=◌, ◌>>◌, check,
}
use jinx_os.Kernel.{wrap}
use jinx_os.Spinlock.{
  Machine, Spinlock, spinlock_init, spinlock_acquire, spinlock_release, spinlock_cleanup,
}
use jinx_os.WaitChannel.{wchan_sleep, wchan_wakeone}

-- struct semaphore; `sem_wchan` is the threads on the channel.
pub record Semaphore : Type 0 where
  pub sem_wchan : List ℕ
  pub sem_lock : Spinlock
  pub sem_count : ℕ

-- semaphore_create: `block`, `name` and `wchan` say whether kmalloc, strdup and wchan_create give what
-- they are asked for.
unfoldable pub semaphore_create : Bool → Bool → Bool → ℕ → Option Semaphore
semaphore_create block name wchan initial_count =
    if not block
    then none
    else if not name
    then none
    else if not wchan
    then none
    else some (record { sem_wchan = []; sem_lock = spinlock_init; sem_count = initial_count })

-- semaphore_destroy: threadlist_cleanup, in wchan_destroy, stops the kernel if a thread sleeps.
unfoldable pub semaphore_destroy : Machine → Semaphore → Run (Unit {0})
semaphore_destroy m sem = do
  lk ← spinlock_cleanup m sem.sem_lock
  elim sem.sem_wchan [ [] ↦ ok tt | t ∷ rest ↦ check false ]

-- The `while` of P, and what follows it.
unfoldable pub p_loop : Machine → Semaphore → Bool → ℕ → Run (Bool × Machine × Semaphore)
p_loop m sem in_interrupt t =
    if sem.sem_count == 0
    then (do
      (m', lk, threads) ← wchan_sleep m sem.sem_lock in_interrupt sem.sem_wchan t
      ok (false, m', record sem { sem_wchan = threads; sem_lock = lk }))
    else (do
      check (ltb 0 sem.sem_count)
      (m', lk) ← spinlock_release m sem.sem_lock
      ok (true, m', record sem { sem_count = sem.sem_count - 1; sem_lock = lk }))

-- P by thread `t`, and P again where wchan_sleep returns.
unfoldable pub semaphore_p : Machine → Semaphore → Bool → ℕ → Run (Bool × Machine × Semaphore)
semaphore_p m sem in_interrupt t = do
  check (not in_interrupt)
  (m', lk) ← spinlock_acquire m sem.sem_lock (0 ∷ [])
  p_loop m' (record sem { sem_lock = lk }) in_interrupt t

unfoldable pub p_resume : Machine → Semaphore → Bool → ℕ → Run (Bool × Machine × Semaphore)
p_resume m sem in_interrupt t = do
  (m', lk) ← spinlock_acquire m sem.sem_lock (0 ∷ [])
  p_loop m' (record sem { sem_lock = lk }) in_interrupt t

-- V: the semaphore and the run queue.
unfoldable pub semaphore_v : Machine → Semaphore → List ℕ → Run (Machine × Semaphore × List ℕ)
semaphore_v m sem runnable = do
  (m1, lk) ← spinlock_acquire m sem.sem_lock (0 ∷ [])
  let count = wrap (sem.sem_count + 1)
  check (ltb 0 count)
  (m1', threads, awake) ← wchan_wakeone m1 lk sem.sem_wchan runnable
  (m2, free) ← spinlock_release m1' lk
  ok (m2, record { sem_wchan = threads; sem_lock = free; sem_count = count }, awake)
