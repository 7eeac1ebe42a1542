-- ===== src/Lock.antt =====
-- synch/lock.c: locks that their owner may take again. A call is one step up to the point where it
-- ends (`true`) or its thread sleeps (`false`); `t` is `thisthread`,
-- which lock_holding asserts not to be NULL.
pub mod Calls
pub mod Steps
use jinx_os.Base.{
  ℕ, ◌+◌, ◌-◌, ◌^◌, Bool, true, false, not, Option, none, some, List, [], ◌∷◌, ltb, ◌==◌,
  if◌then◌else◌, Run, ok, fault, ◌>>=◌, ◌>>◌, check,
}
use jinx_os.Kernel.{null}
use jinx_os.Spinlock.{
  Machine, Spinlock, cli, ifx, spinlock_init, spinlock_acquire, spinlock_release, spinlock_cleanup,
}
use jinx_os.WaitChannel.{wchan_sleep, wchan_wakeone}

-- struct lock; `lk_wchan` is the threads on the channel.
pub record Lock : Type 0 where
  pub lk_owner : ℕ
  pub lk_count : ℕ
  pub lk_wchan : List ℕ
  pub lk_lock : Spinlock

-- lock_create: `block`, `name` and `wchan` say whether kmalloc, strdup and wchan_create give what they
-- are asked for.
unfoldable pub lock_create : Bool → Bool → Bool → Option Lock
lock_create block name wchan =
    if not block
    then none
    else if not name
    then none
    else if not wchan
    then none
    else some (record { lk_owner = null; lk_count = 0; lk_wchan = []; lk_lock = spinlock_init })

unfoldable pub lock_holding : Lock → ℕ → Bool
lock_holding lock t = if not (lock.lk_owner == null) then lock.lk_owner == t else false

-- `lk_count++` on an int.
unfoldable pub take_count : ℕ → Run ℕ
take_count n = if ltb (n + 1) (2 ^ 31) then ok (n + 1) else fault

-- The end of lock_acquire, from `lk_count++`; `on` is its local `iflag`.
unfoldable pub lock_taken : Machine → Lock → ℕ → Bool → Run (Bool × Machine × Lock)
lock_taken m lock t on = do
  count ← take_count lock.lk_count
  let mine = record lock { lk_count = count }
  check (lock_holding mine t)
  (m', lk) ← spinlock_release m mine.lk_lock
  ok (true, ifx m' on, record mine { lk_lock = lk })

-- The `while` of lock_acquire, and what follows it.
unfoldable pub lock_loop : Machine → Lock → Bool → ℕ → Bool → Run (Bool × Machine × Lock)
lock_loop m lock in_interrupt t on =
    if ltb 0 lock.lk_count
    then (do
      (m', lk, threads) ← wchan_sleep m lock.lk_lock in_interrupt lock.lk_wchan t
      ok (false, m', record lock { lk_wchan = threads; lk_lock = lk }))
    else (do
      check (lock.lk_count == 0)
      check (lock.lk_owner == null)
      lock_taken m (record lock { lk_owner = t }) t on)

unfoldable pub lock_acquire : Machine → Lock → Bool → ℕ → Run (Bool × Machine × Lock)
lock_acquire m lock in_interrupt t = do
  check (not in_interrupt)
  let (on, off) = cli m
  (m', lk) ← spinlock_acquire off lock.lk_lock (0 ∷ [])
  let mine = record lock { lk_lock = lk }
  if lock_holding lock t then lock_taken m' mine t on else lock_loop m' mine in_interrupt t on

-- lock_acquire again, where wchan_sleep returns.
unfoldable pub lock_resume : Machine → Lock → Bool → ℕ → Bool → Run (Bool × Machine × Lock)
lock_resume m lock in_interrupt t on = do
  (m', lk) ← spinlock_acquire m lock.lk_lock (0 ∷ [])
  lock_loop m' (record lock { lk_lock = lk }) in_interrupt t on

-- lock_release: the lock and the run queue.
unfoldable pub lock_release : Machine → Lock → ℕ → List ℕ → Run (Machine × Lock × List ℕ)
lock_release m lock t runnable = do
  let (on, off) = cli m
  (m1, lk) ← spinlock_acquire off lock.lk_lock (0 ∷ [])
  check (lock_holding lock t)
  check (ltb 0 lock.lk_count)
  let count = lock.lk_count - 1
  (m1', owner, threads, awake) ←
      (if count == 0
        then (do
          (m1', threads, awake) ← wchan_wakeone m1 lk lock.lk_wchan runnable
          ok (m1', null, threads, awake))
        else ok (m1, lock.lk_owner, lock.lk_wchan, runnable))
  (m2, free) ← spinlock_release m1' lk
  ok (
    ifx m2 on,
    record { lk_owner = owner; lk_count = count; lk_wchan = threads; lk_lock = free },
    awake,
  )

-- lock_destroy, up to its calls of kfree.
unfoldable pub lock_destroy : Machine → Lock → Run (Unit {0})
lock_destroy m lock = do
  lk ← spinlock_cleanup m lock.lk_lock
  elim lock.lk_wchan [ [] ↦ ok tt | t ∷ rest ↦ check false ]
