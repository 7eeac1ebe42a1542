-- ===== src/CondVar.antt =====
-- synch/cv.c: condition variables. cv_wait, cv_signal and cv_broadcast end here where the thread
-- sleeps or where they call lock_acquire again; that call is Lock's. `t` is `thisthread`.
pub mod Calls
use jinx_os.Base.{
  ℕ, Bool, true, false, not, Option, none, some, List, [], ◌∷◌, Run, ok, ◌>>=◌, ◌>>◌, check,
  if◌then◌else◌,
}
use jinx_os.Spinlock.{
  Machine, Spinlock, spinlock_init, spinlock_acquire, spinlock_release, spinlock_cleanup,
}
use jinx_os.WaitChannel.{wchan_sleep, wchan_wakeone, wchan_wakeall}
use jinx_os.Lock.{Lock, lock_release}

-- struct cv; `cv_wchan` is the threads on the channel.
pub record CondVar : Type 0 where
  pub cv_wchan : List ℕ
  pub cv_splock : Spinlock

-- cv_create: `block` and `name` say whether kmalloc and strdup give what they are asked for; what
-- wchan_create returns is not looked at.
unfoldable pub cv_create : Bool → Bool → Option CondVar
cv_create block name =
    if not block
    then none
    else if not name
    then none
    else some (record { cv_wchan = []; cv_splock = spinlock_init })

-- cv_destroy, up to its calls of kfree: wchan_destroy stops the kernel if a thread sleeps.
unfoldable pub cv_destroy : Machine → CondVar → Run (Unit {0})
cv_destroy m cv = do
  lk ← spinlock_cleanup m cv.cv_splock
  elim cv.cv_wchan [ [] ↦ ok tt | t ∷ rest ↦ check false ]

-- cv_wait, up to where the thread sleeps.
unfoldable pub cv_wait :
    Machine → CondVar → Lock → Bool → ℕ → List ℕ → Run (Machine × CondVar × Lock × List ℕ)
cv_wait m cv lock in_interrupt t runnable = do
  (m1, sp) ← spinlock_acquire m cv.cv_splock (0 ∷ [])
  (m2, free, awake) ← lock_release m1 lock t runnable
  (m3, sp', threads) ← wchan_sleep m2 sp in_interrupt cv.cv_wchan t
  ok (m3, record { cv_wchan = threads; cv_splock = sp' }, free, awake)

-- cv_signal and cv_broadcast, up to lock_acquire.
unfoldable pub cv_signal :
    Machine → CondVar → Lock → ℕ → List ℕ → Run (Machine × CondVar × Lock × List ℕ)
cv_signal m cv lock t runnable = do
  (m1, sp) ← spinlock_acquire m cv.cv_splock (0 ∷ [])
  (m2, free, awake) ← lock_release m1 lock t runnable
  (m2', threads, awake') ← wchan_wakeone m2 sp cv.cv_wchan awake
  (m3, sp') ← spinlock_release m2' sp
  ok (m3, record { cv_wchan = threads; cv_splock = sp' }, free, awake')

unfoldable pub cv_broadcast :
    Machine → CondVar → Lock → ℕ → List ℕ → Run (Machine × CondVar × Lock × List ℕ)
cv_broadcast m cv lock t runnable = do
  (m1, sp) ← spinlock_acquire m cv.cv_splock (0 ∷ [])
  (m2, free, awake) ← lock_release m1 lock t runnable
  (m2', threads, awake') ← wchan_wakeall m2 sp cv.cv_wchan awake
  (m3, sp') ← spinlock_release m2' sp
  ok (m3, record { cv_wchan = threads; cv_splock = sp' }, free, awake')
