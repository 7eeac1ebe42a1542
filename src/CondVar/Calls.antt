-- ===== src/CondVar/Calls.antt =====
-- synch/cv.c: what each call comes to where its thread has taken the lock once.
use jinx_os.Base.{
  ℕ, ◌≡◌, ◌≢◌, refl, true, false, List, [], ◌∷◌, ◌++◌, arith, ◌==◌, eq→==, ne→==, ok,
}
use jinx_os.Kernel.{null}
use jinx_os.Spinlock.{Machine, cli, ifx, spinlock_held, spinlock_release}
use jinx_os.Spinlock.Pairs.{free_lock, held_lock, inside, outside, held_lem, spinlock_release_lem}
use jinx_os.Spinlock.Quiet.{IsQuiet, enter_section}
use jinx_os.WaitChannel.{run_queue_round, wchan_sleep}
use jinx_os.WaitChannel.Waking.{woken, wchan_wakeone_masked, wchan_wakeall_lem}
use jinx_os.Lock.{Lock, lock_holding, lock_release}
use jinx_os.Lock.Calls.{masked, lock_release_lem}
use jinx_os.CondVar.{CondVar, cv_wait, cv_signal, cv_broadcast}

-- The lock as its owner has it after one lock_acquire.
abbrev pub taken : ℕ → List ℕ → Lock
taken t sleepers = record { lk_owner = t; lk_count = 1; lk_wchan = sleepers; lk_lock = free_lock }

-- The lock after the release, with the sleepers that are left.
abbrev pub open_lock : List ℕ → Lock
open_lock sleepers = record {
  lk_owner = null;
  lk_count = 0;
  lk_wchan = sleepers;
  lk_lock = free_lock;
}

-- The processor behind the release of the lock inside the channel's section.
abbrev pub deep : Machine → Machine
deep m = ifx (masked (inside m)) false

module _ (m : Machine) (cv : CondVar) (q : IsQuiet m cv.cv_splock) (t : ℕ) (real : t ≢ null)
    (sleepers runnable : List ℕ) where
  deep_release :
      lock_release (inside m) (taken t sleepers) t runnable
      ≡ ok (deep m, open_lock (woken sleepers runnable).0, (woken sleepers runnable).1)
  unfolding lock_holding
  deep_release =
      lock_release_lem (inside m) (taken t sleepers)
        (record { owned = λ h. real; unowned = λ h. absurd (omega (arith, h)) }) t real runnable
        (record { real = q.real; counted = omega (arith, q.none_held) }) refl
        (rw (ne→== t null real, eq→== t t refl) refl) (omega arith)

  deep_held : spinlock_held (deep m) (held_lock m) ≡ true
  unfolding ifx cli
  deep_held = held_lem (deep m) m.thiscpu refl

  deep_iflag : (deep m).iflag ≡ false
  unfolding ifx cli
  deep_iflag = refl

  deep_leave : spinlock_release (deep m) (held_lock m) ≡ ok (outside (deep m), free_lock)
  unfolding ifx cli
  deep_leave = spinlock_release_lem (deep m) q.real (omega arith) (omega (arith, q.none_held))

  deep_alone : ((deep m).spinlocks == 1) ≡ true
  unfolding ifx cli
  deep_alone = eq→== _ _ (omega (arith, q.none_held))

  -- The lock is open, no spinlock is held, and interrupts are off, whatever they were before.
  abbrev Left : Machine → CondVar → Lock → Type 0
  Left m' cv' lock' =
      (lock' ≡ open_lock (woken sleepers runnable).0)
      × IsQuiet m' cv'.cv_splock
      × (m'.interrupts ≡ false)

  deep-Left :
      (threads : List ℕ)
      → Left
          (outside (deep m))
          (record { cv_wchan = threads; cv_splock = free_lock })
          (open_lock (woken sleepers runnable).0)
  unfolding ifx cli
  deep-Left threads =
      (refl, record { real = q.real; none_held = omega (arith, q.none_held); free = refl }, refl)

  signal_run :
      cv_signal m cv (taken t sleepers) t runnable
      ≡ ok (
        outside (deep m),
        record {
          cv_wchan = (woken cv.cv_wchan (woken sleepers runnable).1).0;
          cv_splock = free_lock;
        },
        open_lock (woken sleepers runnable).0,
        (woken cv.cv_wchan (woken sleepers runnable).1).1,
      )
  unfolding cv_signal
  signal_run =
      rw
        (
          q.free,
          enter_section q,
          deep_release,
          wchan_wakeone_masked (deep m) (held_lock m) cv.cv_wchan (woken sleepers runnable).1
              deep_iflag deep_held,
          deep_leave,
        )
        refl

  wait_run :
      cv_wait m cv (taken t sleepers) false t runnable
      ≡ ok (
        outside (deep m),
        record { cv_wchan = cv.cv_wchan ++ t ∷ []; cv_splock = free_lock },
        open_lock (woken sleepers runnable).0,
        (woken sleepers runnable).1,
      )
  unfolding cv_wait wchan_sleep run_queue_round ifx cli
  wait_run = rw (q.free, enter_section q, deep_release, deep_held, deep_alone, deep_leave) refl

  signalled :
      (m' : Machine) × (cv' : CondVar) × (lock' : Lock) × (awake : List ℕ) × (cv_signal m cv
          (taken t sleepers)
          t
          runnable
        ≡ ok (m', cv', lock', awake))
      × ((cv'.cv_wchan, awake) ≡ woken cv.cv_wchan (woken sleepers runnable).1)
      × Left m' cv' lock'
  signalled = (
    outside (deep m),
    record { cv_wchan = (woken cv.cv_wchan (woken sleepers runnable).1).0; cv_splock = free_lock },
    open_lock (woken sleepers runnable).0,
    (woken cv.cv_wchan (woken sleepers runnable).1).1,
    signal_run,
    refl,
    deep-Left [],
  )

  broadcast :
      (m' : Machine) × (cv' : CondVar) × (lock' : Lock) × (cv_broadcast m cv
          (taken t sleepers)
          t
          runnable
        ≡ ok (m', cv', lock', (woken sleepers runnable).1 ++ cv.cv_wchan))
      × (cv'.cv_wchan ≡ [])
      × Left m' cv' lock'
  unfolding cv_broadcast
  broadcast = (
    outside (deep m),
    record { cv_wchan = []; cv_splock = free_lock },
    open_lock (woken sleepers runnable).0,
    rw
        (
          q.free,
          enter_section q,
          deep_release,
          wchan_wakeall_lem (deep m) (held_lock m) cv.cv_wchan (woken sleepers runnable).1
              deep_iflag deep_held,
          deep_leave,
        )
        refl,
    refl,
    deep-Left [],
  )

-- On a processor that holds no spinlock, cv_signal by the thread that has taken the lock once frees
-- the lock before it comes to its lock_acquire: the lock's first sleeper is woken and then the
-- channel's, no spinlock is held, and interrupts are off, also where they were on.
pub cv_signal_lem :
    (m : Machine) (cv : CondVar) (t : ℕ) (sleepers runnable : List ℕ)
    → IsQuiet m cv.cv_splock
    → t ≢ null
    → (m' : Machine) × (cv' : CondVar) × (lock' : Lock) × (awake : List ℕ) × (cv_signal m cv
          (taken t sleepers)
          t
          runnable
        ≡ ok (m', cv', lock', awake))
      × ((cv'.cv_wchan, awake) ≡ woken cv.cv_wchan (woken sleepers runnable).1)
      × (lock' ≡ open_lock (woken sleepers runnable).0)
      × IsQuiet m' cv'.cv_splock
      × (m'.interrupts ≡ false)
cv_signal_lem m cv t sleepers runnable q real =
    let (m', cv', lock', awake, run, woke, left) = signalled m cv q t real sleepers runnable in
    (m', cv', lock', awake, run, woke, left.0, left.1, left.2)

-- On a processor that holds no spinlock, cv_broadcast by the thread that has taken the lock once
-- empties the channel: behind the lock's first sleeper its threads are woken in the order in
-- which they went to sleep, and the lock is free.
pub cv_broadcast_lem :
    (m : Machine) (cv : CondVar) (t : ℕ) (sleepers runnable : List ℕ)
    → IsQuiet m cv.cv_splock
    → t ≢ null
    → (m' : Machine) × (cv' : CondVar) × (lock' : Lock) × (cv_broadcast m cv
          (taken t sleepers)
          t
          runnable
        ≡ ok (m', cv', lock', (woken sleepers runnable).1 ++ cv.cv_wchan))
      × (cv'.cv_wchan ≡ [])
      × (lock' ≡ open_lock (woken sleepers runnable).0)
cv_broadcast_lem m cv t sleepers runnable q real =
    let (m', cv', lock', run, none, left) = broadcast m cv q t real sleepers runnable in
    (m', cv', lock', run, none, left.0)
