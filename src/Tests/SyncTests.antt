-- ===== src/Tests/SyncTests.antt =====
-- The files of synch/ and their theorems at small systems.
use jinx_os.Base.{
  ℕ, ◌+◌, ◌<◌, ◌≡◌, ◌≢◌, refl, true, false, some, List, [], ◌∷◌, arith, length, if◌then◌else◌, ok,
  panic, ◌>>=◌,
}
use jinx_os.Kernel.{null}
use jinx_os.Spinlock.{
  Machine, Spinlock, cli, ifx, spinlock_held, spinlock_init, spin, spinlock_acquire,
  spinlock_release,
}
use jinx_os.Spinlock.Pairs.{free_lock, spinlock_round, spinlock_nested}
use jinx_os.Spinlock.Quiet.{IsQuiet}
use jinx_os.WaitChannel.{run_queue_round, wchan_sleep}
use jinx_os.Semaphore.{Semaphore, semaphore_create, p_loop, semaphore_p, p_resume, semaphore_v}
use jinx_os.Semaphore.Calls.{semaphore_hand_over}
use jinx_os.Semaphore.Steps as Sem
use jinx_os.Lock.{Lock, lock_create, lock_holding, take_count, lock_taken, lock_loop, lock_acquire}
use jinx_os.Lock.Calls.{IsLock}
use jinx_os.Lock.Steps as Locks
use jinx_os.CondVar.{CondVar, cv_signal}
use jinx_os.CondVar.Calls.{taken, open_lock, cv_signal_lem}

-- A processor at address 40 with interrupts on.
abbrev boot : Machine
boot = record { thiscpu = 40; spinlocks = 0; interrupts = true; iflag = false }

spinlock_round_example :
    (m' : Machine) × (lk' : Spinlock) × (spinlock_acquire boot free_lock (0 ∷ []) ≡ ok (m', lk'))
    × (m'.interrupts ≡ false)
    × (spinlock_acquire m' lk' [] ≡ panic)
    × (spinlock_release m' lk' ≡ ok (record boot { iflag = true }, free_lock))
unfolding spinlock_held
spinlock_round_example =
    spinlock_round boot free_lock [] (record { real = omega arith; counted = omega arith }) refl

spinlock_nested_example :
    (do
      (m1, a) ← spinlock_acquire boot free_lock (0 ∷ [])
      (m2, b) ← spinlock_acquire m1 free_lock (0 ∷ [])
      (m3, b') ← spinlock_release m2 b
      spinlock_release m3 a)
    ≡ ok (record boot { interrupts = false; iflag = false }, free_lock)
spinlock_nested_example =
    spinlock_nested boot (record { real = omega arith; counted = omega arith }) (omega arith) refl

abbrev held : Spinlock
held = record { locked = 1; cpu = 40 }

quiet : IsQuiet boot free_lock
quiet = record { real = omega arith; none_held = refl; free = refl }

-- Two threads sleep on a semaphore without units.
abbrev empty : Semaphore
empty = record { sem_wchan = 7 ∷ 5 ∷ []; sem_lock = free_lock; sem_count = 0 }

semaphore_hand_over_example :
    (m' m'' : Machine) × (sem' : Semaphore) × (semaphore_v boot empty (9 ∷ [])
      ≡ ok (m', sem', 9 ∷ 7 ∷ []))
    × (m'.interrupts ≡ false)
    × (p_resume m' sem' false 7
        ≡ ok (true, m'', record empty { sem_wchan = 5 ∷ []; sem_lock = free_lock }))
semaphore_hand_over_example =
    semaphore_hand_over boot empty 7 (5 ∷ []) (9 ∷ []) quiet refl (omega arith)

abbrev fresh : Semaphore
fresh = record { sem_wchan = []; sem_lock = free_lock; sem_count = 1 }

made : semaphore_create true true true 1 ≡ some fresh
unfolding semaphore_create spinlock_init
made = refl

-- Thread 7 takes the one unit.
abbrev used : Sem.System
used = record {
  machine = record boot { iflag = true };
  sem = record fresh { sem_count = 0 };
  runnable = [];
  taken = 1;
  given = 0;
}

reach_used : Sem.Reach boot 1 used
unfolding semaphore_p p_loop spinlock_acquire spinlock_release spinlock_held cli ifx spin
reach_used = Sem.later (Sem.start made) (Sem.call_p 7 refl)

semaphore_safe_example :
    (used.sem.sem_count + used.taken ≡ 1 + used.given)
    × (used.sem.sem_wchan ≢ [] → 0 < used.sem.sem_count → 0 < length used.runnable)
semaphore_safe_example = Sem.semaphore_safe boot 1 used (omega arith) refl (omega arith) reach_used

abbrev vacant : Lock
vacant = record { lk_owner = null; lk_count = 0; lk_wchan = []; lk_lock = free_lock }

lock_made : lock_create true true true ≡ some vacant
unfolding lock_create spinlock_init
lock_made = refl

-- Thread 7 has the lock, and thread 5 sleeps.
abbrev contended : Locks.System
contended = record {
  machine = record boot { interrupts = false; iflag = false };
  lock = record { lk_owner = 7; lk_count = 1; lk_wchan = 5 ∷ []; lk_lock = free_lock };
  runnable = [];
  takes = Locks.take_more false (Locks.take_more true (λ t. 0) 7) 5;
}

reach_contended : Locks.Reach boot contended
unfolding lock_acquire lock_holding lock_loop lock_taken take_count run_queue_round wchan_sleep
    spinlock_acquire spinlock_release spinlock_held cli ifx spin
reach_contended =
    Locks.later (Locks.later (Locks.start lock_made) (Locks.call_acquire 7 (omega arith) refl))
      (Locks.call_acquire 5 (omega arith) refl)

lock_excludes_example :
    ((t u : ℕ) → 0 < contended.takes t → 0 < contended.takes u → t ≡ u)
    × ((t : ℕ)
        → contended.takes t
          ≡ (if lock_holding contended.lock t then contended.lock.lk_count else 0))
    × (contended.lock.lk_wchan ≢ [] → contended.lock.lk_count ≡ 0 → 0 < length contended.runnable)
lock_excludes_example = Locks.lock_excludes boot contended (omega arith) refl reach_contended

contended_valid : IsLock contended.lock
contended_valid = record { owned = λ h. omega arith; unowned = λ h. absurd (omega (arith, h)) }

abbrev condvar : CondVar
condvar = record { cv_wchan = 5 ∷ 6 ∷ []; cv_splock = free_lock }

cv_signal_lem_example :
    (m' : Machine) × (cv' : CondVar) × (lock' : Lock) × (awake : List ℕ) × (cv_signal boot condvar
        (taken 7 (8 ∷ []))
        7
        (9 ∷ [])
      ≡ ok (m', cv', lock', awake))
    × ◌≡◌ {A = List ℕ × List ℕ} (cv'.cv_wchan, awake) (6 ∷ [], 9 ∷ 8 ∷ 5 ∷ [])
    × (lock' ≡ open_lock [])
    × IsQuiet m' cv'.cv_splock
    × (m'.interrupts ≡ false)
cv_signal_lem_example = cv_signal_lem boot condvar 7 (8 ∷ []) (9 ∷ []) quiet (omega arith)

abbrev no_waiters : CondVar
no_waiters = record { cv_wchan = []; cv_splock = free_lock }
