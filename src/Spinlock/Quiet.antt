-- ===== src/Spinlock/Quiet.antt =====
-- synch/spinlock.c: a critical section under one spinlock, on a processor that holds no other.
use jinx_os.Base.{◌+◌, ◌≡◌, ◌≢◌, refl, [], ◌∷◌, true, false, arith, ◌==◌, eq→==, ok}
use jinx_os.Kernel.{null}
use jinx_os.Spinlock.{Machine, Spinlock, spinlock_held, spinlock_acquire, spinlock_release}
use jinx_os.Spinlock.Pairs.{
  free_lock, held_lock, inside, outside, acquire_free, held_lem, spinlock_release_lem,
}

pub record IsQuiet (m : Machine) (lk : Spinlock) : Type 0 where
  pub real : m.thiscpu ≢ null
  pub none_held : m.spinlocks ≡ 0
  pub free : lk ≡ free_lock

-- The processor after the section.
abbrev pub after : Machine → Machine
after m = outside (inside m)

-- The processor behind a thread that sleeps: interrupts are off.
abbrev pub asleep : Machine → Machine
asleep m = outside (record (inside m) { iflag = false })

module _ {m : Machine} {lk : Spinlock} (q : IsQuiet m lk) where
  pub after-IsQuiet : IsQuiet (after m) free_lock
  after-IsQuiet = record { real = q.real; none_held = omega (arith, q.none_held); free = refl }

  pub enter_section : spinlock_acquire m free_lock (0 ∷ []) ≡ ok (inside m, held_lock m)
  enter_section = acquire_free m (record { real = q.real; counted = omega (arith, q.none_held) })

  pub section_held : spinlock_held (inside m) (held_lock m) ≡ true
  section_held = held_lem (inside m) m.thiscpu refl

  pub section_alone : (m.spinlocks + 1 == 1) ≡ true
  section_alone = eq→== _ _ (omega (arith, q.none_held))

  pub leave_section : spinlock_release (inside m) (held_lock m) ≡ ok (after m, free_lock)
  leave_section = spinlock_release_lem (inside m) q.real (omega arith) (omega (arith, q.none_held))

  pub asleep-IsQuiet : IsQuiet (asleep m) free_lock
  asleep-IsQuiet = record { real = q.real; none_held = omega (arith, q.none_held); free = refl }

  pub leave_asleep :
      spinlock_release (record (inside m) { iflag = false }) (held_lock m)
      ≡ ok (asleep m, free_lock)
  leave_asleep =
      spinlock_release_lem (record (inside m) { iflag = false }) q.real (omega arith)
        (omega (arith, q.none_held))
