-- ===== src/Spinlock/Pairs.antt =====
-- synch/spinlock.c: an acquisition with its release, alone and nested.
use jinx_os.Base.{
  ℕ, ◌+◌, ◌-◌, ◌^◌, ◌<◌, ◌≡◌, ◌≢◌, refl, sym, ap₂, Bool, true, false, List, [], ◌∷◌, ◌++◌, arith,
  eq→==, ne→==, if◌then◌else◌, ok, panic, ◌>>=◌, ap, ◌∙◌,
}
use jinx_os.Kernel.{wrap, null}
use jinx_os.Spinlock.{
  Machine, Spinlock, cli, ifx, spinlock_held, spin, spinlock_acquire, spinlock_release,
}

-- A processor that counts its spinlocks.
pub record IsUp (m : Machine) : Type 0 where
  pub real : m.thiscpu ≢ null
  pub counted : m.spinlocks + 1 < 2 ^ 32

abbrev pub free_lock : Spinlock
free_lock = record { locked = 0; cpu = null }

abbrev pub held_lock : Machine → Spinlock
held_lock m = record { locked = 1; cpu = m.thiscpu }

-- The processor inside: interrupts off, one spinlock more, and what `iflag` was told.
abbrev pub inside : Machine → Machine
inside m = record m { interrupts = false; iflag = m.interrupts; spinlocks = m.spinlocks + 1 }

-- The values that other processors leave until one of them releases the lock.
abbrev pub AllHeld : List ℕ → Type 0
AllHeld [] = Unit
AllHeld (v ∷ vs) = (v ≢ 0) × AllHeld vs

pub spin_lem : (busy later : List ℕ) → AllHeld busy → spin (busy ++ 0 ∷ later) ≡ ok tt
unfolding spin
spin_lem [] later h = refl
spin_lem (v ∷ busy) later (ne, h) = rw (ne→== v 0 ne) (spin_lem busy later h)

pub spinlock_acquire_lem :
    (m : Machine) (lk : Spinlock) (busy later : List ℕ)
    → IsUp m
    → spinlock_held m lk ≡ false
    → AllHeld busy
    → spinlock_acquire m lk (busy ++ 0 ∷ later) ≡ ok (inside m, held_lock m)
unfolding spinlock_acquire cli
spinlock_acquire_lem m lk busy later up out h =
    rw (out, spin_lem busy later h, ne→== _ _ up.real)
      (ap
        (λ c.
          ok (record m { interrupts = false; iflag = m.interrupts; spinlocks = c }, held_lock m))
        {x = wrap (m.spinlocks + 1)} {y = m.spinlocks + 1} (omega arith))

-- The processor after a release: one spinlock less, and interrupts on again if `iflag` says so.
abbrev pub outside : Machine → Machine
outside m = record m {
  spinlocks = m.spinlocks - 1;
  interrupts = if m.iflag then true else m.interrupts;
}

pub held_lem :
    (m : Machine) (cpu : ℕ)
    → m.thiscpu ≡ cpu
    → spinlock_held m (record { locked = 1; cpu = cpu }) ≡ true
unfolding spinlock_held
held_lem m cpu e = eq→== cpu m.thiscpu (sym e)

pub spinlock_release_lem :
    (m : Machine)
    → m.thiscpu ≢ null
    → 0 < m.spinlocks
    → m.spinlocks < 2 ^ 32
    → spinlock_release m (held_lock m) ≡ ok (outside m, free_lock)
unfolding spinlock_release ifx
spinlock_release_lem m real pos small =
    rw (held_lem m m.thiscpu refl, ne→== _ _ real)
      (ap
        (λ c. ok (
          record m { spinlocks = c; interrupts = if m.iflag then true else m.interrupts },
          free_lock,
        ))
        {x = wrap (m.spinlocks + 2 ^ 32 - 1)} {y = m.spinlocks - 1} (omega arith))

not_locked : (m : Machine) (lk : Spinlock) → lk.locked ≡ 0 → spinlock_held m lk ≡ false
unfolding spinlock_held
not_locked m lk e = ground (arith, e)

abbrev machine : ℕ → ℕ → Bool → Bool → Machine
machine cpu n on saved = record { thiscpu = cpu; spinlocks = n; interrupts = on; iflag = saved }

pub free_not_held : (m : Machine) → spinlock_held m free_lock ≡ false
unfolding spinlock_held
free_not_held m = refl

pub acquire_free :
    (m : Machine) → IsUp m → spinlock_acquire m free_lock (0 ∷ []) ≡ ok (inside m, held_lock m)
acquire_free m up = spinlock_acquire_lem m free_lock [] [] up (free_not_held m) tt

-- The only processor, whose count of spinlocks is below 2 ^ 32 - 1, takes a lock that is free, and
-- releases it: inside, interrupts are off and taking the lock again stops the kernel; afterwards the
-- lock is free, and the interrupt flag and the count of spinlocks are as before.
pub spinlock_round :
    (m : Machine) (lk : Spinlock) (later : List ℕ)
    → IsUp m
    → lk.locked ≡ 0
    → (m' : Machine) × (lk' : Spinlock) × (spinlock_acquire m lk (lk.locked ∷ later) ≡ ok (m', lk'))
      × (m'.interrupts ≡ false)
      × (spinlock_acquire m' lk' later ≡ panic)
      × (spinlock_release m' lk' ≡ ok (record m { iflag = m.interrupts }, free_lock))
unfolding spinlock_acquire
spinlock_round m lk later up free = (
  inside m,
  held_lock m,
  ap (λ v. spinlock_acquire m lk (v ∷ later)) free
      ∙ spinlock_acquire_lem m lk [] later up (not_locked m lk free) tt,
  refl,
  rw (held_lem (inside m) m.thiscpu refl) refl,
  spinlock_release_lem (inside m) up.real (omega arith) up.counted
      ∙ ap₂ (λ n on. ok (machine m.thiscpu n on m.interrupts, free_lock)) {x = m.spinlocks + 1 - 1}
          {y = m.spinlocks} {u = if m.interrupts then true else false} {v = m.interrupts}
          (omega arith) (ground arith),
)

-- A processor with interrupts on that takes one free lock inside another and releases both has
-- interrupts off for good: the second acquisition overwrites the flag that the first one saved.
pub spinlock_nested :
    (m : Machine)
    → IsUp m
    → m.spinlocks + 2 < 2 ^ 32
    → m.interrupts ≡ true
    → (do
      (m1, a) ← spinlock_acquire m free_lock (0 ∷ [])
      (m2, b) ← spinlock_acquire m1 free_lock (0 ∷ [])
      (m3, b') ← spinlock_release m2 b
      spinlock_release m3 a)
      ≡ ok (record m { interrupts = false; iflag = false }, free_lock)
spinlock_nested m up room on =
    let in2 = inside (inside m) in
    let out1 = outside in2 in
    let up1 : IsUp (inside m) = record { real = up.real; counted = omega arith } in
    rw
      (
        acquire_free m up,
        acquire_free (inside m) up1,
        spinlock_release_lem in2 up.real (omega arith) (omega arith),
        spinlock_release_lem out1 up.real (omega arith) (omega arith),
      )
      (ap (λ n. ok (machine m.thiscpu n false false, free_lock)) {x = m.spinlocks + 1 + 1 - 1 - 1}
        {y = m.spinlocks} (omega arith))
