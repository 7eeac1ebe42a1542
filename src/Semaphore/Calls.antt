-- ===== src/Semaphore/Calls.antt =====
-- synch/semaphore.c: P and V on a processor that holds no spinlock.
use jinx_os.Base.{
  ℕ, ◌+◌, ◌-◌, ◌^◌, ◌<◌, ◌≡◌, refl, ap, ◌∙◌, Bool, true, false, List, [], ◌∷◌, ◌++◌, arith, ◌==◌,
  ne→==, lt→ltb, Bool-cases, if◌then◌else◌, inl, inr, ok, panic,
}
use jinx_os.Kernel.{wrap}
use jinx_os.Spinlock.{Machine, Spinlock, spinlock_release}
use jinx_os.Spinlock.Pairs.{free_lock, held_lock, inside, outside, spinlock_release_lem}
use jinx_os.Spinlock.Quiet.{
  IsQuiet, after, asleep, leave_asleep, enter_section, section_held, section_alone, leave_section,
}
use jinx_os.WaitChannel.{run_queue_round, wchan_sleep}
use jinx_os.WaitChannel.Waking.{woken, stirred, wchan_wakeone_lem}
use jinx_os.Semaphore.{Semaphore, p_loop, semaphore_p, p_resume, semaphore_v}

-- The processor behind a wake-up.
abbrev pub roused : Machine → List ℕ → Machine
roused m threads = outside (stirred (inside m) threads)

pub roused-IsQuiet :
    {m : Machine} {lk : Spinlock} (threads : List ℕ)
    → IsQuiet m lk
    → IsQuiet (roused m threads) free_lock
roused-IsQuiet threads q = record {
  real = q.real;
  none_held = omega (arith, q.none_held);
  free = refl;
}

-- What a pass of P comes to.
abbrev pub passed : Semaphore → ℕ → Machine → Bool × Machine × Semaphore
passed sem t m =
    if sem.sem_count == 0
    then (false, asleep m, record sem { sem_wchan = sem.sem_wchan ++ t ∷ []; sem_lock = free_lock })
    else (true, after m, record sem { sem_count = sem.sem_count - 1; sem_lock = free_lock })

-- What V comes to.
abbrev pub raised : Semaphore → List ℕ → Machine → Machine × Semaphore × List ℕ
raised sem runnable m = (
  roused m sem.sem_wchan,
  record {
    sem_wchan = (woken sem.sem_wchan runnable).0;
    sem_lock = free_lock;
    sem_count = sem.sem_count + 1;
  },
  (woken sem.sem_wchan runnable).1,
)

module _ (m : Machine) (sem : Semaphore) (q : IsQuiet m sem.sem_lock) where
  leave_roused :
      (threads : List ℕ)
      → spinlock_release (stirred (inside m) threads) (held_lock m)
        ≡ ok (roused m threads, free_lock)
  leave_roused threads =
      spinlock_release_lem (stirred (inside m) threads) q.real (omega arith)
        (omega (arith, q.none_held))

  pub p_resume_lem : (t : ℕ) → p_resume m sem false t ≡ ok (passed sem t m)
  unfolding p_resume p_loop wchan_sleep run_queue_round
  p_resume_lem t =
      rw (q.free, enter_section q)
        (elim (Bool-cases (sem.sem_count == 0)) [
          | inl e ↦ rw (e, section_held q, section_alone q, leave_asleep q) refl
          | inr e ↦ rw (e, lt→ltb 0 sem.sem_count (ground arith), leave_section q) refl
        ])

  -- P ends at once: it takes one from a count that is not 0, and sleeps otherwise.
  pub semaphore_p_lem : (t : ℕ) → semaphore_p m sem false t ≡ ok (passed sem t m)
  unfolding semaphore_p p_resume
  semaphore_p_lem t = p_resume_lem t

  -- V ends at once while the count does not overflow: it adds one and wakes the first sleeper.
  pub semaphore_v_lem :
      (runnable : List ℕ)
      → sem.sem_count + 1 < 2 ^ 32
      → semaphore_v m sem runnable ≡ ok (raised sem runnable m)
  unfolding semaphore_v
  semaphore_v_lem runnable room =
      let count : wrap (sem.sem_count + 1) ≡ sem.sem_count + 1 = omega arith in
      rw
        (
          q.free,
          enter_section q,
          count,
          lt→ltb 0 (sem.sem_count + 1) (omega arith),
          wchan_wakeone_lem (inside m) (held_lock m) sem.sem_wchan runnable (section_held q),
          leave_roused sem.sem_wchan,
        )
        refl

  -- At the largest count V stops the kernel.
  pub semaphore_v_overflow :
      (runnable : List ℕ) → sem.sem_count + 1 ≡ 2 ^ 32 → semaphore_v m sem runnable ≡ panic
  unfolding semaphore_v
  semaphore_v_overflow runnable full =
      let count : wrap (sem.sem_count + 1) ≡ 0 = omega arith in
      rw (q.free, enter_section q, count) refl

-- On a processor that holds no spinlock, with the semaphore's own free and its count below 2 ^ 32 - 1: a
-- thread that sleeps first on the channel is woken by the next V, which leaves interrupts off,
-- whatever they were before, and if the thread runs next, it gets through P with the unit that V made.
pub semaphore_hand_over :
    (m : Machine) (sem : Semaphore) (t : ℕ) (rest runnable : List ℕ)
    → IsQuiet m sem.sem_lock
    → sem.sem_wchan ≡ t ∷ rest
    → sem.sem_count + 1 < 2 ^ 32
    → (m' m'' : Machine) × (sem' : Semaphore) × (semaphore_v m sem runnable
        ≡ ok (m', sem', runnable ++ t ∷ []))
      × (m'.interrupts ≡ false)
      × (p_resume m' sem' false t
          ≡ ok (true, m'', record sem { sem_wchan = rest; sem_lock = free_lock }))
semaphore_hand_over m sem t rest runnable q first room = (
  roused m sem.sem_wchan,
  after (roused m sem.sem_wchan),
  record { sem_wchan = rest; sem_lock = free_lock; sem_count = sem.sem_count + 1 },
  (semaphore_v_lem m sem q runnable room
      ∙ ap
          (λ w. ok (
            roused m sem.sem_wchan,
            record {
              sem_wchan = (woken w runnable).0;
              sem_lock = free_lock;
              sem_count = sem.sem_count + 1;
            },
            (woken w runnable).1,
          ))
          first),
  ap (λ w. (roused m w).interrupts) first,
  (p_resume_lem (roused m sem.sem_wchan)
        (record { sem_wchan = rest; sem_lock = free_lock; sem_count = sem.sem_count + 1 })
        (roused-IsQuiet sem.sem_wchan q) t
      ∙ rw (ne→== (sem.sem_count + 1) 0 (omega arith)) (
          ap
            (λ n. ok (
              true,
              after (roused m sem.sem_wchan),
              record { sem_wchan = rest; sem_lock = free_lock; sem_count = n },
            ))
            {x = sem.sem_count + 1 - 1} {y = sem.sem_count} (omega arith))),
)
