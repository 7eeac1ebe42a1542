-- ===== src/Lock/Calls.antt =====
-- synch/lock.c: what each call comes to while the lock's own spinlock is free.
use jinx_os.Base.{
  ℕ, ◌+◌, ◌-◌, ◌^◌, ◌<◌, ◌≡◌, ◌≢◌, refl, ap, Bool, true, false, List, [], ◌∷◌, ◌++◌, arith, ltb,
  ◌==◌, ne→==, eq→==, lt→ltb, Bool-cases, if◌then◌else◌, ==→eq, inl, inr, ok, fault, panic,
}
use jinx_os.Kernel.{null}
use jinx_os.Spinlock.{
  spinlock_held, spinlock_acquire, spinlock_release, Machine, Spinlock, cli, ifx,
}
use jinx_os.Spinlock.Pairs.{
  IsUp, acquire_free, held_lem, spinlock_release_lem, free_lock, held_lock, inside,
}
use jinx_os.Spinlock.Quiet.{
  IsQuiet, after, enter_section, section_held, section_alone, leave_section, leave_asleep,
}
use jinx_os.WaitChannel.{run_queue_round, wchan_sleep}
use jinx_os.WaitChannel.Waking.{woken, wchan_wakeone_masked}
use jinx_os.Lock.{
  Lock, lock_holding, take_count, lock_taken, lock_loop, lock_acquire, lock_resume, lock_release,
}

-- A lock is free, or it has an owner that has taken it at least once.
pub record IsLock (lock : Lock) : Type 0 where
  pub owned : 0 < lock.lk_count → lock.lk_owner ≢ null
  pub unowned : lock.lk_count ≡ 0 → lock.lk_owner ≡ null

-- A pass of the loop of lock_acquire by `t`, on the machine `m`.
abbrev pub passed : Lock → ℕ → Bool → Machine → Bool × Machine × Lock
passed lock t on m =
    if ltb 0 lock.lk_count
    then (
      false,
      record m { interrupts = false; iflag = false },
      record lock { lk_wchan = lock.lk_wchan ++ t ∷ []; lk_lock = free_lock },
    )
    else (true, ifx m on, record lock { lk_owner = t; lk_count = 1; lk_lock = free_lock })

-- lock_acquire by `t`: its owner takes it once more.
abbrev pub entered : Lock → ℕ → Bool → Machine → Bool × Machine × Lock
entered lock t on m =
    if lock_holding lock t
    then (true, ifx m on, record lock { lk_count = lock.lk_count + 1; lk_lock = free_lock })
    else passed lock t on m

-- The machine in a call's section, which cli comes before.
abbrev pub masked : Machine → Machine
masked m = after (cli m).1

-- lock_release by the owner.
abbrev pub given_back : Lock → Bool → List ℕ → Machine → Machine × Lock × List ℕ
given_back lock on runnable m =
    if lock.lk_count == 1
    then (
      ifx m on,
      record {
        lk_owner = null;
        lk_count = 0;
        lk_wchan = (woken lock.lk_wchan runnable).0;
        lk_lock = free_lock;
      },
      (woken lock.lk_wchan runnable).1,
    )
    else (ifx m on, record lock { lk_count = lock.lk_count - 1; lk_lock = free_lock }, runnable)

pub still : {m : Machine} {lk : Spinlock} → IsQuiet m lk → IsQuiet m free_lock
still q = record { real = q.real; none_held = q.none_held; free = refl }

pub masked-IsQuiet : {m : Machine} {lk : Spinlock} → IsQuiet m lk → IsQuiet (cli m).1 free_lock
unfolding cli
masked-IsQuiet q = record { real = q.real; none_held = q.none_held; free = refl }

module _ (m : Machine) (lock : Lock) (v : IsLock lock) (t : ℕ) (real : t ≢ null) where
  loop_lem :
      (on : Bool)
      → IsQuiet m free_lock
      → lock_loop (inside m) (record lock { lk_lock = held_lock m }) false t on
        ≡ ok (passed lock t on (after m))
  unfolding lock_loop wchan_sleep run_queue_round lock_taken take_count lock_holding
  loop_lem on q = elim (Bool-cases (ltb 0 lock.lk_count)) [
    | inl e ↦ rw (e, section_held q, section_alone q, leave_asleep q) refl
    | inr e ↦
        let none : lock.lk_count ≡ 0 = ground (arith, e) in
        rw (none, v.unowned none, ne→== t null real, eq→== t t refl, leave_section q) refl
  ]

module _ (m : Machine) (lock : Lock) (v : IsLock lock) (t : ℕ) (real : t ≢ null) where
  -- lock_acquire ends at once: its owner takes the lock once more, any other thread takes it if it
  -- is free and sleeps otherwise.
  pub lock_acquire_lem :
      IsQuiet m lock.lk_lock
      → (lock_holding lock t ≡ true → lock.lk_count + 1 < 2 ^ 31)
      → lock_acquire m lock false t ≡ ok (entered lock t m.interrupts (masked m))
  unfolding lock_acquire lock_taken take_count lock_holding cli
  lock_acquire_lem q room = elim (Bool-cases (lock_holding lock t)) [
    | inl e ↦
        rw
          (
            q.free,
            enter_section (masked-IsQuiet q),
            e,
            lt→ltb _ _ (room e),
            leave_section (masked-IsQuiet q),
          )
          refl
    | inr e ↦
        rw
          (
            q.free,
            enter_section (masked-IsQuiet q),
            e,
            loop_lem (cli m).1 lock v t real m.interrupts (masked-IsQuiet q),
          )
          refl
  ]

  -- The owner's take number 2 ^ 31 overflows the count.
  pub lock_acquire_overflow :
      IsQuiet m lock.lk_lock
      → lock_holding lock t ≡ true
      → ltb (lock.lk_count + 1) (2 ^ 31) ≡ false
      → lock_acquire m lock false t ≡ fault
  unfolding lock_acquire lock_taken take_count lock_holding cli
  lock_acquire_overflow q e full = rw (q.free, enter_section (masked-IsQuiet q), e, full) refl

  pub lock_resume_lem :
      (on : Bool)
      → IsQuiet m lock.lk_lock
      → lock_resume m lock false t on ≡ ok (passed lock t on (after m))
  unfolding lock_resume
  lock_resume_lem on q =
      rw (q.free, enter_section (still q), loop_lem m lock v t real on (still q)) refl

  -- lock_release by a thread that has the lock ends at once, also inside another spinlock's section:
  -- it gives back one take, and the last one frees the lock and wakes the first sleeper.
  pub lock_release_lem :
      (runnable : List ℕ)
      → IsUp m
      → lock.lk_lock ≡ free_lock
      → lock_holding lock t ≡ true
      → 0 < lock.lk_count
      → lock_release m lock t runnable ≡ ok (given_back lock m.interrupts runnable (masked m))
  unfolding lock_release lock_holding cli ifx
  lock_release_lem runnable up free e some =
      let off : Machine = (cli m).1 in
      let enter : spinlock_acquire off free_lock (0 ∷ []) ≡ ok (inside off, held_lock off) =
        acquire_free off (record { real = up.real; counted = up.counted }) in
      let held : spinlock_held (inside off) (held_lock off) ≡ true =
        held_lem (inside off) off.thiscpu refl in
      let leave : spinlock_release (inside off) (held_lock off) ≡ ok (after off, free_lock) =
        spinlock_release_lem (inside off) up.real (omega arith) up.counted in
      rw (free, enter, e, lt→ltb _ _ some)
        (elim (Bool-cases (lock.lk_count == 1)) [
          | inl one ↦
              rw
                (
                  one,
                  eq→== (lock.lk_count - 1) 0 (omega (arith, ==→eq _ _ one)),
                  wchan_wakeone_masked (inside off) (held_lock off) lock.lk_wchan runnable refl
                      held,
                  leave,
                )
                (ap
                  (λ n. ok (
                    ifx (after off) m.interrupts,
                    record {
                      lk_owner = null;
                      lk_count = n;
                      lk_wchan = (woken lock.lk_wchan runnable).0;
                      lk_lock = free_lock;
                    },
                    (woken lock.lk_wchan runnable).1,
                  ))
                  {x = lock.lk_count - 1} {y = 0} (omega (arith, ==→eq _ _ one)))
          | inr more ↦ rw (more, ne→== (lock.lk_count - 1) 0 (ground (arith, more)), leave) refl
        ])

  -- On a processor that holds no spinlock, lock_release by a thread that does not have the lock stops
  -- the kernel.
  pub lock_release_refused :
      (runnable : List ℕ)
      → IsQuiet m lock.lk_lock
      → lock_holding lock t ≡ false
      → lock_release m lock t runnable ≡ panic
  unfolding lock_release lock_holding cli
  lock_release_refused runnable q e = rw (q.free, enter_section (masked-IsQuiet q), e) refl
