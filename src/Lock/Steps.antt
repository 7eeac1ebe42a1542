-- ===== src/Lock/Steps.antt =====
-- synch/lock.c: one lock and any number of threads, whose calls interleave in any order.
use jinx_os.Base.{
  ℕ, ◌+◌, ◌-◌, ◌^◌, ◌<◌, ◌≡◌, ◌≢◌, ◌⊎◌, inl, inr, refl, sym, subst, ◌∙◌, Bool, true, false, List,
  [], ◌∷◌, ◌++◌, arith, ltb, ltb→lt, ◌==◌, Bool-cases, if◌then◌else◌, length, length-append, ok,
  ok_injective, some, some-injective,
}
use jinx_os.Kernel.{null}
use jinx_os.Spinlock.{Machine, spinlock_init, ifx}
use jinx_os.Spinlock.Pairs.{free_lock}
use jinx_os.Spinlock.Quiet.{IsQuiet, after, after-IsQuiet}
use jinx_os.WaitChannel.Waking.{woken}
use jinx_os.Lock.{Lock, lock_create, lock_holding, lock_acquire, lock_resume, lock_release}
use jinx_os.Lock.Calls.{
  IsLock, passed, entered, given_back, masked, lock_acquire_lem, lock_acquire_overflow,
  lock_resume_lem, lock_release_lem, lock_release_refused, masked-IsQuiet,
}

-- `runnable` are the threads that lock_release has woken and that have not run since; `takes` counts
-- for each thread its calls of lock_acquire that are through less its calls of lock_release.
pub record System : Type 0 where
  pub machine : Machine
  pub lock : Lock
  pub runnable : List ℕ
  pub takes : ℕ → ℕ

-- The counts after one more take of `t`, and after one less.
abbrev pub take_more : Bool → (ℕ → ℕ) → ℕ → ℕ → ℕ
take_more through takes t u = if u == t then (if through then takes u + 1 else takes u) else takes u

abbrev pub take_less : (ℕ → ℕ) → ℕ → ℕ → ℕ
take_less takes t u = if u == t then takes u - 1 else takes u

-- A thread calls lock_acquire, a woken thread goes on in it, or a thread calls lock_release.
pub data Step (s : System) : System → Type 0 where
  call_acquire :
      (t : ℕ) {through : Bool} {m : Machine} {lock : Lock}
      → t ≢ null
      → lock_acquire s.machine s.lock false t ≡ ok (through, m, lock)
      → Step s (record s { machine = m; lock = lock; takes = take_more through s.takes t })
  resume_acquire :
      (before : List ℕ) (t : ℕ) (behind : List ℕ) (on : Bool) {through : Bool} {m : Machine}
      {lock : Lock}
      → t ≢ null
      → s.runnable ≡ before ++ t ∷ behind
      → lock_resume s.machine s.lock false t on ≡ ok (through, m, lock)
      → Step s (record s {
        machine = m;
        lock = lock;
        runnable = before ++ behind;
        takes = take_more through s.takes t;
      })
  call_release :
      (t : ℕ) {m : Machine} {lock : Lock} {runnable : List ℕ}
      → t ≢ null
      → lock_release s.machine s.lock t s.runnable ≡ ok (m, lock, runnable)
      → Step s
          (record s { machine = m; lock = lock; runnable = runnable; takes = take_less s.takes t })

abbrev pub start_system : Machine → Lock → System
start_system m lock = record { machine = m; lock = lock; runnable = []; takes = λ t. 0 }

pub data Reach (m : Machine) : System → Type 0 where
  start : {lock : Lock} → lock_create true true true ≡ some lock → Reach m (start_system m lock)
  later : {s t : System} → Reach m s → Step s t → Reach m t

-- The lock records who has taken it and how often; and while threads sleep, the lock is taken or
-- some woken thread is about to try.
pub record Inv (s : System) : Type 0 where
  pub quiet : IsQuiet s.machine s.lock.lk_lock
  pub valid : IsLock s.lock
  pub recorded : (t : ℕ) → s.takes t ≡ (if lock_holding s.lock t then s.lock.lk_count else 0)
  pub awake : (s.lock.lk_wchan ≡ []) ⊎ (0 < s.lock.lk_count) ⊎ (0 < length s.runnable)

after_acquire : System → List ℕ → ℕ → Bool × Machine × Lock → System
after_acquire s runnable t (through, m, lock) = record s {
  machine = m;
  lock = lock;
  runnable = runnable;
  takes = take_more through s.takes t;
}

passed-Inv :
    (s : System) (t : ℕ) (runnable : List ℕ) (on : Bool) (m : Machine)
    → t ≢ null
    → IsQuiet m free_lock
    → Inv s
    → Inv (after_acquire s runnable t (passed s.lock t on m))
unfolding after_acquire lock_holding ifx
passed-Inv s t runnable on m real q v = elim (Bool-cases (ltb 0 s.lock.lk_count)) [
  | inl e ↦ rw e (record {
    quiet = record { real = q.real; none_held = q.none_held; free = refl };
    valid = record { owned = v.valid.owned; unowned = v.valid.unowned };
    recorded = λ u. ground (arith, v.recorded u);
    awake = inr (inl (ltb→lt _ _ e));
  })
  | inr e ↦ rw e (record {
    quiet = record { real = q.real; none_held = q.none_held; free = refl };
    valid = record { owned = λ _. real; unowned = λ none. ground (arith, none) };
    recorded = λ u. ground (arith, v.recorded u, real);
    awake = inr (inl (omega arith));
  })
]

entered-Inv :
    (s : System) (t : ℕ)
    → t ≢ null
    → Inv s
    → Inv (after_acquire s s.runnable t (entered s.lock t s.machine.interrupts (masked s.machine)))
unfolding after_acquire lock_holding ifx
entered-Inv s t real v =
    let q = after-IsQuiet (masked-IsQuiet v.quiet) in
    elim (Bool-cases (lock_holding s.lock t)) [
      | inl e ↦ rw e (record {
        quiet = record { real = q.real; none_held = q.none_held; free = refl };
        valid = record { owned = λ _. ground (arith, e); unowned = λ none. ground (arith, none) };
        recorded = λ u. ground (arith, v.recorded u, e);
        awake = inr (inl (omega arith));
      })
      | inr e ↦ rw e (passed-Inv s t s.runnable s.machine.interrupts (masked s.machine) real q v)
    ]

after_release : System → ℕ → Machine × Lock × List ℕ → System
after_release s t (m, lock, runnable) = record s {
  machine = m;
  lock = lock;
  runnable = runnable;
  takes = take_less s.takes t;
}

woken-awake :
    (threads runnable : List ℕ)
    → ((woken threads runnable).0 ≡ []) ⊎ (0 < length (woken threads runnable).1)
woken-awake [] runnable = inl refl
woken-awake (t ∷ rest) runnable = inr (omega (arith, length-append runnable (t ∷ [])))

given_back-Inv :
    (s : System) (t : ℕ)
    → t ≢ null
    → lock_holding s.lock t ≡ true
    → 0 < s.lock.lk_count
    → Inv s
    → Inv (after_release s t (given_back s.lock s.machine.interrupts s.runnable (masked s.machine)))
unfolding after_release lock_holding ifx
given_back-Inv s t real holds taken v =
    let q = after-IsQuiet (masked-IsQuiet v.quiet) in
    elim (Bool-cases (s.lock.lk_count == 1)) [
      | inl e ↦ rw e (record {
        quiet = record { real = q.real; none_held = q.none_held; free = refl };
        valid = record { owned = λ none. ground (arith, none); unowned = λ none. refl };
        recorded = λ u. ground (arith, v.recorded u, holds, e);
        awake = elim (woken-awake s.lock.lk_wchan s.runnable) [
          | inl none ↦ inl none
          | inr more ↦ inr (inr more)
        ];
      })
      | inr e ↦ rw e (record {
        quiet = record { real = q.real; none_held = q.none_held; free = refl };
        valid = record {
          owned = λ _. ground (arith, holds);
          unowned = λ none. ground (arith, none, taken, e);
        };
        recorded = λ u. ground (arith, v.recorded u, holds, e);
        awake = inr (inl (ground (arith, taken, e)));
      })
    ]

holding-taken :
    (s : System) (t : ℕ) → t ≢ null → lock_holding s.lock t ≡ true → Inv s → 0 < s.lock.lk_count
unfolding lock_holding
holding-taken s t real holds v = ground (arith, holds, v.valid.unowned)

acquire-Inv :
    (s : System) (t : ℕ) {r : Bool × Machine × Lock}
    → t ≢ null
    → Inv s
    → lock_acquire s.machine s.lock false t ≡ ok r
    → (lock_holding s.lock t ≡ true → s.lock.lk_count + 1 < 2 ^ 31)
    → Inv (after_acquire s s.runnable t r)
acquire-Inv s t real v run room =
    subst (λ r. Inv (after_acquire s s.runnable t r))
      (ok_injective (sym (lock_acquire_lem s.machine s.lock v.valid t real v.quiet room) ∙ run))
      (entered-Inv s t real v)

pub Step-Inv : (s t : System) → Step s t → Inv s → Inv t
unfolding after_acquire after_release
Step-Inv s t (call_acquire k real run) v = elim (Bool-cases (ltb (s.lock.lk_count + 1) (2 ^ 31))) [
  | inl e ↦ acquire-Inv s k real v run (λ _. ltb→lt _ _ e)
  | inr full ↦ elim (Bool-cases (lock_holding s.lock k)) [
    | inl e ↦
        absurd (cc (lock_acquire_overflow s.machine s.lock v.valid k real v.quiet e full, run))
    | inr e ↦ acquire-Inv s k real v run (λ holds. absurd (cc (e, holds)))
  ]
]
Step-Inv s t (resume_acquire before k behind on real at run) v =
    subst (λ r. Inv (after_acquire s (before ++ behind) k r))
      (ok_injective (sym (lock_resume_lem s.machine s.lock v.valid k real on v.quiet) ∙ run))
      (passed-Inv s k (before ++ behind) on (after s.machine) real (after-IsQuiet v.quiet) v)
Step-Inv s t (call_release k real run) v = elim (Bool-cases (lock_holding s.lock k)) [
  | inl e ↦
      let taken : 0 < s.lock.lk_count = holding-taken s k real e v in
      subst (λ r. Inv (after_release s k r))
        (ok_injective (
          sym (
            lock_release_lem s.machine s.lock v.valid k real s.runnable
              (record { real = v.quiet.real; counted = omega (arith, v.quiet.none_held) })
              v.quiet.free e taken)
          ∙ run))
        (given_back-Inv s k real e taken v)
  | inr e ↦
      absurd (cc (lock_release_refused s.machine s.lock v.valid k real s.runnable v.quiet e, run))
]

pub Reach-Inv : (m : Machine) (s : System) → m.thiscpu ≢ null → m.spinlocks ≡ 0 → Reach m s → Inv s
unfolding lock_create spinlock_init lock_holding
Reach-Inv m s real none (start made) =
    subst (λ l. Inv (start_system m l)) (some-injective _ _ made)
      (record {
        quiet = record { real = real; none_held = none; free = refl };
        valid = record { owned = λ more. absurd (omega (arith, more)); unowned = λ none. refl };
        recorded = λ t. refl;
        awake = inl refl;
      })
Reach-Inv m s real none (later {s = r} reach step) =
    Step-Inv r s step (Reach-Inv m r real none reach)

-- In every state that calls of lock_acquire and lock_release reach from a new lock, on a processor
-- that holds no spinlock: two different threads never both have the lock, a thread has it
-- exactly while its calls of lock_acquire that are through outnumber its calls of lock_release,
-- `lk_count` is the difference, and while threads sleep on a free lock some woken thread is about
-- to try to take it.
pub lock_excludes :
    (m : Machine) (s : System)
    → m.thiscpu ≢ null
    → m.spinlocks ≡ 0
    → Reach m s
    → ((t u : ℕ) → 0 < s.takes t → 0 < s.takes u → t ≡ u)
      × ((t : ℕ) → s.takes t ≡ (if lock_holding s.lock t then s.lock.lk_count else 0))
      × (s.lock.lk_wchan ≢ [] → s.lock.lk_count ≡ 0 → 0 < length s.runnable)
unfolding lock_holding
lock_excludes m s real none reach =
    let v = Reach-Inv m s real none reach in
    (
      λ t u one other. ground (arith, v.recorded t, v.recorded u, one, other),
      v.recorded,
      λ sleeps free. ground (arith, v.awake),
    )
