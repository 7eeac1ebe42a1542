-- ===== src/Semaphore/Steps.antt =====
-- synch/semaphore.c: one semaphore and any number of threads, whose calls interleave in any order.
use jinx_os.Base.{
  ℕ, ◌+◌, ◌^◌, ◌≤◌, ◌<◌, ◌≡◌, ◌≢◌, ◌⊎◌, inl, inr, refl, sym, ap, subst, ◌∙◌, Bool, true, false,
  List, [], ◌∷◌, ◌++◌, arith, ltb, ltb→lt, ◌==◌, ==→eq, Bool-cases, length, length-append, ok,
  ok_injective, some, some-injective,
}
use jinx_os.Kernel.{null}
use jinx_os.Spinlock.{Machine, spinlock_init}
use jinx_os.Spinlock.Quiet.{IsQuiet, after-IsQuiet, asleep-IsQuiet}
use jinx_os.WaitChannel.Waking.{woken}
use jinx_os.Semaphore.{Semaphore, semaphore_create, semaphore_p, p_resume, semaphore_v}
use jinx_os.Semaphore.Calls.{
  roused-IsQuiet, passed, raised, semaphore_p_lem, p_resume_lem, semaphore_v_lem,
  semaphore_v_overflow,
}

-- `runnable` are the threads that V has woken and that have not run since; `taken` and `given` count
-- the calls of P that are through and the calls of V.
pub record System : Type 0 where
  pub machine : Machine
  pub sem : Semaphore
  pub runnable : List ℕ
  pub taken : ℕ
  pub given : ℕ

abbrev pub one_if : Bool → ℕ
one_if true = 1
one_if false = 0

-- A thread calls P, a woken thread goes on in P, or a thread calls V.
pub data Step (s : System) : System → Type 0 where
  call_p :
      (t : ℕ) {through : Bool} {m : Machine} {sem : Semaphore}
      → semaphore_p s.machine s.sem false t ≡ ok (through, m, sem)
      → Step s (record s { machine = m; sem = sem; taken = s.taken + one_if through })
  resume_p :
      (before : List ℕ) (t : ℕ) (behind : List ℕ) {through : Bool} {m : Machine} {sem : Semaphore}
      → s.runnable ≡ before ++ t ∷ behind
      → p_resume s.machine s.sem false t ≡ ok (through, m, sem)
      → Step s (record s {
        machine = m;
        sem = sem;
        runnable = before ++ behind;
        taken = s.taken + one_if through;
      })
  call_v :
      {m : Machine} {sem : Semaphore} {runnable : List ℕ}
      → semaphore_v s.machine s.sem s.runnable ≡ ok (m, sem, runnable)
      → Step s (record s { machine = m; sem = sem; runnable = runnable; given = s.given + 1 })

abbrev pub start_system : Machine → Semaphore → System
start_system m sem = record { machine = m; sem = sem; runnable = []; taken = 0; given = 0 }

pub data Reach (m : Machine) (initial : ℕ) : System → Type 0 where
  start :
      {sem : Semaphore}
      → semaphore_create true true true initial ≡ some sem
      → Reach m initial (start_system m sem)
  later : {s t : System} → Reach m initial s → Step s t → Reach m initial t

-- Every unit is either in the count or taken; and while threads sleep, there are at least as many
-- woken threads as units to take.
pub record Inv (initial : ℕ) (s : System) : Type 0 where
  pub quiet : IsQuiet s.machine s.sem.sem_lock
  pub kept : s.sem.sem_count + s.taken ≡ initial + s.given
  pub word : s.sem.sem_count < 2 ^ 32
  pub awake : (s.sem.sem_wchan ≡ []) ⊎ (s.sem.sem_count ≤ length s.runnable)

-- The state after a pass of P, with what is left of the run queue.
abbrev after_p : System → List ℕ → Bool × Machine × Semaphore → System
after_p s runnable (through, m, sem) = record s {
  machine = m;
  sem = sem;
  runnable = runnable;
  taken = s.taken + one_if through;
}

-- A pass of P keeps the invariant where it uses up at most one woken thread.
passed-Inv :
    (initial : ℕ) (s : System) (t : ℕ) (runnable : List ℕ)
    → Inv initial s
    → length s.runnable ≤ length runnable + 1
    → Inv initial (after_p s runnable (passed s.sem t s.machine))
passed-Inv initial s t runnable v less = elim (Bool-cases (s.sem.sem_count == 0)) [
  | inl e ↦ rw e (record {
    quiet = asleep-IsQuiet v.quiet;
    kept = omega (arith, v.kept);
    word = v.word;
    awake = inr (omega (arith, ==→eq _ _ e));
  })
  | inr e ↦ rw e (record {
    quiet = after-IsQuiet v.quiet;
    kept = ground (arith, v.kept);
    word = omega (arith, v.word);
    awake = elim v.awake [ inl none ↦ inl none | inr enough ↦ inr (ground arith) ];
  })
]

woken-awake :
    (threads runnable : List ℕ) (count : ℕ)
    → (threads ≡ []) ⊎ (count ≤ length runnable)
    → ((woken threads runnable).0 ≡ []) ⊎ (count + 1 ≤ length (woken threads runnable).1)
woken-awake [] runnable count h = inl refl
woken-awake (t ∷ rest) runnable count h = ground (arith, length-append runnable (t ∷ []))

after_v : System → Machine × Semaphore × List ℕ → System
after_v s (m, sem, runnable) = record s {
  machine = m;
  sem = sem;
  runnable = runnable;
  given = s.given + 1;
}

raised-Inv :
    (initial : ℕ) (s : System)
    → Inv initial s
    → s.sem.sem_count + 1 < 2 ^ 32
    → Inv initial (after_v s (raised s.sem s.runnable s.machine))
unfolding after_v
raised-Inv initial s v room = record {
  quiet = roused-IsQuiet s.sem.sem_wchan v.quiet;
  kept = omega (arith, v.kept);
  word = room;
  awake = woken-awake s.sem.sem_wchan s.runnable s.sem.sem_count v.awake;
}

pub Step-Inv : (initial : ℕ) (s t : System) → Step s t → Inv initial s → Inv initial t
unfolding after_v
Step-Inv initial s t (call_p k run) v =
    subst (λ r. Inv initial (after_p s s.runnable r))
      (ok_injective (sym (semaphore_p_lem s.machine s.sem v.quiet k) ∙ run))
      (passed-Inv initial s k s.runnable v (omega arith))
Step-Inv initial s t (resume_p before k behind at run) v =
    subst (λ r. Inv initial (after_p s (before ++ behind) r))
      (ok_injective (sym (p_resume_lem s.machine s.sem v.quiet k) ∙ run))
      (passed-Inv initial s k (before ++ behind) v (
        omega
          (arith, ap length at, length-append before (k ∷ behind), length-append before behind)))
Step-Inv initial s t (call_v run) v = elim (Bool-cases (ltb (s.sem.sem_count + 1) (2 ^ 32))) [
  | inl e ↦
      let room = ltb→lt _ _ e in
      subst (λ r. Inv initial (after_v s r))
        (ok_injective (sym (semaphore_v_lem s.machine s.sem v.quiet s.runnable room) ∙ run))
        (raised-Inv initial s v room)
  | inr e ↦
      let full : s.sem.sem_count + 1 ≡ 2 ^ 32 = ground (arith, v.word) in
      absurd (cc (semaphore_v_overflow s.machine s.sem v.quiet s.runnable full, run))
]

pub Reach-Inv :
    (m : Machine) (initial : ℕ) (s : System)
    → m.thiscpu ≢ null
    → m.spinlocks ≡ 0
    → initial < 2 ^ 32
    → Reach m initial s
    → Inv initial s
unfolding semaphore_create spinlock_init
Reach-Inv m initial s real none small (start made) =
    subst (λ l. Inv initial (start_system m l)) (some-injective _ _ made)
      (record {
        quiet = record { real = real; none_held = none; free = refl };
        kept = omega arith;
        word = small;
        awake = inl refl;
      })
Reach-Inv m initial s real none small (later {s = r} reach step) =
    Step-Inv initial r s step (Reach-Inv m initial r real none small reach)

-- In every state that calls of P and V reach from a semaphore of `initial` units, on a processor that
-- holds no spinlock: no unit is lost or made (the count and the calls of P that are through are
-- the initial units and the calls of V), and while a thread sleeps though there are units, some
-- woken thread is about to take one.
pub semaphore_safe :
    (m : Machine) (initial : ℕ) (s : System)
    → m.thiscpu ≢ null
    → m.spinlocks ≡ 0
    → initial < 2 ^ 32
    → Reach m initial s
    → (s.sem.sem_count + s.taken ≡ initial + s.given)
      × (s.sem.sem_wchan ≢ [] → 0 < s.sem.sem_count → 0 < length s.runnable)
semaphore_safe m initial s real none small reach =
    let v = Reach-Inv m initial s real none small reach in
    (v.kept, λ sleeps units. ground (arith, v.awake))
