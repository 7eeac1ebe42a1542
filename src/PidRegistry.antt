-- ===== src/PidRegistry.antt =====
-- proc/pidreg.c: the numbers of processes. Of the registrar's lock only the calling thread's takes
-- are kept, since Lock shows that no other thread has it meanwhile; the bitmap is that of
-- klib/bitmap.c, and the queue of numbers to use again is the list of values that it holds.
pub mod Numbers
pub mod Issue
use jinx_os.Base.{
  ℕ, ◌+◌, ◌-◌, Bool, true, false, not, ◌||◌, Option, none, some, List, [], ◌∷◌, ◌++◌, ltb, ◌==◌,
  if◌then◌else◌, Run, ok, panic, ◌>>=◌, ◌>>◌, check,
}
use jinx_os.Kernel.{emproc}
use jinx_os.Bitmap.{Bitmap, bitmap_create, bitmap_mark, bitmap_unmark, bitmap_isset}

-- NPID and PID_MIN
abbrev pub npid : ℕ
npid = 1024

abbrev pub pid_min : ℕ
pid_min = 1

-- struct pid_registrar
pub record PidRegistrar : Type 0 where
  pub lk : ℕ
  pub pmap : Bitmap
  pub pid_reuse : List ℕ
  pub pcounter : ℕ

-- lock_acquire and lock_release of the registrar's lock.
abbrev pub take_lock : PidRegistrar → PidRegistrar
take_lock r = record r { lk = r.lk + 1 }

abbrev pub give_lock : PidRegistrar → Run PidRegistrar
give_lock r = check (ltb 0 r.lk) >> ok (record r { lk = r.lk - 1 })

abbrev pub nothing_waits : List ℕ → Bool
nothing_waits [] = true
nothing_waits (pid ∷ rest) = false

-- pidreg_create: every refusal stops the kernel. `served` says whether the requests but those of
-- bitmap_create are met.
unfoldable pub pidreg_create : Bool → (ℕ → Bool) → Run PidRegistrar
pidreg_create served granted = do
  check served
  made ← bitmap_create granted npid
  elim made [
    | none ↦ panic
    | some pmap ↦ ok (record { lk = 0; pmap = pmap; pid_reuse = []; pcounter = pid_min })
  ]

unfoldable pub pid_available : PidRegistrar → Run (Bool × PidRegistrar)
pid_available r = do
  let mine = take_lock r
  let res = ltb mine.pcounter npid || not (nothing_waits mine.pid_reuse)
  left ← give_lock mine
  ok (res, left)

-- `pid` in pidreg_getpid: the first number to use again, or the next new one.
abbrev pub next_pid : PidRegistrar → List ℕ → ℕ × PidRegistrar
next_pid r [] = (r.pcounter, record r { pcounter = r.pcounter + 1 })
next_pid r (pid ∷ rest) = (pid, record r { pid_reuse = rest })

-- pidreg_getpid; `none` is the kpidreg that is still NULL.
unfoldable pub pidreg_getpid : Bool → (ℕ → Bool) → Option PidRegistrar → Run (ℕ × PidRegistrar)
pidreg_getpid served granted kpidreg = do
  r ← elim kpidreg [ none ↦ pidreg_create served granted | some reg ↦ ok reg ]
  (available, mine) ← pid_available (take_lock r)
  if not available then ok (emproc, mine) else (do
    let (pid, less) = next_pid mine mine.pid_reuse
    marked ← bitmap_isset less.pmap pid
    check (not marked)
    pmap ← bitmap_mark less.pmap pid
    left ← give_lock (record less { pmap = pmap })
    ok (pid, left))

unfoldable pub pid_used : PidRegistrar → ℕ → Run (Bool × PidRegistrar)
pid_used r pid = do
  check (ltb pid npid)
  let mine = take_lock r
  res ← if ltb pid mine.pcounter then bitmap_isset mine.pmap pid else ok false
  left ← give_lock mine
  ok (res, left)

-- pidreg_returnpid: what queue_ts_push returns is not looked at; `pushed` says whether it had memory.
unfoldable pub pidreg_returnpid : Bool → PidRegistrar → ℕ → Run PidRegistrar
pidreg_returnpid pushed r pid = do
  (used, left) ← pid_used r pid
  check used
  let mine = take_lock left
  pmap ← bitmap_unmark mine.pmap pid
  let reuse = if pushed then mine.pid_reuse ++ pid ∷ [] else mine.pid_reuse
  give_lock (record mine { pmap = pmap; pid_reuse = reuse })
