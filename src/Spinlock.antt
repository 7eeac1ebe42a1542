-- ===== src/Spinlock.antt =====
-- synch/spinlock.c, and the interrupt flag of include/x86.h, on a machine with one processor: the
-- address of its struct cpu (`NULL` while there is none), its count of spinlocks, its interrupt flag,
-- and `iflag`, the one static variable that all spinlocks share. Between processors, which would write
-- over each other's `iflag`, nothing is said.
pub mod Pairs
pub mod Quiet
use jinx_os.Base.{
  ℕ, ◌+◌, ◌-◌, ◌%◌, ◌^◌, Bool, true, false, not, ◌&&◌, List, [], ◌∷◌, ◌==◌, if◌then◌else◌, Run, ok,
  out_of_fuel, ◌>>=◌, ◌>>◌, check,
}
use jinx_os.Kernel.{wrap, null}

pub record Machine : Type 0 where
  pub thiscpu : ℕ
  pub spinlocks : ℕ
  pub interrupts : Bool
  pub iflag : Bool

-- struct spinlock
pub record Spinlock : Type 0 where
  pub locked : ℕ
  pub cpu : ℕ

-- cli and ifx of include/x86.h
unfoldable pub cli : Machine → Bool × Machine
cli m = (m.interrupts, record m { interrupts = false })

unfoldable pub ifx : Machine → Bool → Machine
ifx m set = record m { interrupts = if set then true else m.interrupts }

unfoldable pub spinlock_held : Machine → Spinlock → Bool
spinlock_held m lk = not (lk.locked == 0) && (lk.cpu == m.thiscpu)

-- spinlock_init leaves a free lock.
unfoldable pub spinlock_init : Spinlock
spinlock_init = record { locked = 0; cpu = null }

-- `while (xchg(&lk->locked, 1) != 0)`, over the values that `xchg` finds in turn.
unfoldable pub spin : List ℕ → Run (Unit {0})
spin [] = out_of_fuel
spin (found ∷ later) = let again = spin later in if found == 0 then ok tt else again

unfoldable pub spinlock_acquire : Machine → Spinlock → List ℕ → Run (Machine × Spinlock)
spinlock_acquire m lk found = do
  check (not (spinlock_held m lk))
  let (on, off) = cli m
  spin found
  if m.thiscpu == null
      then ok (record off { iflag = on }, record lk { locked = 1 })
      else ok (
        record off { iflag = on; spinlocks = wrap (m.spinlocks + 1) },
        record { locked = 1; cpu = m.thiscpu },
      )

unfoldable pub spinlock_release : Machine → Spinlock → Run (Machine × Spinlock)
spinlock_release m lk = do
  check (spinlock_held m lk)
  if m.thiscpu == null
      then ok (ifx m m.iflag, record lk { locked = 0 })
      else ok (
        ifx (record m { spinlocks = wrap (m.spinlocks + 2 ^ 32 - 1) }) m.iflag,
        record { locked = 0; cpu = null },
      )

unfoldable pub spinlock_cleanup : Machine → Spinlock → Run Spinlock
spinlock_cleanup m lk = do check (not (spinlock_held m lk)); ok (record { locked = 0; cpu = null })
