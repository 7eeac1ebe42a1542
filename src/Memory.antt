-- ===== src/Memory.antt =====
-- mem/mem.c and kpalloc of mem/kmm.c: the kernel's memory between `_end` and a fixed top. The heap
-- grows upwards from the low end (mem_sbrk) and pages are taken downwards from the high end
-- (kpalloc). Addresses are 32 bits.
pub mod Breaks
pub mod Regions
use jinx_os.Base.{
  ℕ, ◌+◌, ◌-◌, ◌*◌, ◌%◌, ◌^◌, Bool, true, false, List, [], ◌∷◌, ltb, ◌==◌, if◌then◌else◌, Run, ok,
  panic, ◌>>=◌,
}
use jinx_os.Kernel.{wrap}

-- PG_SIZE, MAX_HEAP, ROUNDDOWN and ROUNDUP
abbrev pub pg_size : ℕ
pg_size = 4096

abbrev pub max_heap : ℕ
max_heap = 8 * 2 ^ 20

abbrev pub round_down : ℕ → ℕ → ℕ
round_down a n = a - a % n

abbrev pub round_up : ℕ → ℕ → ℕ
round_up a n = round_down (wrap (wrap (a + n) + 2 ^ 32 - 1)) n

-- The variables of mem/mem.c.
pub record Memory : Type 0 where
  pub kbrk_min : ℕ
  pub kbrk : ℕ
  pub kbrk_max : ℕ

-- init_mem; `kheap` is the address of `_end`.
unfoldable pub init_mem : ℕ → Memory
init_mem kheap =
    let low = round_up kheap pg_size in
    record { kbrk_min = low; kbrk = low; kbrk_max = wrap (low + round_down max_heap pg_size) }

unfoldable pub mem_reset_brk : Memory → Memory
mem_reset_brk m = record m { kbrk = m.kbrk_min }

-- mem_sbrk: the old break, and the new one.
unfoldable pub mem_sbrk : Memory → ℕ → Run (ℕ × Memory)
mem_sbrk m incr =
    let size = round_up incr pg_size in
    if ltb m.kbrk_max (wrap (m.kbrk + size))
    then panic
    else ok (m.kbrk, record m { kbrk = wrap (m.kbrk + size) })

unfoldable pub mem_heap_lo : Memory → ℕ
mem_heap_lo m = m.kbrk_min

unfoldable pub mem_heap_hi : Memory → ℕ
mem_heap_hi m = wrap (m.kbrk + 2 ^ 32 - 1)

unfoldable pub mem_heapsize : Memory → ℕ
mem_heapsize m = wrap (m.kbrk + 2 ^ 32 - m.kbrk_min)

-- kpalloc under its spinlock: the page, which memset then clears.
unfoldable pub kpalloc : Memory → ℕ × Memory
kpalloc m =
    let kptr = round_down (wrap (m.kbrk_max + 2 ^ 32 - pg_size)) pg_size in
    (kptr, record m { kbrk_max = kptr })
