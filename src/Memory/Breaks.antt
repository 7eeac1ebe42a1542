-- ===== src/Memory/Breaks.antt =====
-- mem/mem.c and mem/kmm.c: what mem_sbrk and kpalloc hand out.
use jinx_os.Base.{
  ℕ, ◌+◌, ◌-◌, ◌*◌, ◌/◌, ◌%◌, ◌^◌, ◌≤◌, ◌<◌, ◌≡◌, refl, false, arith, ltb, lt→ltb, ok, panic,
}
use jinx_os.Kernel.{wrap}
use jinx_os.Memory.{Memory, round_up, init_mem, mem_sbrk, mem_heapsize, kpalloc}

-- The breaks are in order, at page boundaries, and far from the end of the addresses.
pub record IsMemory (m : Memory) : Type 0 where
  pub low : m.kbrk_min ≤ m.kbrk
  pub high : m.kbrk ≤ m.kbrk_max
  pub top : m.kbrk_max < 2 ^ 32 - 2 ^ 24
  pub floor : 4096 ≤ m.kbrk_min
  pub pages : m.kbrk % 4096 ≡ 0
  pub top_pages : m.kbrk_max % 4096 ≡ 0

-- The size in whole pages.
abbrev pub page_bytes : ℕ → ℕ
page_bytes incr = (incr + 4095) / 4096 * 4096

ge→ltb : (a b : ℕ) → b ≤ a → ltb a b ≡ false
ge→ltb a b h = ground (arith, h)

round_up_lem : (incr : ℕ) → incr ≤ 2 ^ 24 → round_up incr 4096 ≡ page_bytes incr
round_up_lem incr small = omega arith

-- On memory in order, for a request of at most 16 MB: mem_sbrk returns the old break and moves it up
-- by the request in whole pages where these fit under the top, keeping the memory in order, and
-- stops the kernel where they do not.
pub mem_sbrk_lem :
    (m : Memory) (incr : ℕ)
    → IsMemory m
    → incr ≤ 2 ^ 24
    → (m.kbrk + page_bytes incr ≤ m.kbrk_max
        → (mem_sbrk m incr ≡ ok (m.kbrk, record m { kbrk = m.kbrk + page_bytes incr }))
          × IsMemory (record m { kbrk = m.kbrk + page_bytes incr }))
      × (m.kbrk_max < m.kbrk + page_bytes incr → mem_sbrk m incr ≡ panic)
unfolding mem_sbrk
mem_sbrk_lem m incr v small =
    let fits : wrap (m.kbrk + page_bytes incr) ≡ m.kbrk + page_bytes incr =
      omega (arith, v.high, v.top) in
    (
      λ room. (
        rw (round_up_lem incr small, fits, ge→ltb _ _ room) refl,
        record {
          low = omega (arith, v.low);
          high = room;
          top = v.top;
          floor = v.floor;
          pages = omega (arith, v.pages);
          top_pages = v.top_pages;
        },
      ),
      λ full. rw (round_up_lem incr small, fits, lt→ltb _ _ full) refl,
    )

-- A request of nearly 2 ^ 32 bytes wraps around to 0 and is met with nothing at all.
pub mem_sbrk_wraps :
    (m : Memory) (incr : ℕ)
    → IsMemory m
    → 2 ^ 32 - 4096 < incr
    → incr < 2 ^ 32
    → mem_sbrk m incr ≡ ok (m.kbrk, m)
unfolding mem_sbrk
mem_sbrk_wraps m incr v big small =
    let nothing : round_up incr 4096 ≡ 0 = omega arith in
    let same : wrap (m.kbrk + 0) ≡ m.kbrk = omega (arith, v.high, v.top) in
    rw (nothing, same, ge→ltb _ _ v.high) refl

page-lem : (m : Memory) → IsMemory m → (kpalloc m).0 ≡ m.kbrk_max - 4096
unfolding kpalloc
page-lem m v = omega (arith, v.low, v.high, v.top, v.floor, v.top_pages)

-- On memory in order with a free page between the breaks, kpalloc returns the page below the top,
-- which the heap does not reach, and the memory stays in order.
pub kpalloc_lem :
    (m : Memory)
    → IsMemory m
    → m.kbrk + 4096 ≤ m.kbrk_max
    → ((kpalloc m).0 + 4096 ≡ m.kbrk_max) × (m.kbrk ≤ (kpalloc m).0) × IsMemory (kpalloc m).1
unfolding kpalloc
kpalloc_lem m v room = (
  omega (arith, page-lem m v, room),
  omega (arith, page-lem m v, room),
  record {
    low = v.low;
    high = omega (arith, page-lem m v, room);
    top = omega (arith, page-lem m v, v.top);
    floor = v.floor;
    pages = v.pages;
    top_pages = omega arith;
  },
)

-- On memory in order without a free page between the breaks, kpalloc does not fail: it returns a page
-- that begins below the heap's break, and the breaks cross; where the heap has a page at least, the
-- page begins at an address of the heap.
pub kpalloc_collides :
    (m : Memory)
    → IsMemory m
    → m.kbrk_max < m.kbrk + 4096
    → ((kpalloc m).0 < m.kbrk)
      × ((kpalloc m).1.kbrk_max < (kpalloc m).1.kbrk)
      × (m.kbrk_min + 4096 ≤ m.kbrk → m.kbrk_min ≤ (kpalloc m).0)
unfolding kpalloc
kpalloc_collides m v full = (
  omega (arith, page-lem m v, full, v.floor, v.low),
  omega (arith, page-lem m v, full, v.floor, v.low),
  λ some_page. omega (arith, page-lem m v, v.high),
)

-- For an end of the kernel's image from 1 on and below 2 ^ 32 - 2 ^ 25, init_mem leaves memory in
-- order with an empty heap and 8 MB to hand out.
pub init_mem_lem :
    (kheap : ℕ)
    → 0 < kheap
    → kheap < 2 ^ 32 - 2 ^ 25
    → IsMemory (init_mem kheap)
      × (kheap ≤ (init_mem kheap).kbrk_min)
      × (mem_heapsize (init_mem kheap) ≡ 0)
      × ((init_mem kheap).kbrk_max ≡ (init_mem kheap).kbrk + 8 * 2 ^ 20)
unfolding init_mem mem_heapsize
init_mem_lem kheap pos small = (
  record {
    low = omega arith;
    high = omega arith;
    top = omega arith;
    floor = omega arith;
    pages = omega arith;
    top_pages = omega arith;
  },
  omega arith,
  omega arith,
  omega arith,
)
