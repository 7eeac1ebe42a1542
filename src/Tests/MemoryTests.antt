-- ===== src/Tests/MemoryTests.antt =====
-- mem/mem.c, mem/kmm.c and their theorems at small memories.
use jinx_os.Base.{◌+◌, ◌≤◌, ◌<◌, ◌≡◌, refl, List, [], ◌∷◌, arith, ok, panic}
use jinx_os.Memory.{Memory, init_mem, mem_sbrk, kpalloc}
use jinx_os.Memory.Breaks.{IsMemory, page_bytes, mem_sbrk_lem, kpalloc_collides}
use jinx_os.Memory.Regions.{
  Region, Reach, start, later, sbrk, palloc, AllApart, All, Inside, regions_apart,
}

-- Two pages of heap, and one free page.
abbrev small_memory : Memory
small_memory = record { kbrk_min = 4096; kbrk = 12288; kbrk_max = 16384 }

small_memory-IsMemory : IsMemory small_memory
small_memory-IsMemory = record {
  low = omega arith;
  high = omega arith;
  top = omega arith;
  floor = omega arith;
  pages = refl;
  top_pages = refl;
}

abbrev full_memory : Memory
full_memory = record { kbrk_min = 4096; kbrk = 12288; kbrk_max = 12288 }

full_memory-IsMemory : IsMemory full_memory
full_memory-IsMemory = record {
  low = omega arith;
  high = omega arith;
  top = omega arith;
  floor = omega arith;
  pages = refl;
  top_pages = refl;
}

mem_sbrk_lem_example :
    (12288 + page_bytes 10 ≤ 16384
      → (mem_sbrk small_memory 10
          ≡ ok (12288, record small_memory { kbrk = 12288 + page_bytes 10 }))
        × IsMemory (record small_memory { kbrk = 12288 + page_bytes 10 }))
    × (16384 < 12288 + page_bytes 10 → mem_sbrk small_memory 10 ≡ panic)
mem_sbrk_lem_example = mem_sbrk_lem small_memory 10 small_memory-IsMemory (omega arith)

kpalloc_collides_example :
    ((kpalloc full_memory).0 < 12288)
    × ((kpalloc full_memory).1.kbrk_max < (kpalloc full_memory).1.kbrk)
    × (full_memory.kbrk_min + 4096 ≤ full_memory.kbrk
        → full_memory.kbrk_min ≤ (kpalloc full_memory).0)
kpalloc_collides_example = kpalloc_collides full_memory full_memory-IsMemory (omega arith)

-- A new memory, from which the heap and then a page are taken.
abbrev first_heap : Memory
first_heap = record { kbrk_min = 3222278144; kbrk = 3222286336; kbrk_max = 3230666752 }

abbrev then_page : Memory
then_page = record { kbrk_min = 3222278144; kbrk = 3222286336; kbrk_max = 3230662656 }

abbrev two_regions : List Region
two_regions =
    record { from = 3230662656; to = 3230666752 }
    ∷ record { from = 3222278144; to = 3222286336 }
    ∷ []

reach_two : Reach 3222274049 then_page two_regions
unfolding init_mem mem_sbrk kpalloc
reach_two = later (later start (sbrk 5000 (omega arith) refl)) (palloc (omega arith))

regions_apart_example : AllApart two_regions × All (Inside then_page) two_regions
regions_apart_example =
    regions_apart 3222274049 then_page two_regions (omega arith) (omega arith) reach_two
