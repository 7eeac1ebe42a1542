-- ===== src/Paging.antt =====
-- mem/vmm.c: page directories and page tables. A directory or a table is named by its frame; PM2VA
-- finds a frame's place in the kernel's memory, where every frame is mapped.
pub mod Directory
pub mod Walk
pub mod Insertion
use jinx_os.Base.{
  ℕ, zero, suc, ◌+◌, ◌-◌, ◌*◌, ◌/◌, ◌%◌, ◌^◌, Bool, true, false, not, ◌&&◌, Option, none, some,
  List, ltb, ◌==◌, if◌then◌else◌, get_elem?, set, length, Run, ok, fault, ◌>>=◌, ◌>>◌, check, deref,
}
use jinx_os.Kernel.{success, wrap}
use jinx_os.Frames.{Entry, Physical, frame_of, pm2va, pp_alloc}

-- PDX and PTX
abbrev pub pdx : ℕ → ℕ
pdx va = va / 2 ^ 22 % 1024

abbrev pub ptx : ℕ → ℕ
ptx va = va / 2 ^ 12 % 1024

-- `table[i]`, and an assignment to it.
unfoldable pub entry_at : Physical → ℕ → ℕ → Run Entry
entry_at p table i = deref (get_elem? (p.frames table) i)

unfoldable pub set_entry : Physical → ℕ → ℕ → Entry → Physical
set_entry p table i e = record p {
  frames = λ a. if a == table then set (p.frames table) i e else p.frames a;
}

abbrev pub mapping : Bool → Bool → ℕ → Entry
mapping write user pno = record { present = true; write = write; user = user; addr = pno }

-- The four assignments to an entry.
unfoldable pub assigned : Bool → Bool → ℕ → Entry
assigned write user pno = mapping write user (pno % 2 ^ 20)

-- pgdir_walk: the frame and the index of the entry for `va`.
unfoldable pub pgdir_walk : Physical → ℕ → ℕ → Bool → Bool → Bool → Run (ℕ × ℕ × Physical)
pgdir_walk p pd va write user alloc = do
  pde ← entry_at p pd (pdx va)
  if not pde.present && alloc
      then (do
        (pno, q) ← pp_alloc p
        let e = assigned write user pno
        table ← pm2va e.addr
        ok (table, ptx va, set_entry q pd (pdx va) e))
      else (do table ← pm2va pde.addr; ok (table, ptx va, p))

-- page_insert; what pgdir_walk returns is an address above KADDR and never NULL.
unfoldable pub page_insert : Physical → ℕ → ℕ → ℕ → Bool → Bool → Run (ℕ × Physical)
page_insert p pgdir pno va write user = do
  (table, i, q) ← pgdir_walk p pgdir va write user true
  pg ← entry_at q table i
  check (not pg.present)
  ok (success, set_entry q table i (assigned write user pno))

-- The loop of boot_map, over the pages that are left.
unfoldable pub map_pages : ℕ → Physical → ℕ → ℕ → ℕ → Bool → Bool → Run Physical
map_pages zero p pd va pa write user = ok p
map_pages (suc pages) p pd va pa write user = do
  (table, i, q) ← pgdir_walk p pd va write user true
  pg ← entry_at q table i
  map_pages pages (set_entry q table i (assigned write user (frame_of pa))) pd (wrap (va + 2 ^ 12))
      (wrap (pa + 2 ^ 12)) write user

-- boot_map; above 2 ^ 32 - 2 ^ 12 bytes the loop's counter would wrap.
unfoldable pub boot_map : Physical → ℕ → ℕ → ℕ → ℕ → Bool → Bool → Run Physical
boot_map p pd va pa bytes write user =
    map_pages ((bytes + (2 ^ 12 - 1)) / 2 ^ 12) p pd va pa write user
