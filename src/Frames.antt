-- ===== src/Frames.antt =====
-- mem/pmm.c: the physical frames. `physmap` has a bit for every frame, set where the frame is in use,
-- and `frames` is what stands in a frame, as the 1024 entries of a page table.
use jinx_os.Base.{
  ℕ, ◌+◌, ◌-◌, ◌*◌, ◌/◌, ◌^◌, Bool, false, not, List, ltb, ◌==◌, if◌then◌else◌, replicate, Run, ok,
  fault, ◌>>=◌, ◌>>◌, check, deref,
}
use jinx_os.Kernel.{enospc, wrap}
use jinx_os.Bitmap.{Bitmap, bitmap_alloc, bitmap_mark, bitmap_unmark, bitmap_isset}

-- struct pte and struct pde of mem/vmm.h, which have the same fields; the bits that nothing here uses
-- are left out, and an assignment to `addr` keeps 20 bits.
pub record Entry : Type 0 where
  pub present : Bool
  pub write : Bool
  pub user : Bool
  pub addr : ℕ

-- TBL_SIZE
abbrev pub tbl_size : ℕ
tbl_size = 1024

abbrev pub empty_entry : Entry
empty_entry = record { present = false; write = false; user = false; addr = 0 }

pub record Physical : Type 0 where
  pub physmap : Bitmap
  pub npages : ℕ
  pub frames : ℕ → List Entry

-- KADDR
abbrev pub kaddr : ℕ
kaddr = 0xC0000000

-- The frame that stands at an address of the kernel, where the frames follow each other from KADDR
-- on; below that the kernel has no frames.
unfoldable pub frame_at : ℕ → Run ℕ
frame_at va = if ltb va kaddr then fault else ok ((va - kaddr) / 2 ^ 12)

-- PM2VA, and what stands there: the sum wraps from frame 2 ^ 18 on.
unfoldable pub pm2va : ℕ → Run ℕ
pm2va pm = frame_at (wrap (wrap (pm * 2 ^ 12) + kaddr))

-- `memset(va, 0, PG_SIZE)`, on the frame that stands at `va`.
unfoldable pub clear_frame : (ℕ → List Entry) → ℕ → ℕ → List Entry
clear_frame frames idx = λ a. if a == idx then replicate tbl_size empty_entry else frames a

unfoldable pub pp_alloc : Physical → Run (ℕ × Physical)
pp_alloc p = do
  (ret, idx, physmap) ← bitmap_alloc p.physmap
  check (not (ret == enospc))
  i ← deref idx
  page ← pm2va i
  ok (i, record p { physmap = physmap; frames = clear_frame p.frames page })

-- `pa >> PG_NBITS`
abbrev pub frame_of : ℕ → ℕ
frame_of pa = pa / 2 ^ 12

unfoldable pub pp_free : Physical → ℕ → Run Physical
pp_free p pa = do
  check (ltb (frame_of pa) p.npages)
  used ← bitmap_isset p.physmap (frame_of pa)
  check used
  physmap ← bitmap_unmark p.physmap (frame_of pa)
  ok (record p { physmap = physmap })

-- pa_alloc; `idx - 1` wraps at frame 0.
unfoldable pub pa_alloc : Physical → ℕ → Run Physical
pa_alloc p pa = do
  check (ltb (frame_of pa) p.npages)
  before ← bitmap_isset p.physmap (wrap (frame_of pa + 2 ^ 32 - 1))
  check before
  used ← bitmap_isset p.physmap (frame_of pa)
  check (not used)
  page ← pm2va (frame_of pa)
  physmap ← bitmap_mark p.physmap (frame_of pa)
  ok (record p { physmap = physmap; frames = clear_frame p.frames page })
