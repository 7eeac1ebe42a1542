-- ===== src/Tests/PagingTests.antt =====
-- mem/pmm.c, mem/vmm.c and their theorems: eight frames, of which 0 to 2 are in use, and a directory
-- without tables in frame 1.
use jinx_os.Base.{
  ℕ, zero, suc, ◌<◌, ◌≡◌, ◌≢◌, refl, ap, true, none, [], ◌∷◌, arith, get_or, length-replicate,
  replicate, Returns,
}
use jinx_os.Bitmap.{Bitmap}
use jinx_os.Bitmap.Bits.{bit, test}
use jinx_os.Bitmap.Marks.{IsValid}
use jinx_os.Frames.{empty_entry, tbl_size, Physical, pp_alloc}
use jinx_os.Paging.{page_insert}
use jinx_os.Paging.Directory.{at, translate, IsDirectory, empties}
use jinx_os.Paging.Walk.{HasRoom, Allotted, pp_alloc_lem}
use jinx_os.Paging.Insertion.{Inserted, page_insert_lem}

abbrev map : Bitmap
map = record { bits = 8; bytes = 7 ∷ [] }

map-bytes : (i : ℕ) → get_or map.bytes i 0 < 256
map-bytes zero = omega arith
map-bytes (suc i) = omega arith

map-IsValid : IsValid map
map-IsValid = record {
  small = omega arith;
  room = refl;
  bytes = λ i. map-bytes i;
  padding = λ j p q. absurd (omega arith);
}

abbrev physical : Physical
physical = record { physmap = map; npages = 8; frames = λ a. replicate tbl_size empty_entry }

absent : (i : ℕ) → (at physical 1 i).present ≡ true → (at physical 1 i).addr ≢ 1
absent i there = absurd (cc (ap (λ e. e.present) (empties tbl_size i), there))

directory : IsDirectory physical 1
unfolding bit test
directory = record {
  valid = map-IsValid;
  tables = λ a. length-replicate tbl_size empty_entry;
  used = refl;
  small = omega arith;
  table_small = λ i there. absurd (cc (ap (λ e. e.present) (empties tbl_size i), there));
  table_used = λ i there. absurd (cc (ap (λ e. e.present) (empties tbl_size i), there));
  table_apart = absent;
  table_own = λ i j there. absurd (cc (ap (λ e. e.present) (empties tbl_size i), there));
}

room : HasRoom physical
unfolding bit test
room = (3, omega arith, refl)

pp_alloc_lem_example : Returns (Allotted physical) (pp_alloc physical)
pp_alloc_lem_example = pp_alloc_lem physical map-IsValid (omega arith) room

unmapped : translate physical 1 0x00801000 ≡ none
unfolding translate
unmapped = refl

page_insert_lem_example :
    Returns (Inserted physical 1 0x00801000 2) (page_insert physical 1 2 0x00801000 true true)
page_insert_lem_example =
    page_insert_lem physical 1 0x00801000 2 true true directory room (omega arith) (omega arith)
      unmapped
