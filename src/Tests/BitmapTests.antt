-- ===== src/Tests/BitmapTests.antt =====
-- klib/bitmap.c and its theorems at a bitmap of ten bits.

use jinx_os.Base.{ℕ, zero, suc, ◌<◌, ◌≡◌, refl, some, [], ◌∷◌, arith, get_or, ok, Returns}
use jinx_os.Kernel.{kmalloc_ok, store}
use jinx_os.Bitmap.{Bitmap, mark_extra, bitmap_create, bitmap_alloc, alloc_loop, find_clear}
use jinx_os.Bitmap.Marks.{IsValid}
use jinx_os.Bitmap.Alloc.{Allocated, bitmap_alloc_lem}
use jinx_os.Tests.ArrayTests.{always}

create_ten : bitmap_create always 10 ≡ ok (some (record { bits = 10; bytes = 0 ∷ 0xfc ∷ [] }))
unfolding bitmap_create kmalloc_ok mark_extra store
create_ten = refl

-- Bits 0 to 2 are set.
abbrev ten : Bitmap
ten = record { bits = 10; bytes = 7 ∷ 0xfc ∷ [] }

alloc_ten : bitmap_alloc ten ≡ ok (0, some 3, record { bits = 10; bytes = 15 ∷ 0xfc ∷ [] })
unfolding bitmap_alloc alloc_loop find_clear store
alloc_ten = refl

-- One byte, bits 0 to 2 set.
abbrev eight : Bitmap
eight = record { bits = 8; bytes = 7 ∷ [] }

eight-bytes : (i : ℕ) → get_or eight.bytes i 0 < 256
eight-bytes zero = omega arith
eight-bytes (suc i) = omega arith

eight-IsValid : IsValid eight
eight-IsValid = record {
  small = omega arith;
  room = refl;
  bytes = λ i. eight-bytes i;
  padding = λ j p q. absurd (omega arith);
}

bitmap_alloc_lem_example : Returns (Allocated eight eight-IsValid) (bitmap_alloc eight)
bitmap_alloc_lem_example = bitmap_alloc_lem eight eight-IsValid
