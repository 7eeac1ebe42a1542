-- ===== src/Bitmap.antt =====
-- klib/bitmap.c: a bitmap in bytes, with the bits behind its end marked.
pub mod Bits
pub mod Marks
pub mod Alloc
pub mod Create
use Prim.Native.Nat.{bit_and, bit_or}
use jinx_os.Base.{
  ℕ, zero, suc, ◌+◌, ◌-◌, ◌*◌, ◌/◌, ◌%◌, ◌^◌, Bool, true, false, not, ◌&&◌, Option, none, some,
  List, ltb, ◌==◌, if◌then◌else◌, get_elem?, replicate, Run, ok, panic, ◌>>=◌, ◌>>◌, check, deref,
}
use jinx_os.Kernel.{wrap, success, enospc, store, kmalloc_ok}

-- struct bitmap
pub record Bitmap : Type 0 where
  pub bits : ℕ
  pub bytes : List ℕ

-- DIVROUNDUP(bits, 8), in 32 bits.
abbrev pub byte_count : ℕ → ℕ
byte_count bits = wrap (bits + 7) / 8

-- `(uint8_t) 1 << n`
abbrev pub mask : ℕ → ℕ
mask n = 2 ^ n

-- bitmap_translate
abbrev pub bitmap_translate : ℕ → ℕ × ℕ
bitmap_translate bit = (bit / 8, mask (bit % 8))

-- `for (j = extra; j < 8; ++j) bytes[i] |= 1 << j`, over the rounds left.
unfoldable pub mark_extra : ℕ → ℕ → ℕ → ℕ
mark_extra zero byte j = byte
mark_extra (suc rounds) byte j = mark_extra rounds (bit_or byte (mask j)) (j + 1)

-- bitmap_create: no bitmap where `kmalloc` has no block for the struct or for the bytes.
unfoldable pub bitmap_create : (ℕ → Bool) → ℕ → Run (Option Bitmap)
bitmap_create granted bits =
    let bytes = byte_count bits in
    if not (kmalloc_ok granted 8)
    then ok none
    else if not (kmalloc_ok granted bytes)
    then ok none
    else if ltb (bits / 8) bytes
    then (do
      let i = bytes - 1
      check (bits / 8 == i)
      let extra = bits - i * 8
      check (ltb 0 extra && ltb extra 8)
      let block = replicate bytes 0
      byte ← deref (get_elem? block i)
      marked ← store block i (mark_extra (8 - extra) byte extra)
      ok (some (record { bits = bits; bytes = marked })))
    else ok (some (record { bits = bits; bytes = replicate bytes 0 }))

-- The inner loop of bitmap_alloc: the first clear bit of a byte from `n` on.
unfoldable pub find_clear : ℕ → ℕ → ℕ → Option ℕ
find_clear zero byte n = none
find_clear (suc rounds) byte n =
    let rest = find_clear rounds byte (n + 1) in if bit_and byte (mask n) == 0 then some n else rest

-- The outer loop: the error number, `*idx` where it is set, and the bytes.
unfoldable pub alloc_loop : ℕ → ℕ → List ℕ → ℕ → Run (ℕ × Option ℕ × List ℕ)
alloc_loop zero bits bytes i = ok (enospc, none, bytes)
alloc_loop (suc rounds) bits bytes i = do
  byte ← deref (get_elem? bytes i)
  let next = alloc_loop rounds bits bytes (i + 1)
  let here : Run (ℕ × Option ℕ × List ℕ) = elim (find_clear 8 byte 0) [
    | none ↦ panic
    | some n ↦ do
      marked ← store bytes i (bit_or byte (mask n))
      let idx = i * 8 + n
      check (ltb idx bits)
      ok (success, some idx, marked)
  ]
  if byte == 0xff then next else here

unfoldable pub bitmap_alloc : Bitmap → Run (ℕ × Option ℕ × Bitmap)
bitmap_alloc b = do
  (ret, idx, bytes) ← alloc_loop (byte_count b.bits) b.bits b.bytes 0
  ok (ret, idx, record b { bytes = bytes })

unfoldable pub bitmap_mark : Bitmap → ℕ → Run Bitmap
bitmap_mark b idx = do
  check (ltb idx b.bits)
  let (i, msk) = bitmap_translate idx
  byte ← deref (get_elem? b.bytes i)
  check (bit_and byte msk == 0)
  marked ← store b.bytes i (bit_or byte msk)
  ok (record b { bytes = marked })

-- `bytes[i] &= ~msk` keeps the low 8 bits of `~msk`, which are 255 - msk.
unfoldable pub bitmap_unmark : Bitmap → ℕ → Run Bitmap
bitmap_unmark b idx = do
  check (ltb idx b.bits)
  let (i, msk) = bitmap_translate idx
  byte ← deref (get_elem? b.bytes i)
  check (not (bit_and byte msk == 0))
  cleared ← store b.bytes i (bit_and byte (255 - msk))
  ok (record b { bytes = cleared })

unfoldable pub bitmap_isset : Bitmap → ℕ → Run Bool
bitmap_isset b idx = do
  check (ltb idx b.bits)
  let (i, msk) = bitmap_translate idx
  byte ← deref (get_elem? b.bytes i)
  ok (not (bit_and byte msk == 0))
