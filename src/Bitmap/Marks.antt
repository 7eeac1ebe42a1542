-- ===== src/Bitmap/Marks.antt =====
-- klib/bitmap.c: bitmap_mark, bitmap_unmark and bitmap_isset against a map from indices to bits.
use Prim.Native.Nat.{bit_and}
use jinx_os.Base.{
  ℕ, ◌*◌, ◌/◌, ◌%◌, ◌^◌, ◌<◌, ◌≤◌, ◌≡◌, refl, ◌∙◌, Bool, true, false, arith, lt→ltb, ◌==◌,
  if◌then◌else◌, get_or, length, set, length-set, get_elem?-get_or, ok, panic, Returns, returns,
}
use jinx_os.Kernel.{store}
use jinx_os.Bitmap.{Bitmap, mask, byte_count, bitmap_mark, bitmap_unmark, bitmap_isset}
use jinx_os.Bitmap.Bits.{
  test, test-or, or-lt, test-and, and-lt, bit, AreBytes, AreBytes-set, bit-set,
}

-- Enough bytes for the bits, and every bit behind the last one marked.
pub record IsValid (b : Bitmap) : Type 0 where
  pub small : b.bits ≤ 2 ^ 31
  pub room : length b.bytes ≡ byte_count b.bits
  pub bytes : AreBytes b.bytes
  pub padding : (j : ℕ) → b.bits ≤ j → j < 8 * length b.bytes → bit b.bytes j ≡ true

-- `c` is `b` with bit `idx` set to `x`.
pub record Changed (b : Bitmap) (idx : ℕ) (x : Bool) (c : Bitmap) : Type 0 where
  pub valid : IsValid c
  pub size : c.bits ≡ b.bits
  pub bits : (j : ℕ) → bit c.bytes j ≡ (if idx == j then x else bit b.bytes j)

module _ (b : Bitmap) (v : IsValid b) (idx : ℕ) where
  -- For an index in range, bitmap_isset reads the bit.
  pub bitmap_isset_lem : idx < b.bits → bitmap_isset b idx ≡ ok (bit b.bytes idx)
  unfolding bitmap_isset bit test
  bitmap_isset_lem h =
      rw (lt→ltb _ _ h, get_elem?-get_or b.bytes (idx / 8) 0 (omega (arith, v.room, v.small)))

  clear_test :
      bit b.bytes idx ≡ false → (bit_and (get_or b.bytes (idx / 8) 0) (mask (idx % 8)) == 0) ≡ true
  unfolding bit test
  clear_test h = ground arith

  set_test :
      bit b.bytes idx ≡ true → (bit_and (get_or b.bytes (idx / 8) 0) (mask (idx % 8)) == 0) ≡ false
  unfolding bit test
  set_test h = ground arith

  -- A new byte in which only the bit of `idx` may differ changes only that bit of the map.
  pub write-Changed :
      (byte : ℕ) (x : Bool)
      → idx < b.bits
      → byte < 256
      → ((m : ℕ)
          → m < 8
          → test byte m ≡ (if idx % 8 == m then x else test (get_or b.bytes (idx / 8) 0) m))
      → Changed b idx x (record b { bytes = set b.bytes (idx / 8) byte })
  unfolding bit
  write-Changed byte x h small at =
      let i = idx / 8 in
      let hi : i < length b.bytes = omega (arith, v.room, v.small) in
      let changed : (j : ℕ) → bit (set b.bytes i byte) j ≡ (if idx == j then x else bit b.bytes j) =
        λ j. ground (arith, bit-set b.bytes i byte j hi, at (j % 8)) in
      record {
        valid = record {
          small = v.small;
          room = length-set b.bytes i byte ∙ v.room;
          bytes = AreBytes-set b.bytes i byte v.bytes hi small;
          padding = λ j p q. ground (arith, changed j, v.padding j p, length-set b.bytes i byte);
        };
        size = refl;
        bits = changed;
      }

  -- On a valid bitmap, for an index in range whose bit is clear, bitmap_mark ends: it sets that bit
  -- and changes no other, and the bitmap stays valid.
  pub bitmap_mark_lem :
      idx < b.bits → bit b.bytes idx ≡ false → Returns (Changed b idx true) (bitmap_mark b idx)
  unfolding bitmap_mark store
  bitmap_mark_lem h clear =
      let i = idx / 8 in
      let hi : i < length b.bytes = omega (arith, v.room, v.small) in
      let byte = get_or b.bytes i 0 in
      rw (lt→ltb _ _ h, get_elem?-get_or b.bytes i 0 hi, clear_test clear, lt→ltb _ _ hi)
        (returns (
          write-Changed _ true h (or-lt byte (idx % 8) (v.bytes i) (omega arith))
            λ m hm. ground (arith, test-or byte (idx % 8) m (v.bytes i))))

  -- On a valid bitmap, for an index in range whose bit is set, bitmap_unmark ends: it clears that
  -- bit and changes no other, and the bitmap stays valid.
  pub bitmap_unmark_lem :
      idx < b.bits → bit b.bytes idx ≡ true → Returns (Changed b idx false) (bitmap_unmark b idx)
  unfolding bitmap_unmark store
  bitmap_unmark_lem h marked =
      let i = idx / 8 in
      let hi : i < length b.bytes = omega (arith, v.room, v.small) in
      let byte = get_or b.bytes i 0 in
      rw (lt→ltb _ _ h, get_elem?-get_or b.bytes i 0 hi, set_test marked, lt→ltb _ _ hi)
        (returns (
          write-Changed _ false h (and-lt byte (idx % 8) (v.bytes i) (omega arith))
            λ m hm. ground (arith, test-and byte (idx % 8) m (v.bytes i))))

  -- On a valid bitmap, for an index in range, bitmap_mark stops the kernel at a bit that is set,
  -- and bitmap_unmark at one that is clear.
  pub bitmap_double_panics :
      (x : Bool)
      → idx < b.bits
      → bit b.bytes idx ≡ x
      → (if x then bitmap_mark b idx else bitmap_unmark b idx) ≡ panic
  unfolding bitmap_mark bitmap_unmark
  bitmap_double_panics true h e =
      let hi : idx / 8 < length b.bytes = omega (arith, v.room, v.small) in
      rw (lt→ltb _ _ h, get_elem?-get_or b.bytes (idx / 8) 0 hi, set_test e)
  bitmap_double_panics false h e =
      let hi : idx / 8 < length b.bytes = omega (arith, v.room, v.small) in
      rw (lt→ltb _ _ h, get_elem?-get_or b.bytes (idx / 8) 0 hi, clear_test e)
