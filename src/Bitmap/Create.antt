-- ===== src/Bitmap/Create.antt =====
-- klib/bitmap.c, bitmap_create.
use jinx_os.Base.{
  ℕ, zero, suc, ◌-◌, ◌*◌, ◌/◌, ◌%◌, ◌^◌, ◌<◌, ◌≤◌, ◌≡◌, refl, sym, ap, ◌∙◌, inl, inr, Bool, true,
  false, some, List, arith, ltb, ltb→lt, lt→ltb, ◌==◌, eq→==, ne→==, Bool-cases, get_or, length,
  set, replicate, length-replicate, length-set, get_elem?, get_elem?-get_or, Returns, returns,
}
use jinx_os.Kernel.{store, kmalloc_ok}
use jinx_os.Bitmap.{Bitmap, byte_count, mark_extra, bitmap_create}
use jinx_os.Bitmap.Bits.{test-zero, test-mark_extra, mark_extra-lt, bit, bit-set, AreBytes-set}
use jinx_os.Bitmap.Marks.{IsValid}

-- A bitmap in which every bit in range is clear.
pub record IsClear (bits : ℕ) (b : Bitmap) : Type 0 where
  pub valid : IsValid b
  pub size : b.bits ≡ bits
  pub clear : (j : ℕ) → j < bits → bit b.bytes j ≡ false

pub get_or-zeros : (n i : ℕ) → ◌≡◌ {A = ℕ} (get_or (replicate n 0) i 0) 0
get_or-zeros zero i = refl
get_or-zeros (suc n) zero = refl
get_or-zeros (suc n) (suc i) = get_or-zeros n i

bit-zeros : (n j : ℕ) → bit (replicate n 0) j ≡ false
unfolding bit
bit-zeros n j = rw get_or-zeros (test-zero (j % 8) (omega arith))

whole-IsClear :
    (bits : ℕ)
    → bits ≤ 2 ^ 31
    → byte_count bits ≤ bits / 8
    → IsClear bits (record { bits = bits; bytes = replicate (byte_count bits) 0 })
whole-IsClear bits h exact = record {
  valid = record {
    small = h;
    room = length-replicate (byte_count bits) 0;
    bytes = λ i. rw get_or-zeros (omega arith);
    padding = λ j p q. absurd (omega (arith, length-replicate {0} {A = ℕ} (byte_count bits) 0));
  };
  size = refl;
  clear = λ j p. bit-zeros _ j;
}

module _ (bits : ℕ) (h : bits ≤ 2 ^ 31) (more : bits / 8 < byte_count bits) where
  abbrev tail : List ℕ
  tail =
      let extra = bits - (byte_count bits - 1) * 8 in
      set (replicate (byte_count bits) 0) (byte_count bits - 1) (mark_extra (8 - extra) 0 extra)

  part-IsClear : IsClear bits (record { bits = bits; bytes = tail })
  part-IsClear =
      let n = byte_count bits in
      let zeros : List ℕ = replicate n 0 in
      let i = n - 1 in
      let extra = bits - i * 8 in
      let byte = mark_extra (8 - extra) 0 extra in
      let len = length-replicate {0} {A = ℕ} n 0 in
      let at = λ (j : ℕ). bit-set zeros i byte j (omega (arith, len)) in
      record {
        valid = record {
          small = h;
          room = length-set zeros i byte ∙ len;
          bytes =
              AreBytes-set zeros i byte (λ j. rw get_or-zeros (omega arith)) (omega (arith, len))
                (mark_extra-lt extra (omega arith));
          padding = λ j p q.
              let here : j / 8 ≡ i = omega (arith, length-set zeros i byte, len) in
              rw
                (
                  at j,
                  eq→== i (j / 8) (sym here),
                  test-mark_extra extra (j % 8) (omega arith) (omega arith),
                )
                (ground arith);
        };
        size = refl;
        clear = λ j p. elim (Bool-cases (i == j / 8)) [
          | inl e ↦
              rw (at j, e, test-mark_extra extra (j % 8) (omega arith) (omega arith)) (ground arith)
          | inr e ↦ rw (at j, e) (bit-zeros n j)
        ];
      }

-- For a positive number of bits up to 2 ^ 31, and with memory at hand, bitmap_create gives a valid
-- bitmap of that many bits, all of them clear.
pub bitmap_create_lem :
    (granted : ℕ → Bool) (bits : ℕ)
    → 0 < bits
    → bits ≤ 2 ^ 31
    → ((size : ℕ) → granted size ≡ true)
    → Returns (λ o. (b : Bitmap) × (o ≡ some b) × IsClear bits b) (bitmap_create granted bits)
unfolding bitmap_create kmalloc_ok store
bitmap_create_lem granted bits pos h given =
    let n = byte_count bits in
    let len = length-replicate {0} {A = ℕ} n 0 in
    let zeros : List ℕ = replicate n 0 in
    rw (given 8, ne→== n 0 (omega arith), given n)
      (elim (Bool-cases (ltb (bits / 8) n)) [
        | inl more ↦
            let lt : bits / 8 < n = ltb→lt _ _ more in
            let i = n - 1 in
            let extra = bits - i * 8 in
            let byte : get_elem? zeros i ≡ some 0 =
              get_elem?-get_or zeros i 0 (omega (arith, len)) ∙ ap some (get_or-zeros n i) in
            rw
              (
                more,
                eq→== (bits / 8) i (omega arith),
                lt→ltb 0 extra (omega arith),
                lt→ltb extra 8 (omega arith),
                byte,
                lt→ltb i (length zeros) (omega (arith, len)),
              )
              (returns (_, refl, part-IsClear bits h lt))
        | inr whole ↦ rw whole (returns (_, refl, whole-IsClear bits h (ground arith)))
      ])
