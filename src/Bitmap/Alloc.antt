-- ===== src/Bitmap/Alloc.antt =====
-- klib/bitmap.c, bitmap_alloc: it takes the lowest clear bit.
use Prim.Native.Nat.{bit_and, bit_or}
use jinx_os.Base.{
  ℕ, zero, suc, ◌+◌, ◌*◌, ◌/◌, ◌%◌, ◌<◌, ◌≤◌, ◌≡◌, refl, ap, ◌∙◌, ◌⊎◌, inl, inr, true, false,
  Option, none, some, arith, ltb, lt→ltb, ◌==◌, Bool-cases, get_or, length, get_elem?-get_or, ok,
  panic, check, ◌>>=◌, ◌>>◌, Returns, returns, Returns-bind,
}
use jinx_os.Kernel.{store, success, enospc}
use jinx_os.Bitmap.{Bitmap, mask, find_clear, alloc_loop, bitmap_alloc}
use jinx_os.Bitmap.Bits.{test, test-or, or-lt, test-full, full_of_test, bit}
use jinx_os.Bitmap.Marks.{IsValid, Changed, write-Changed}

-- `m` is the first clear bit of the byte from `n` on, below `n + rounds`.
record IsFirstClear (rounds byte n m : ℕ) : Type 0 where
  from : n ≤ m
  below : m < n + rounds
  clear : test byte m ≡ false
  first : (j : ℕ) → n ≤ j → j < m → test byte j ≡ true

abbrev Found : ℕ → ℕ → ℕ → Option ℕ → Type 0
Found rounds byte n none = (j : ℕ) → n ≤ j → j < n + rounds → test byte j ≡ true
Found rounds byte n (some m) = IsFirstClear rounds byte n m

Found-next :
    (rounds byte n : ℕ) (r : Option ℕ)
    → test byte n ≡ true
    → Found rounds byte (n + 1) r
    → Found (suc rounds) byte n r
Found-next rounds byte n none h f = λ j p q. elim (Bool-cases (n == j)) [
  | inl e ↦ ap (test byte) {y = n} (ground arith) ∙ h
  | inr ne ↦ f j (ground arith) (omega arith)
]
Found-next rounds byte n (some m) h f = record {
  from = omega (arith, f.from);
  below = omega (arith, f.below);
  clear = f.clear;
  first = λ j p q. elim (Bool-cases (n == j)) [
    | inl e ↦ ap (test byte) {y = n} (ground arith) ∙ h
    | inr ne ↦ f.first j (ground arith) q
  ];
}

find_clear-Found : (rounds byte n : ℕ) → Found rounds byte n (find_clear rounds byte n)
unfolding find_clear test
find_clear-Found zero byte n = λ j p q. absurd (omega arith)
find_clear-Found (suc rounds) byte n = elim (Bool-cases (bit_and byte (mask n) == 0)) [
  | inl clear ↦ rw clear (record {
    from = omega arith;
    below = omega arith;
    clear = ground arith;
    first = λ j p q. absurd (omega arith);
  })
  | inr marked ↦
      rw marked (Found-next rounds byte n _ (ground arith) (find_clear-Found rounds byte (n + 1)))
]

module _ (b : Bitmap) (v : IsValid b) where
  -- What bitmap_alloc comes to: the lowest clear bit, now set, or ENOSPC and nothing changed.
  abbrev pub Allocated : ℕ × Option ℕ × Bitmap → Type 0
  Allocated (ret, idx, c) =
      ((i : ℕ) × (idx ≡ some i)
        × (ret ≡ success)
        × (i < b.bits)
        × (bit b.bytes i ≡ false)
        × ((j : ℕ) → j < i → bit b.bytes j ≡ true)
        × Changed b i true c)
      ⊎ ((ret ≡ enospc) × (idx ≡ none) × (c ≡ b) × ((j : ℕ) → j < b.bits → bit b.bytes j ≡ true))

  full_next :
      (i : ℕ)
      → i < length b.bytes
      → (get_or b.bytes i 0 == 255) ≡ true
      → ((j : ℕ) → j < 8 * i → bit b.bytes j ≡ true)
      → (j : ℕ) → j < 8 * (i + 1)
      → bit b.bytes j ≡ true
  unfolding bit
  full_next i hi e full j p = elim (Bool-cases (ltb j (8 * i))) [
    | inl low ↦ full j (ground arith)
    | inr high ↦
        let here : j / 8 ≡ i = ground arith in
        rw here (test-full (get_or b.bytes i 0) (j % 8) e (omega arith))
  ]

  -- The step at the first byte that is not full.
  take_first :
      (i : ℕ)
      → i < length b.bytes
      → (get_or b.bytes i 0 == 255) ≡ false
      → ((j : ℕ) → j < 8 * i → bit b.bytes j ≡ true)
      → (r : Option ℕ) → Found 8 (get_or b.bytes i 0) 0 r
      → Returns
          (λ (ret, idx, bytes). Allocated (ret, idx, record b { bytes = bytes }))
          (elim r [
            | none ↦ panic
            | some n ↦ do
              marked ← store b.bytes i (bit_or (get_or b.bytes i 0) (mask n))
              let idx = i * 8 + n
              check (ltb idx b.bits)
              ok (success, some idx, marked)
          ])
  unfolding store bit
  take_first i hi e full none f =
      cc (e, full_of_test (get_or b.bytes i 0) (v.bytes i) (λ m h. f m (omega arith) (omega arith)))
  take_first i hi e full (some n) f =
      let byte = get_or b.bytes i 0 in
      let idx = i * 8 + n in
      let n8 : n < 8 = omega (arith, f.below) in
      let here : idx / 8 ≡ i = omega arith in
      let there : idx % 8 ≡ n = omega arith in
      let clear : bit b.bytes idx ≡ false = rw (here, there) f.clear in
      let inside : idx < b.bits = ground (arith, v.padding idx, clear) in
      let before : (j : ℕ) → j < idx → bit b.bytes j ≡ true = λ j p.
        elim (Bool-cases (ltb j (8 * i))) [
          | inl low ↦ full j (ground arith)
          | inr high ↦
              let same : j / 8 ≡ i = ground arith in
              rw same (f.first (j % 8) (omega arith) (omega arith))
        ] in
      rw (lt→ltb _ _ hi, lt→ltb _ _ inside)
        (returns (
          inl (
            idx,
            refl,
            refl,
            inside,
            clear,
            before,
            rw here at (
                write-Changed b v idx (bit_or byte (mask n)) true inside
                  (or-lt byte n (v.bytes i) n8)
                  λ m hm. rw (here, there) (ground (arith, test-or byte n m (v.bytes i)))),
          )))

  alloc_loop-Allocated :
      (rounds i : ℕ)
      → i + rounds ≡ length b.bytes
      → ((j : ℕ) → j < 8 * i → bit b.bytes j ≡ true)
      → Returns
          (λ (ret, idx, bytes). Allocated (ret, idx, record b { bytes = bytes }))
          (alloc_loop rounds b.bits b.bytes i)
  unfolding alloc_loop
  alloc_loop-Allocated zero i h full =
      returns (inr (refl, refl, refl, λ j p. full j (omega (arith, v.room, v.small))))
  alloc_loop-Allocated (suc rounds) i h full =
      let byte = get_or b.bytes i 0 in
      let hi : i < length b.bytes = omega arith in
      rw (get_elem?-get_or b.bytes i 0 hi) (elim (Bool-cases (byte == 255)) [
        | inl e ↦ rw e (alloc_loop-Allocated rounds (i + 1) (omega arith) (full_next i hi e full))
        | inr e ↦ rw e (take_first i hi e full (find_clear 8 byte 0) (find_clear-Found 8 byte 0))
      ])

  -- On every valid bitmap bitmap_alloc ends: it takes the lowest clear bit, sets it and no other, or
  -- it returns ENOSPC with the bitmap as it was, which happens exactly when every bit is set.
  pub bitmap_alloc_lem : Returns Allocated (bitmap_alloc b)
  unfolding bitmap_alloc
  bitmap_alloc_lem =
      Returns-bind
        (rw v.room at
          (alloc_loop-Allocated (length b.bytes) 0 (omega arith) (λ j p. absurd (omega arith))))
        λ r a. returns a
