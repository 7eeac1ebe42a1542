-- ===== src/Array/Growth.antt =====
-- klib/array.c, array_setsize and array_add: how the block grows.
use native.Mathlib.Nat.{pow-suc}
use jinx_os.Base.{
  ℕ, zero, suc, ◌+◌, ◌*◌, ◌^◌, ◌≤◌, ◌<◌, ◌≡◌, refl, ap, ◌⊎◌, inl, inr, List, Bool, false, arith,
  ltb, ltb→lt, ◌==◌, if◌then◌else◌, Bool-cases, le→ltb, lt→ltb, length, set, get_or, get_elem?,
  get_elem?-set, get_elem?-get_or, leb, ◌&&◌, ◌∙◌, length-set, replicate, length-replicate, Returns,
  returns, Returns-bind, Returns-eq, ◌>>=◌, ok, Returns-mono, ok,
}
use jinx_os.Kernel.{
  store, success, enomem, wrap, word_size, kmalloc_words-cases, kmalloc_words-refused,
}
use jinx_os.Array.{Array, IsValid, grow_max, memcpy_words, array_setsize, growth_fuel}

-- The capacity that the growth loop leaves: enough, and less than twice what is needed.
pub record Grown (num old new : ℕ) : Type 0 where
  pub enough : num ≤ new
  pub modest : (new ≡ old) ⊎ ((new ≤ 4) ⊎ (new < 2 * num))

grow_max-Grown :
    (fuel num newmax : ℕ)
    → num ≤ 2 ^ 31
    → 0 < newmax
    → num ≤ newmax * 2 ^ fuel
    → Returns (Grown num newmax) (grow_max (suc fuel) num newmax)
unfolding grow_max
grow_max-Grown zero num newmax h p f =
    rw (le→ltb newmax num (omega arith))
      (returns (record { enough = omega arith; modest = inl refl }))
grow_max-Grown (suc fuel) num newmax h p f = elim (Bool-cases (ltb newmax num)) [
  | inl more ↦
      let small : newmax < num = ltb→lt newmax num more in
      let next : (if newmax == 0 then 4 else wrap (newmax * 2)) ≡ newmax * 2 = ground arith in
      rw (more, next)
        (Returns-mono
          (grow_max-Grown fuel num (newmax * 2) h (omega arith)
            (omega (arith, ap (λ (t : ℕ). newmax * t) (pow-suc 2 fuel))))
          λ r g. record { enough = g.enough; modest = ground (arith, g.modest) })
  | inr done ↦ rw done (returns (record { enough = ground arith; modest = inl refl }))
]

grow_max-first : (fuel num : ℕ) → 0 < num → grow_max (suc fuel) num 0 ≡ grow_max fuel num 4
unfolding grow_max
grow_max-first fuel num h = ground arith

-- The loop ends within its fuel for every size up to 2 ^ 31.
pub grow_max-ends :
    (num newmax : ℕ)
    → num ≤ 2 ^ 31
    → newmax < num
    → Returns (Grown num newmax) (grow_max growth_fuel num newmax)
grow_max-ends num zero h lt = rw (grow_max-first 33 num lt) (
    Returns-mono (grow_max-Grown 32 num 4 h (omega arith) (omega arith))
      λ r g. record { enough = g.enough; modest = ground (arith, g.modest) })
grow_max-ends num (suc k) h lt = grow_max-Grown 33 num (suc k) h (omega arith) (omega arith)

-- `memcpy` overwrites the entries from `i` on with those of the source.
memcpy_words-copies :
    (count : ℕ) (dst src : List ℕ) (i : ℕ)
    → i + count ≤ length src
    → i + count ≤ length dst
    → Returns
        (λ v.
          (length v ≡ length dst)
          × ((j : ℕ)
              → get_elem? v j
                ≡ (if leb i j && ltb j (i + count) then get_elem? src j else get_elem? dst j)))
        (memcpy_words count dst src i)
unfolding memcpy_words store
memcpy_words-copies zero dst src i h k = returns (refl, λ j. ground arith)
memcpy_words-copies (suc count) dst src i h k =
    let x = get_or src i 0 in
    let w = set dst i x in
    let within : length w ≡ length dst = length-set dst i x in
    rw (get_elem?-get_or src i 0 (omega arith), lt→ltb i (length dst) (omega arith))
      (Returns-mono (memcpy_words-copies count w src (i + 1) (omega arith) (omega arith))
        λ v (size, at). (
          size ∙ within,
          λ j. ground (arith, at j, get_elem?-set dst i x j, get_elem?-get_or src i 0),
        ))

-- `b` is `a` with `num` entries, and keeps every old entry that is still in range.
pub record Resized (a : Array) (num : ℕ) (b : Array) : Type 0 where
  pub valid : IsValid b
  pub size : b.num ≡ num
  pub kept : (i : ℕ) → i < a.num → i < num → get_elem? b.v i ≡ get_elem? a.v i

-- What array_setsize comes to: the new size, or ENOMEM and nothing changed.
abbrev pub SetSize : (ℕ → Bool) → Array → ℕ → ℕ × Array → Type 0
SetSize granted a num (ret, b) =
    ((ret ≡ success) × Resized a num b)
    ⊎ ((ret ≡ enomem) × (b ≡ a) × (a.max < num) × ((size : ℕ) × (granted size ≡ false)))

-- For every array and size up to 2 ^ 29, array_setsize ends: either it sets the size and keeps the
-- entries, or it returns ENOMEM with the array untouched, and that only if the array had to grow
-- and the allocator refused a block.
pub array_setsize_outcome :
    (granted : ℕ → Bool) (a : Array) (num : ℕ)
    → IsValid a
    → num ≤ 2 ^ 29
    → Returns (SetSize granted a num) (array_setsize granted a num)
unfolding array_setsize
array_setsize_outcome granted a num v h = elim (Bool-cases (ltb a.max num)) [
  | inl more ↦ rw more (
      Returns-bind (grow_max-ends num a.max (omega arith) (ltb→lt a.max num more)) λ n g.
        let lt : a.max < num = ltb→lt a.max num more in
        let room : n < 2 ^ 30 = ground (arith, g.modest, g.enough) in
        elim (kmalloc_words-cases granted n (omega (arith, g.enough)) room) [
          | inl got ↦ rw got (
              Returns-bind
                (memcpy_words-copies a.num (replicate n 0) a.v 0 (omega (arith, v.bounded, v.block))
                  (omega (arith, v.bounded, length-replicate {0} {A = ℕ} n 0, g.enough)))
                λ w (len, at). returns (
                  inl (
                    refl,
                    record {
                      valid = record {
                        bounded = g.enough;
                        block = omega (arith, len, length-replicate {0} {A = ℕ} n 0);
                      };
                      size = refl;
                      kept = λ i p q. ground (arith, at i);
                    },
                  )))
          | inr (missing, refused) ↦
              rw missing (returns (inr (refl, refl, lt, (n * word_size, refused))))
        ])
  | inr fits ↦ rw fits (
      returns (
        inl (
          refl,
          record {
            valid = record { bounded = ground arith; block = v.block };
            size = refl;
            kept = λ i p q. refl;
          },
        )))
]

pub array_setsize_refused :
    (granted : ℕ → Bool) (a : Array) (num : ℕ)
    → a.max < num
    → num ≤ 2 ^ 29
    → ((size : ℕ) → granted size ≡ false)
    → array_setsize granted a num ≡ ok (enomem, a)
unfolding array_setsize
array_setsize_refused granted a num lt h refused =
    let (n, grown, g) = Returns-eq (grow_max-ends num a.max (omega arith) lt) in
    rw (
      lt→ltb a.max num lt,
      grown,
      ◌>>=◌,
      kmalloc_words-refused granted (wrap (n * word_size)) refused,
    )
