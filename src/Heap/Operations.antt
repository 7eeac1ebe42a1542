-- ===== src/Heap/Operations.antt =====
-- klib/heap.c: heap_push, heap_pop and heap_assertvalid.
use mathlib.Core.List.Perm
use mathlib.Core.List.{perm_append_singleton}
use native.Mathlib.Numerals.{add-one}
use jinx_os.Base.{
  ℕ, zero, suc, ◌+◌, ◌-◌, ◌^◌, ◌<◌, ◌≤◌, ◌≡◌, refl, ap, inl, inr, Bool, true, false, Option, some,
  List, [], ◌∷◌, ◌++◌, Perm, arith, ltb, ltb→lt, lt→ltb, eq→==, ne→==, ◌==◌, Bool-cases, length,
  get_or, set, take, get_or-set, get_or-append_left, get_or-take, length-append, sym, ◌∙◌, Returns,
  returns, Returns-bind, ok, panic,
}
use jinx_os.Kernel.{success, null}
use jinx_os.Array.{Array, contents, IsValid, array_num, array_cleanup}
use jinx_os.Array.Elements.{
  at, array_get_lem, array_get_out, array_set_lem, set-IsValid, array_add_outcome,
  array_add_refused, length-contents,
}
use jinx_os.Heap.{
  heap_type, Heap, parent, left, right, compare_at, heap_push, heap_pop, assert_heap_property,
  heap_assertvalid,
}
use jinx_os.Heap.Order.{IsStrictOrder, IsHeapOf, IsHeap, compare_at_lem, root_first}
use jinx_os.Heap.Up.{UpInv, bubble_up-Sifted}
use jinx_os.Heap.Down.{DownInv, trickle_down-Sifted}

take-suc-get_or :
    (xs : List ℕ) (n : ℕ) → n < length xs → take (suc n) xs ≡ take n xs ++ get_or xs n 0 ∷ []
take-suc-get_or [] n h = absurd (omega arith)
take-suc-get_or (x ∷ xs) zero h = refl
take-suc-get_or (x ∷ xs) (suc n) h = ap (◌∷◌ x) (take-suc-get_or xs n (omega arith))

-- The last entry takes the place of the first: together with the first, these are all entries.
replace_root-perm :
    (n : ℕ) (xs : List ℕ)
    → n < length xs
    → Perm (get_or xs 0 0 ∷ take n (set xs 0 (get_or xs n 0))) (take (suc n) xs)
replace_root-perm n [] h = absurd (omega arith)
replace_root-perm zero (x ∷ xs) h = Perm.rfl
replace_root-perm (suc n) (x ∷ xs) h =
    Perm.cons x
      (rw (take-suc-get_or xs n (omega arith)) (Perm.symm (perm_append_singleton _ (take n xs))))

module _ (precedes : ℕ → ℕ → Bool) where
  -- What a successful heap_push leaves.
  abbrev pub Pushed : Heap → ℕ → ℕ × Option Heap → Type 0
  Pushed h x (err, out) =
      (err ≡ success)
      × ((h' : Heap) × (out ≡ some h')
          × IsHeapOf precedes h'
          × Perm (contents h'.vals) (x ∷ contents h.vals))

  pushed-num :
      (a b : Array) (x : ℕ)
      → IsValid a
      → IsValid b
      → contents b ≡ contents a ++ x ∷ []
      → a.num ≡ b.num - 1
  pushed-num a b x va vb e = omega (
    arith,
    ap length e,
    length-append (contents a) (x ∷ []),
    length-contents a va,
    length-contents b vb,
  )

  pushed-UpInv :
      (a b : Array) (x : ℕ)
      → IsHeap precedes a
      → IsValid a
      → IsValid b
      → contents b ≡ contents a ++ x ∷ []
      → UpInv precedes b (b.num - 1)
  pushed-UpInv a b x h va vb e = record {
    valid = vb;
    inside = omega (arith, size);
    edges = λ c p q r. ground (arith, size, kept c, kept (parent c), h c);
    bridged = λ c p q r s. absurd (omega (arith, size));
  }
    where
      size : b.num ≡ a.num + 1
      size = omega (
        arith,
        pushed-num a b x va vb e,
        ap length e,
        length-append (contents a) (x ∷ []),
        length-contents b vb,
      )

      kept : (c : ℕ) → c < a.num → at b c ≡ at a c
      kept c p =
          sym (get_or-take b.num b.v c 0 (omega (arith, size)))
          ∙ (ap (λ xs. get_or xs c 0) e
              ∙ (get_or-append_left (contents a) (x ∷ []) c 0 (omega (arith, length-contents a va))
                  ∙ get_or-take a.num a.v c 0 p))

  -- Where the allocator refuses to grow an array with entries, heap_push does not return ENOMEM: it
  -- stops the kernel, since the error path destroys an array that must be empty for that.
  pub heap_push_no_memory :
      (granted : ℕ → Bool) (h : Heap) (x : ℕ)
      → IsHeapOf precedes h
      → 0 < h.vals.num
      → h.vals.num < 2 ^ 29
      → h.vals.num ≡ h.vals.max
      → ((size : ℕ) → granted size ≡ false)
      → heap_push precedes granted h x ≡ panic
  unfolding heap_push array_cleanup
  heap_push_no_memory granted h x v pos k full refused = rw (
    eq→== _ _ v.live,
    array_add_refused granted h.vals x v.valid k full refused,
    ne→== h.vals.num 0 (omega arith),
  )

  -- heap_pop on an empty heap returns NULL and changes nothing.
  pub heap_pop_empty :
      (h : Heap) → h.datatype ≡ heap_type → h.vals.num ≡ 0 → heap_pop precedes h ≡ ok (null, h)
  unfolding heap_pop
  heap_pop_empty h live e = rw (eq→== _ _ live, eq→== _ _ e)

  -- What heap_pop gives on a heap with entries.
  abbrev pub Popped : Heap → ℕ × Heap → Type 0
  Popped h (top, h') =
      IsHeapOf precedes h'
      × Perm (top ∷ contents h'.vals) (contents h.vals)
      × ((i : ℕ) → i < h.vals.num → precedes (at h.vals i) top ≡ false)

module _ (precedes : ℕ → ℕ → Bool) (o : IsStrictOrder precedes) where
  -- Where the comparator is a strict order, heap_push on a valid heap of fewer than 2 ^ 29 entries,
  -- with memory at hand, ends with success: the heap order holds again, and the entries are the old
  -- ones and the new one.
  pub heap_push_lem :
      (granted : ℕ → Bool) (h : Heap) (x : ℕ)
      → IsHeapOf precedes h
      → h.vals.num < 2 ^ 29
      → ((size : ℕ) → granted size ≡ true)
      → Returns (Pushed precedes h x) (heap_push precedes granted h x)
  unfolding heap_push
  heap_push_lem granted h x v k given = rw (eq→== _ _ v.live) (
      Returns-bind (array_add_outcome granted h.vals x v.valid k) λ (ret, index, b) r. elim r [
        | inl (done, at_end, vb, e) ↦
            let start = pushed-UpInv precedes h.vals b x v.ordered v.valid vb e in
            rw
              (
                done,
                at_end,
                eq→== h.vals.num (b.num - 1) (pushed-num precedes h.vals b x v.valid vb e),
              )
              (Returns-bind
                (bubble_up-Sifted precedes o (b.num + 1) b (b.num - 1) (omega arith) start)
                λ w s. returns (
                  refl,
                  (
                    record h { vals = w },
                    refl,
                    record { live = v.live; valid = s.valid; ordered = s.ordered },
                    Perm.trans s.same (rw e (perm_append_singleton x (contents h.vals))),
                  ),
                ))
        | inr (failed, same, full, (size, refused)) ↦ cc (given size)
      ])

  -- Where the comparator is a strict order, heap_pop on a valid heap with entries ends: it returns
  -- an entry that no entry precedes, and what is left is a valid heap of the other entries.
  pub heap_pop_lem :
      (h : Heap)
      → IsHeapOf precedes h
      → 0 < h.vals.num
      → Returns (Popped precedes h) (heap_pop precedes h)
  unfolding heap_pop
  heap_pop_lem h v pos =
      let a = h.vals in
      let n = a.num - 1 in
      let b = record a { v = set a.v 0 (at a n); num = n } in
      let last : suc n ≡ a.num = omega arith in
      let start : DownInv precedes b 0 = record {
        valid = record {
          bounded = omega (arith, v.valid.bounded);
          block = (set-IsValid a 0 (at a n) v.valid).block;
        };
        edges = λ c p q r. ground (
          arith,
          get_or-set a.v 0 (at a n) 0 c,
          get_or-set a.v 0 (at a n) 0 (parent c),
          v.ordered c,
          v.valid.bounded,
          v.valid.block,
        );
        bridged = λ c p q r s. absurd (omega arith);
      } in
      rw
        (
          eq→== _ _ v.live,
          ne→== a.num 0 (omega arith),
          array_get_lem a 0 v.valid pos,
          array_get_lem a n v.valid (omega arith),
          array_set_lem a 0 (at a n) v.valid pos,
        )
        (Returns-bind (trickle_down-Sifted precedes o (a.num + 1) b 0 (omega arith) start) λ w s.
          returns (
            record { live = v.live; valid = s.valid; ordered = s.ordered },
            Perm.trans (Perm.cons (at a 0) s.same) (
                rw last at
                  (replace_root-perm n a.v (omega (arith, v.valid.bounded, v.valid.block)))),
            λ i k. root_first precedes a i o v.ordered k,
          ))

-- assert_heap_property follows the left children until one is missing, and stops there.
module _ (precedes : ℕ → ℕ → Bool) (a : Array) (v : IsValid a) where
  compare_at_out : (i j : ℕ) → i < a.num → a.num ≤ j → compare_at precedes a i j ≡ panic
  unfolding compare_at
  compare_at_out i j hi hj = rw (array_get_lem a i v hi, array_get_out a j hj)

  assert_heap_property_step :
      (fuel i : ℕ)
      → left i < a.num
      → assert_heap_property precedes fuel a (left i) a.num ≡ panic
      → assert_heap_property precedes (suc fuel) a i a.num ≡ panic
  unfolding assert_heap_property
  assert_heap_property_step fuel i h below =
      let here : i < a.num = omega arith in
      rw (lt→ltb i a.num here, compare_at_lem precedes a i (left i) v here h)
        (elim (Bool-cases (precedes (at a i) (at a (left i)))) [
          | inr bad ↦ rw bad
          | inl good ↦ rw good (elim (Bool-cases (ltb (right i) a.num)) [
            | inr leaf ↦ rw (compare_at_out i (right i) here (ground arith))
            | inl has ↦
                rw (compare_at_lem precedes a i (right i) v here (ltb→lt _ _ has))
                  (elim (Bool-cases (precedes (at a i) (at a (right i)))) [
                    | inr bad' ↦ rw bad'
                    | inl good' ↦ rw (good', below)
                  ])
          ])
        ])

  assert_heap_property_panics :
      (fuel i : ℕ)
      → a.num - i ≤ fuel
      → i < a.num
      → assert_heap_property precedes (suc fuel) a i a.num ≡ panic
  unfolding assert_heap_property
  assert_heap_property_panics zero i f h = absurd (omega arith)
  assert_heap_property_panics (suc fuel) i f h = elim (Bool-cases (ltb (left i) a.num)) [
    | inl has ↦
        let more : left i < a.num = ltb→lt _ _ has in
        assert_heap_property_step (suc fuel) i more
          (assert_heap_property_panics fuel (left i) (omega arith) more)
    | inr leaf ↦ rw (lt→ltb i a.num h, compare_at_out i (left i) h (ground arith))
  ]

  -- heap_assertvalid stops the kernel on every heap that has an entry, also on one in good order.
  pub heap_assertvalid_panics :
      (datatype : ℕ)
      → 0 < a.num
      → heap_assertvalid precedes (record { datatype = datatype; vals = a }) ≡ panic
  unfolding heap_assertvalid array_num
  heap_assertvalid_panics datatype pos = elim (Bool-cases (datatype == heap_type)) [
    | inl live ↦ rw (live, add-one, assert_heap_property_panics a.num 0 (omega arith) pos)
    | inr dead ↦ rw dead
  ]
