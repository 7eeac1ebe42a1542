-- ===== src/Heap/Order.antt =====
-- The heap order of klib/heap.c: no entry precedes its parent.
use mathlib.Core.List.Perm
use jinx_os.Base.{
  ℕ, zero, suc, ◌<◌, ◌≡◌, Bool, true, false, Perm, arith, Run, ok, Returns, Returns-mono,
}
use jinx_os.Array.{Array, contents, IsValid}
use jinx_os.Array.Elements.{at, array_get_lem}
use jinx_os.Heap.{heap_type, Heap, parent, compare_at}
use jinx_os.Heap.Swap.{swapped, contents-swapped}

-- What a comparator must be: a strict order in which "neither precedes" is transitive.
pub record IsStrictOrder (precedes : ℕ → ℕ → Bool) : Type 0 where
  pub asym : (x y : ℕ) → precedes x y ≡ true → precedes y x ≡ false
  pub cotrans : (x y z : ℕ) → precedes x y ≡ false → precedes y z ≡ false → precedes x z ≡ false

module _ (precedes : ℕ → ℕ → Bool) where
  -- The edge above `c` is in order.
  abbrev pub InOrder : Array → ℕ → Type 0
  InOrder a c = precedes (at a c) (at a (parent c)) ≡ false

  abbrev pub IsHeap : Array → Type 0
  IsHeap a = (c : ℕ) → 0 < c → c < a.num → InOrder a c

  -- The edges past `i`, from its parent to its children, are in order.
  abbrev pub IsBridged : Array → ℕ → Type 0
  IsBridged a i =
      (c : ℕ)
      → 0 < c
      → c < a.num
      → parent c ≡ i
      → 0 < i
      → precedes (at a c) (at a (parent i)) ≡ false

  -- A valid heap: live, over a valid array in heap order.
  pub record IsHeapOf (h : Heap) : Type 0 where
    pub live : h.datatype ≡ heap_type
    pub valid : IsValid h.vals
    pub ordered : IsHeap h.vals

  -- `b` is a heap over the same entries as `a`.
  pub record Sifted (a b : Array) : Type 0 where
    pub valid : IsValid b
    pub size : b.num ≡ a.num
    pub ordered : IsHeap b
    pub same : Perm (contents b) (contents a)

  pub compare_at_lem :
      (a : Array) (i j : ℕ)
      → IsValid a
      → i < a.num
      → j < a.num
      → compare_at precedes a i j ≡ ok (precedes (at a i) (at a j))
  unfolding compare_at
  compare_at_lem a i j v hi hj = rw (array_get_lem a i v hi, array_get_lem a j v hj)

  pub Sifted-swapped :
      (a : Array) (i j : ℕ) {r : Run Array}
      → IsValid a
      → i < a.num
      → j < a.num
      → Returns (Sifted (swapped a i j)) r
      → Returns (Sifted a) r
  unfolding swapped
  Sifted-swapped a i j v hi hj run = Returns-mono run λ b s. record {
    valid = s.valid;
    size = s.size;
    ordered = s.ordered;
    same = Perm.trans s.same (contents-swapped a i j v hi hj);
  }

  root_first_below :
      (fuel : ℕ) (a : Array) (i : ℕ)
      → IsStrictOrder precedes
      → IsHeap a
      → i < fuel
      → i < a.num
      → precedes (at a i) (at a 0) ≡ false
  root_first_below zero a i o h f k = absurd (omega arith)
  root_first_below (suc fuel) a zero o h f k = ground (arith, o.asym (at a 0) (at a 0))
  root_first_below (suc fuel) a (suc i) o h f k =
      o.cotrans _ (at a (parent (suc i))) _ (h (suc i) (omega arith) k)
        (root_first_below fuel a (parent (suc i)) o h (omega arith) (omega arith))

  -- No entry of a heap precedes its root.
  pub root_first :
      (a : Array) (i : ℕ)
      → IsStrictOrder precedes
      → IsHeap a
      → i < a.num
      → precedes (at a i) (at a 0) ≡ false
  root_first a i o h k = root_first_below (suc i) a i o h (omega arith) k
