-- ===== src/Tests/HeapTests.antt =====
-- klib/heap.c and its theorems at small heaps of numbers, the smallest first.
use jinx_os.Base.{ℕ, zero, suc, ◌<◌, ◌≡◌, refl, false, [], ◌∷◌, arith, ltb, ok, panic, Returns}
use jinx_os.Array.{Array, array_get, array_set}
use jinx_os.Array.Elements.{at}
use jinx_os.Heap.{
  heap_type, Heap, parent, swap, compare_at, pick_child, trickle_down, heap_push, heap_pop,
  heap_assertvalid,
}
use jinx_os.Heap.Order.{IsStrictOrder, IsHeapOf}
use jinx_os.Heap.Operations.{Pushed, Popped, heap_push_lem, heap_pop_lem, heap_assertvalid_panics}
use jinx_os.Kernel.{store}
use jinx_os.Tests.ArrayTests.{always}

ltb-IsStrictOrder : IsStrictOrder ltb
ltb-IsStrictOrder = record { asym = λ x y h. ground arith; cotrans = λ x y z h k. ground arith }

abbrev items : Array
items = record { v = 1 ∷ 4 ∷ 2 ∷ 9 ∷ []; num = 4; max = 4 }

abbrev sample : Heap
sample = record { datatype = heap_type; vals = items }

edge : (c : ℕ) → 0 < c → c < 4 → ltb (at items c) (at items (parent c)) ≡ false
edge zero p q = refl
edge (suc zero) p q = refl
edge (suc (suc zero)) p q = refl
edge (suc (suc (suc zero))) p q = refl
edge (suc (suc (suc (suc c)))) p q = absurd (omega arith)

sample-IsHeapOf : IsHeapOf ltb sample
sample-IsHeapOf = record {
  live = refl;
  valid = record { bounded = omega arith; block = refl };
  ordered = λ c p q. edge c p q;
}

pop_sample :
    heap_pop ltb sample
    ≡ ok (
      1,
      record { datatype = heap_type; vals = record { v = 2 ∷ 4 ∷ 9 ∷ 9 ∷ []; num = 3; max = 4 } },
    )
unfolding heap_pop trickle_down pick_child compare_at swap array_get array_set store
pop_sample = refl

heap_push_lem_example : Returns (Pushed ltb sample 3) (heap_push ltb always sample 3)
heap_push_lem_example =
    heap_push_lem ltb ltb-IsStrictOrder always sample 3 sample-IsHeapOf (omega arith) (λ size. refl)

heap_pop_lem_example : Returns (Popped ltb sample) (heap_pop ltb sample)
heap_pop_lem_example = heap_pop_lem ltb ltb-IsStrictOrder sample sample-IsHeapOf (omega arith)

heap_assertvalid_panics_example : heap_assertvalid ltb sample ≡ panic
heap_assertvalid_panics_example =
    heap_assertvalid_panics ltb items sample-IsHeapOf.valid heap_type (omega arith)
