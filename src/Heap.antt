-- ===== src/Heap.antt =====
-- klib/heap.c: a priority queue as a binary heap in an array of klib/array.c. `precedes` is the
-- comparator that heap_create is given, read as a Boolean test.
pub mod Swap
pub mod Order
pub mod Up
pub mod Down
pub mod Operations
use jinx_os.Base.{
  ℕ, zero, suc, ◌+◌, ◌-◌, ◌*◌, ◌/◌, Bool, true, false, Option, none, some, ltb, ◌==◌, if◌then◌else◌,
  Run, ok, out_of_fuel, ◌>>=◌, ◌>>◌, check,
}
use jinx_os.Kernel.{success, enomem, null}
use jinx_os.Array.{Array, array_init, array_num, array_get, array_set, array_add, array_cleanup}

-- HEAPTYPE, the canary of a live heap.
abbrev pub heap_type : ℕ
heap_type = 3333

pub record Heap : Type 0 where
  pub datatype : ℕ
  pub vals : Array

-- PARENT, LEFT and RIGHT. C's division turns the parent of the root, -1 / 2, into 0 as well.
abbrev pub parent : ℕ → ℕ
parent i = (i - 1) / 2

abbrev pub left : ℕ → ℕ
left i = 2 * i + 1

abbrev pub right : ℕ → ℕ
right i = 2 * i + 2

-- ASSERT_HEAP
abbrev pub assert_heap : Heap → Run (Unit {0})
assert_heap h = check (h.datatype == heap_type)

-- heap_create, where both requests for memory are served.
unfoldable pub heap_create : Heap
heap_create = record { datatype = heap_type; vals = array_init }

-- The three lines marked SWAP, in bubble_up and in trickle_down.
unfoldable pub swap : Array → ℕ → ℕ → Run Array
swap vals i j = do
  t ← array_get vals i
  x ← array_get vals j
  b ← array_set vals i x
  array_set b j t

module _ (precedes : ℕ → ℕ → Bool) where
  unfoldable pub compare_at : Array → ℕ → ℕ → Run Bool
  compare_at vals i j = do x ← array_get vals i; y ← array_get vals j; ok (precedes x y)

  unfoldable pub bubble_up : ℕ → Array → ℕ → Run Array
  bubble_up zero vals index = out_of_fuel
  bubble_up (suc fuel) vals index =
      let rise : Run Array = do b ← swap vals index (parent index); bubble_up fuel b (parent index)
      in let step : Run Array = do
        above ← compare_at vals index (parent index)
        if above then rise else ok vals
        in if ltb 0 index then step else ok vals

  -- The `j` of trickle_down: the child to swap with, or `none` for -1.
  unfoldable pub pick_child : Array → ℕ → Run (Option ℕ)
  pick_child vals index =
      let try_left : Run (Option ℕ) =
        if ltb (left index) vals.num
        then (do
          first ← compare_at vals (left index) index
          ok (if first then some (left index) else none))
        else ok none in
      let both : Run (Option ℕ) = do
        lower ← compare_at vals (left index) (right index)
        ok (some (if lower then left index else right index))
      in if ltb (right index) vals.num
        then (do first ← compare_at vals (right index) index; if first then both else try_left)
        else try_left

  -- `while (index >= 0)`; the loop ends when `j` is -1.
  unfoldable pub trickle_down : ℕ → Array → ℕ → Run Array
  trickle_down zero vals index = out_of_fuel
  trickle_down (suc fuel) vals index = do
    j ← pick_child vals index
    elim j [ none ↦ ok vals | some c ↦ do b ← swap vals c index; trickle_down fuel b c ]

  -- heap_push: the error number and the heap, or no heap where the error path frees it.
  unfoldable pub heap_push : (ℕ → Bool) → Heap → ℕ → Run (ℕ × Option Heap)
  heap_push granted h newval = do
    assert_heap h
    (err, newindex, vals) ← array_add granted h.vals newval
    if err == enomem then (do freed ← array_cleanup vals; ok (enomem, none)) else (do
      check (newindex == vals.num - 1)
      b ← bubble_up (vals.num + 1) vals (vals.num - 1)
      ok (success, some (record h { vals = b })))

  -- heap_pop: the first entry, or NULL.
  unfoldable pub heap_pop : Heap → Run (ℕ × Heap)
  heap_pop h = do
    assert_heap h
    if h.vals.num == 0 then ok (null, h) else (do
      top ← array_get h.vals 0
      last ← array_get h.vals (h.vals.num - 1)
      a ← array_set h.vals 0 last
      b ← trickle_down (a.num + 1) (record a { num = a.num - 1 }) 0
      ok (top, record h { vals = b }))

  -- assert_heap_property
  unfoldable pub assert_heap_property : ℕ → Array → ℕ → ℕ → Run (Unit {0})
  assert_heap_property zero vals index max = out_of_fuel
  assert_heap_property (suc fuel) vals index max =
      let walk : Run (Unit {0}) = do
        l ← compare_at vals index (left index)
        check l
        r ← compare_at vals index (right index)
        check r
        assert_heap_property fuel vals (left index) max
        assert_heap_property fuel vals (right index) max
      in if ltb index max then walk else ok tt

  unfoldable pub heap_assertvalid : Heap → Run (Unit {0})
  heap_assertvalid h = do
    assert_heap h
    assert_heap_property (h.vals.num + 1) h.vals 0 (array_num h.vals)

-- heap_top, heap_isempty and heap_getsize.
unfoldable pub heap_top : Heap → Run ℕ
heap_top h = assert_heap h >> array_get h.vals 0

unfoldable pub heap_isempty : Heap → Run Bool
heap_isempty h = assert_heap h >> ok (array_num h.vals == 0)

unfoldable pub heap_getsize : Heap → Run ℕ
heap_getsize h = assert_heap h >> ok (array_num h.vals)

-- heap_destroy: the array must be empty.
unfoldable pub heap_destroy : Heap → Run (Unit {0})
heap_destroy h = do assert_heap h; freed ← array_cleanup h.vals; ok tt
