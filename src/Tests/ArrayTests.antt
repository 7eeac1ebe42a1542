-- ===== src/Tests/ArrayTests.antt =====
-- klib/array.c and its theorems at small arrays.
use jinx_os.Base.{ℕ, ◌≡◌, refl, Bool, true, [], ◌∷◌, ◌++◌, arith, take, drop, ok, Returns}
use jinx_os.Kernel.{kmalloc_words, store}
use jinx_os.Array.{
  Array, contents, IsValid, array_init, array_setsize, grow_max, memcpy_words, array_add,
  array_remove, copy_words,
}
use jinx_os.Array.Growth.{SetSize, array_setsize_outcome}
use jinx_os.Array.Shift.{array_remove_lem}

-- Three entries in a block of four.
abbrev pub three : Array
three = record { v = 10 ∷ 20 ∷ 30 ∷ 0 ∷ []; num = 3; max = 4 }

pub three-IsValid : IsValid three
three-IsValid = record { bounded = omega arith; block = refl }

abbrev pub always : ℕ → Bool
always size = true

add_to_empty :
    array_add always array_init 7 ≡ ok (0, 0, record { v = 7 ∷ 0 ∷ 0 ∷ 0 ∷ []; num = 1; max = 4 })
unfolding array_add array_init array_setsize grow_max memcpy_words store kmalloc_words
add_to_empty = refl

remove_middle : array_remove three 1 ≡ ok (record { v = 10 ∷ 30 ∷ 30 ∷ 0 ∷ []; num = 2; max = 4 })
unfolding array_remove copy_words store
remove_middle = refl

array_setsize_outcome_example : Returns (SetSize always three 9) (array_setsize always three 9)
array_setsize_outcome_example = array_setsize_outcome always three 9 three-IsValid (omega arith)

array_remove_lem_example :
    Returns
      (λ b.
        IsValid b × (b.max ≡ 4) × (contents b ≡ take 1 (contents three) ++ drop 2 (contents three)))
      (array_remove three 1)
array_remove_lem_example = array_remove_lem three 1 three-IsValid (omega arith)
