-- ===== src/Array.antt =====
-- klib/array.c: the resizeable array of `void*`. `v` is the block behind the pointer `v`, the empty
-- list for NULL; values are addresses. An index outside the block is an undefined access.
pub mod Growth
pub mod Elements
pub mod Shift
use jinx_os.Base.{
  ℕ, zero, suc, ◌+◌, ◌-◌, ◌*◌, ◌≤◌, ◌≡◌, List, [], Bool, Option, none, some, ltb, leb, ◌==◌,
  if◌then◌else◌, length, get_elem?, set, take, Run, ok, fault, out_of_fuel, ◌>>=◌, ◌>>◌, check,
  deref,
}
use jinx_os.Kernel.{store, wrap, success, enomem, word_size, kmalloc_words}

pub record Array : Type 0 where
  pub v : List ℕ
  pub num : ℕ
  pub max : ℕ

-- The entries in use: `v[0]` to `v[num - 1]`.
abbrev pub contents : Array → List ℕ
contents a = take a.num a.v

pub record IsValid (a : Array) : Type 0 where
  pub bounded : a.num ≤ a.max
  pub block : length a.v ≡ a.max

-- array_init
unfoldable pub array_init : Array
array_init = record { v = []; num = 0; max = 0 }

unfoldable pub array_num : Array → ℕ
array_num a = a.num

unfoldable pub array_get : Array → ℕ → Run ℕ
array_get a index = check (ltb index a.num) >> deref (get_elem? a.v index)

unfoldable pub array_set : Array → ℕ → ℕ → Run Array
array_set a index val = do check (ltb index a.num); v ← store a.v index val; ok (record a { v = v })

-- `while (num > newmax) newmax = newmax ? newmax * 2 : 4;`
unfoldable pub grow_max : ℕ → ℕ → ℕ → Run ℕ
grow_max zero num newmax = out_of_fuel
grow_max (suc fuel) num newmax =
    let rest = grow_max fuel num (if newmax == 0 then 4 else wrap (newmax * 2)) in
    if ltb newmax num then rest else ok newmax

-- `memcpy` and the forward `memmove` of klib/string.c, a word at a time, from one place of a block
-- to another.
unfoldable pub copy_words : ℕ → List ℕ → ℕ → ℕ → Run (List ℕ)
copy_words zero v dst src = ok v
copy_words (suc count) v dst src = do
  x ← deref (get_elem? v src)
  w ← store v dst x
  copy_words count w (dst + 1) (src + 1)

-- `memcpy` between two blocks.
unfoldable pub memcpy_words : ℕ → List ℕ → List ℕ → ℕ → Run (List ℕ)
memcpy_words zero dst src i = ok dst
memcpy_words (suc count) dst src i = do
  x ← deref (get_elem? src i)
  w ← store dst i x
  memcpy_words count w src (i + 1)

-- The growth loop doubles a 32-bit number, so 34 rounds are enough where it ends at all.
abbrev pub growth_fuel : ℕ
growth_fuel = 34

-- array_setsize: the error number, and the array.
unfoldable pub array_setsize : (ℕ → Bool) → Array → ℕ → Run (ℕ × Array)
array_setsize granted a num =
    if ltb a.max num
    then (do
      newmax ← grow_max growth_fuel num a.max
      elim (kmalloc_words granted (wrap (newmax * word_size))) [
        | none ↦ ok (enomem, a)
        | some block ↦ do
          copied ← memcpy_words a.num block a.v 0
          ok (success, record { v = copied; num = num; max = newmax })
      ])
    else ok (success, record a { num = num })

-- array_add: the error number, the index that `*index_ret` gets, and the array.
unfoldable pub array_add : (ℕ → Bool) → Array → ℕ → Run (ℕ × ℕ × Array)
array_add granted a val = do
  let index = a.num
  (ret, b) ← array_setsize granted a (wrap (index + 1))
  if ret == success
      then (do v ← store b.v index val; ok (success, index, record b { v = v }))
      else ok (ret, 0, b)

-- array_remove
unfoldable pub array_remove : Array → ℕ → Run Array
array_remove a index = do
  check (leb a.num a.max)
  check (ltb index a.num)
  v ← copy_words (a.num - (index + 1)) a.v index (index + 1)
  ok (record a { v = v; num = a.num - 1 })

-- array_cleanup: the block is freed, and `v` is NULL.
unfoldable pub array_cleanup : Array → Run Array
array_cleanup a = check (a.num == 0) >> ok (record a { v = [] })
