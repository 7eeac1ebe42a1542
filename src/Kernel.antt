-- ===== src/Kernel.antt =====
-- The kernel-wide conventions that the components share: the error numbers of klib/errno.h, the
-- 32-bit words of klib/types.h, and blocks of words as `kmalloc` of mem/mm.c hands them out.
use jinx_os.Base.{
  ltb, length, set, Run, ok, fault, ℕ, ◌*◌, ◌/◌, ◌%◌, ◌^◌, ◌<◌, ◌≡◌, ◌⊎◌, inl, inr, Bool, false,
  Option, none, some, List, arith, ◌==◌, if◌then◌else◌, Bool-cases, replicate,
}

-- `unsigned`, `size_t` and `uint32_t` are 32 bits wide.
abbrev pub word_mod : ℕ
word_mod = 2 ^ 32

abbrev pub wrap : ℕ → ℕ
wrap n = n % 2 ^ 32

-- The enumeration of klib/errno.h. `ENULL` is 0, which is also what success returns.
abbrev pub success : ℕ
success = 0

abbrev pub einval : ℕ
einval = 1

abbrev pub enomem : ℕ
enomem = 2

abbrev pub enospc : ℕ
enospc = 5

abbrev pub emproc : ℕ
emproc = 6

abbrev pub entimer : ℕ
entimer = 9

-- `NULL`, and the width of a pointer.
abbrev pub null : ℕ
null = 0

abbrev pub word_size : ℕ
word_size = 4

-- `kmalloc(size)` as its callers see it: nothing for size 0, otherwise a zeroed block, if the
-- allocator has one. `granted` says for each size whether it has. A block of `size` bytes is the
-- list of the words in it.
unfoldable pub kmalloc_words : (ℕ → Bool) → ℕ → Option (List ℕ)
kmalloc_words granted size =
    if size == 0 then none else if granted size then some (replicate (size / word_size) 0) else none

-- `v[index] = val`: outside the block the access is undefined.
unfoldable pub store : List ℕ → ℕ → ℕ → Run (List ℕ)
store v index val = if ltb index (length v) then ok (set v index val) else fault

-- Whether `kmalloc(size)` returns a block, as its clients see it, which all test for NULL: any size may
-- be refused. The kmalloc of mem/mm.c refuses size 0 only, and stops the kernel where memory is out.
unfoldable pub kmalloc_ok : (ℕ → Bool) → ℕ → Bool
kmalloc_ok granted size = if size == 0 then false else granted size

-- A request for `n` words is served whole, or the allocator had nothing of that size.
pub kmalloc_words-cases :
    (granted : ℕ → Bool) (n : ℕ)
    → 0 < n
    → n < 2 ^ 30
    → (kmalloc_words granted (wrap (n * word_size)) ≡ some (replicate n 0))
      ⊎ ((kmalloc_words granted (wrap (n * word_size)) ≡ none) × (granted (n * word_size) ≡ false))
unfolding kmalloc_words
kmalloc_words-cases granted n h k =
    let fits : wrap (n * word_size) ≡ n * word_size = omega arith in
    let words : n * word_size / word_size ≡ n = omega arith in
    let some_bytes : (n * word_size == 0) ≡ false = ground arith in
    rw (fits, some_bytes, words)
      (elim (Bool-cases (granted (n * word_size))) [
        | inl given ↦ inl (rw given)
        | inr refused ↦ inr (rw refused, refused)
      ])

pub kmalloc_words-refused :
    (granted : ℕ → Bool) (size : ℕ)
    → ((n : ℕ) → granted n ≡ false)
    → kmalloc_words granted size ≡ none
unfolding kmalloc_words
kmalloc_words-refused granted size refused = ground (arith, refused size)
