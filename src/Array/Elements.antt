-- ===== src/Array/Elements.antt =====
-- klib/array.c: array_get, array_set and array_add, as reads and writes of the entries in use.
use jinx_os.Base.{
  ℕ, ◌+◌, ◌^◌, ◌≤◌, ◌<◌, ◌≡◌, refl, ◌∙◌, ◌⊎◌, inl, inr, [], ◌∷◌, ◌++◌, Bool, false, arith, lt→ltb,
  le→ltb, eq→==, length, get_or, set, take, length-set, length-take, get_elem?-get_or,
  get_elem?-take, get_elem?-append, get_elem?-set, list_ext, ok, panic, Returns, returns,
  Returns-bind,
}
use jinx_os.Kernel.{store, success, enomem, wrap}
use jinx_os.Array.{Array, contents, IsValid, array_init, array_get, array_set, array_add}
use jinx_os.Array.Growth.{array_setsize_refused, Resized, array_setsize_outcome}

-- The entry at `i`, for an index in use.
abbrev pub at : Array → ℕ → ℕ
at a i = get_or a.v i 0

pub array_init-IsValid : IsValid array_init
unfolding array_init
array_init-IsValid = record { bounded = omega arith; block = refl }

pub length-contents : (a : Array) → IsValid a → length (contents a) ≡ a.num
length-contents a v = length-take a.num a.v (omega (arith, v.bounded, v.block))

-- array_get reads the entry, for an index in use.
pub array_get_lem : (a : Array) (i : ℕ) → IsValid a → i < a.num → array_get a i ≡ ok (at a i)
unfolding array_get
array_get_lem a i v h =
    rw (lt→ltb i a.num h, get_elem?-get_or a.v i 0 (omega (arith, v.bounded, v.block)))

-- Out of range, array_get and array_set stop the kernel.
pub array_get_out : (a : Array) (i : ℕ) → a.num ≤ i → array_get a i ≡ panic
unfolding array_get
array_get_out a i h = rw (le→ltb i a.num h)

pub array_set_lem :
    (a : Array) (i x : ℕ)
    → IsValid a
    → i < a.num
    → array_set a i x ≡ ok (record a { v = set a.v i x })
unfolding array_set store
array_set_lem a i x v h =
    rw (lt→ltb i a.num h, lt→ltb i (length a.v) (omega (arith, v.bounded, v.block)))

pub set-IsValid : (a : Array) (i x : ℕ) → IsValid a → IsValid (record a { v = set a.v i x })
set-IsValid a i x v = record { bounded = v.bounded; block = length-set a.v i x ∙ v.block }

-- What array_add comes to: the value behind the old entries, at the index that it reports, or
-- ENOMEM and nothing changed.
abbrev pub Added : (ℕ → Bool) → Array → ℕ → ℕ × ℕ × Array → Type 0
Added granted a val (ret, index, b) =
    ((ret ≡ success) × (index ≡ a.num) × IsValid b × (contents b ≡ contents a ++ val ∷ []))
    ⊎ ((ret ≡ enomem) × (b ≡ a) × (a.num ≡ a.max) × ((size : ℕ) × (granted size ≡ false)))

contents-add :
    (a b : Array) (val : ℕ)
    → IsValid a
    → Resized a (a.num + 1) b
    → take b.num (set b.v a.num val) ≡ contents a ++ val ∷ []
contents-add a b val v r = list_ext _ _ λ i. ground (
  arith,
  r.kept i,
  get_elem?-take b.num (set b.v a.num val) i,
  get_elem?-take a.num a.v i,
  get_elem?-set b.v a.num val i,
  get_elem?-append (contents a) (val ∷ []) i,
  length-contents a v,
)

-- For every valid array of fewer than 2 ^ 29 entries, array_add ends: it appends the value, or it
-- returns ENOMEM and leaves the array as it was, which needs a full block and a refused request.
pub array_add_outcome :
    (granted : ℕ → Bool) (a : Array) (val : ℕ)
    → IsValid a
    → a.num < 2 ^ 29
    → Returns (Added granted a val) (array_add granted a val)
unfolding array_add store
array_add_outcome granted a val v h =
    let next : wrap (a.num + 1) ≡ a.num + 1 = omega arith in
    rw next (
      Returns-bind (array_setsize_outcome granted a (a.num + 1) v (omega arith)) λ (ret, b) o.
        elim o [
          | inl (done, r) ↦
              rw
                (
                  eq→== ret success done,
                  lt→ltb a.num (length b.v) (omega (arith, r.valid.bounded, r.valid.block, r.size)),
                )
                (returns
                  (inl (refl, refl, set-IsValid b a.num val r.valid, contents-add a b val v r)))
          | inr (failed, same, full, refused) ↦
              rw (failed, same) (returns (inr (refl, refl, omega (arith, v.bounded), refused)))
        ])

-- A full array that the allocator does not let grow: array_add returns ENOMEM.
pub array_add_refused :
    (granted : ℕ → Bool) (a : Array) (val : ℕ)
    → IsValid a
    → a.num < 2 ^ 29
    → a.num ≡ a.max
    → ((size : ℕ) → granted size ≡ false)
    → array_add granted a val ≡ ok (enomem, 0, a)
unfolding array_add
array_add_refused granted a val v h full refused =
    let next : wrap (a.num + 1) ≡ a.num + 1 = omega arith in
    rw (next, array_setsize_refused granted a (a.num + 1) (omega arith) (omega arith) refused)
