-- ===== src/Array/Shift.antt =====
-- klib/array.c, array_remove: the entries behind the removed one slide down.
use jinx_os.Base.{
  ℕ, zero, suc, ◌+◌, ◌-◌, ◌≤◌, ◌<◌, ◌≡◌, refl, ◌∙◌, List, ◌++◌, arith, ltb, leb, lt→ltb, le→leb,
  ◌&&◌, if◌then◌else◌, length, get_or, get_elem?, set, take, drop, length-set, length-take,
  get_elem?-get_or, get_elem?-take, get_elem?-append, get_elem?-drop, get_elem?-set, list_ext,
  Returns, returns, Returns-bind, Returns-mono,
}
use jinx_os.Kernel.{store}
use jinx_os.Array.{Array, contents, IsValid, copy_words, array_remove}
use jinx_os.Array.Elements.{length-contents}

-- The forward copy loop moves `count` entries down by one.
copy_words-shifts :
    (count : ℕ) (v : List ℕ) (dst : ℕ)
    → dst + 1 + count ≤ length v
    → Returns
        (λ w.
          (length w ≡ length v)
          × ((j : ℕ)
              → get_elem? w j ≡ (
                  if leb dst j && ltb j (dst + count) then get_elem? v (j + 1) else get_elem? v j)))
        (copy_words count v dst (dst + 1))
unfolding copy_words store
copy_words-shifts zero v dst h = returns (refl, λ j. ground arith)
copy_words-shifts (suc count) v dst h =
    let x = get_or v (dst + 1) 0 in
    let w = set v dst x in
    let within : length w ≡ length v = length-set v dst x in
    rw (get_elem?-get_or v (dst + 1) 0 (omega arith), lt→ltb dst (length v) (omega arith))
      (Returns-mono (copy_words-shifts count w (dst + 1) (omega arith)) λ u (size, at). (
        size ∙ within,
        λ j. ground (
          arith,
          at j,
          get_elem?-set v dst x j,
          get_elem?-set v dst x (j + 1),
          get_elem?-get_or v (dst + 1) 0,
        ),
      ))

-- For every valid array and index in use, array_remove takes exactly that entry out: the entries
-- before it stay, those behind it move down by one, and the array stays valid.
pub array_remove_lem :
    (a : Array) (index : ℕ)
    → IsValid a
    → index < a.num
    → Returns
        (λ b.
          IsValid b
          × (b.max ≡ a.max)
          × (contents b ≡ take index (contents a) ++ drop (index + 1) (contents a)))
        (array_remove a index)
unfolding array_remove
array_remove_lem a index v h =
    rw (le→leb a.num a.max v.bounded, lt→ltb index a.num h)
      (Returns-bind
        (copy_words-shifts (a.num - (index + 1)) a.v index (omega (arith, v.bounded, v.block)))
        λ w (size, at). returns (
          record { bounded = omega (arith, v.bounded); block = size ∙ v.block },
          refl,
          list_ext _ _ λ i. ground (
            arith,
            at i,
            get_elem?-take (a.num - 1) w i,
            get_elem?-append (take index (contents a)) (drop (index + 1) (contents a)) i,
            length-take index (contents a),
            length-contents a v,
            get_elem?-take index (contents a) i,
            get_elem?-take a.num a.v i,
            get_elem?-drop (index + 1) (contents a) (i - index),
            get_elem?-take a.num a.v (index + 1 + (i - index)),
          ),
        ))
