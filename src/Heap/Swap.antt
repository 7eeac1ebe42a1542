-- ===== src/Heap/Swap.antt =====
-- The exchange of two entries of a heap's array: what it does to each index, and that it keeps the
-- entries in use as they were, up to order.
use mathlib.Core.List.Perm
use jinx_os.Base.{
  ℕ, zero, suc, ◌<◌, ◌≡◌, refl, ◌∙◌, List, [], ◌∷◌, Perm, arith, ◌==◌, if◌then◌else◌, length,
  get_or, set, length-set, ok, take-set, get_or-set, get_or-take,
}
use jinx_os.Array.{Array, contents, IsValid}
use jinx_os.Array.Elements.{at, array_get_lem, array_set_lem, set-IsValid, length-contents}
use jinx_os.Heap.{swap}

-- A write trades the old entry for the new one.
set-perm : (xs : List ℕ) (i x : ℕ) → i < length xs → Perm (get_or xs i 0 ∷ set xs i x) (x ∷ xs)
set-perm [] i x h = absurd (omega arith)
set-perm (y ∷ xs) zero x h = Perm.swap x y xs
set-perm (y ∷ xs) (suc i) x h =
    Perm.trans (Perm.swap y _ _)
      (Perm.trans (Perm.cons y (set-perm xs i x (omega arith))) (Perm.swap x y xs))

unfoldable pub exchange : List ℕ → ℕ → ℕ → List ℕ
exchange xs i j = set (set xs i (get_or xs j 0)) j (get_or xs i 0)

pub get_or-exchange :
    (xs : List ℕ) (i j c : ℕ)
    → i < length xs
    → j < length xs
    → get_or (exchange xs i j) c 0
      ≡ (if j == c then get_or xs i 0 else if i == c then get_or xs j 0 else get_or xs c 0)
unfolding exchange
get_or-exchange xs i j c h k =
    let x = get_or xs j 0 in
    rw (
      get_or-set (set xs i x) j (get_or xs i 0) 0 c (omega (arith, length-set xs i x)),
      get_or-set xs i x 0 c h,
    )

exchange-perm : (xs : List ℕ) (i j : ℕ) → i < length xs → j < length xs → Perm (exchange xs i j) xs
unfolding exchange
exchange-perm xs i j h k =
    let x = get_or xs j 0 in
    let ys = set xs i x in
    let same : get_or ys j 0 ≡ x = ground (arith, get_or-set xs i x 0 j) in
    let second = set-perm ys j (get_or xs i 0) (omega (arith, length-set xs i x)) in
    Perm.cons_inv (Perm.trans (rw same at second) (set-perm xs i x h))

module _ (a : Array) (i j : ℕ) where
  unfoldable pub swapped : Array
  swapped = record a { v = exchange a.v i j }

  module _ (v : IsValid a) (hi : i < a.num) (hj : j < a.num) where
    pub swap_lem : swap a i j ≡ ok swapped
    unfolding swap swapped exchange
    swap_lem =
        let x = at a j in
        rw (
          array_get_lem a i v hi,
          array_get_lem a j v hj,
          array_set_lem a i x v hi,
          array_set_lem (record a { v = set a.v i x }) j (at a i) (set-IsValid a i x v) hj,
        )

    pub swapped-IsValid : IsValid swapped
    unfolding swapped exchange
    swapped-IsValid = record {
      bounded = v.bounded;
      block = length-set _ j _ ∙ (length-set a.v i _ ∙ v.block);
    }

    pub num-swapped : swapped.num ≡ a.num
    unfolding swapped
    num-swapped = refl

    pub at-swapped :
        (c : ℕ) → at swapped c ≡ (if j == c then at a i else if i == c then at a j else at a c)
    unfolding swapped
    at-swapped c =
        get_or-exchange a.v i j c (omega (arith, v.bounded, v.block))
          (omega (arith, v.bounded, v.block))

    pub contents-swapped : Perm (contents swapped) (contents a)
    unfolding swapped exchange
    contents-swapped =
        let p =
          exchange-perm (contents a) i j (omega (arith, length-contents a v))
            (omega (arith, length-contents a v)) in
        rw (take-set a.num (set a.v i (at a j)) j (at a i), take-set a.num a.v i (at a j))
          (rw (get_or-take a.num a.v i 0 hi, get_or-take a.num a.v j 0 hj) at p)
