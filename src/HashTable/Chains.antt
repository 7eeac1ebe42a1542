-- ===== src/HashTable/Chains.antt =====
-- klib/hashtable.c: a chain as a map from keys to values.
use jinx_os.Base.{
  ℕ, ◌+◌, ◌%◌, ◌≡◌, ◌≢◌, ◌⊎◌, inl, inr, refl, sym, ap, subst, ◌∙◌, Bool, true, false, Option, none,
  some, List, [], ◌∷◌, ◌++◌, arith, if◌then◌else◌, Bool-cases, length,
}
use jinx_os.HashTable.{KvPair, chain_find, chain_remove}

-- The comparator finds equal keys, and only those.
pub record IsComparator {K : Type 0} (same : K → K → Bool) : Type 0 where
  pub same_refl : (k : K) → same k k ≡ true
  pub same_eq : (k q : K) → same k q ≡ true → k ≡ q

-- The first value that is there.
abbrev pub first : Option ℕ → Option ℕ → Option ℕ
first none b = b
first (some a) b = some a

pub first_none : (a : Option ℕ) → first a none ≡ a
first_none none = refl
first_none (some x) = refl

pub first_left : (a b : Option ℕ) → first a b ≡ none → a ≡ none
first_left none b e = refl
first_left (some x) b e = cc e

pub first_right : (a b : Option ℕ) → first a b ≡ none → b ≡ none
first_right none b e = e
first_right (some x) b e = cc e

-- Where only one of two has a value, their order does not matter.
pub first_swap :
    (a b c : Option ℕ) → (a ≡ none) ⊎ (b ≡ none) → first b (first a c) ≡ first (first a b) c
first_swap none b c apart = refl
first_swap (some x) none c apart = refl
first_swap (some x) (some y) c (inl e) = cc e
first_swap (some x) (some y) c (inr e) = cc e

module _ {K : Type 0} (same : K → K → Bool) where
  -- The value of a key in a chain.
  unfoldable pub assoc : List (KvPair K) → K → Option ℕ
  assoc [] q = none
  assoc (item ∷ chain) q = if same item.key q then some item.val else assoc chain q

  -- No two pairs of a chain have the same key.
  abbrev pub Unique : List (KvPair K) → Type 0
  Unique [] = Unit
  Unique (item ∷ chain) = (assoc chain item.key ≡ none) × Unique chain

  pub assoc-chain_find :
      (chain : List (KvPair K)) (q : K)
      → assoc chain q ≡ elim (chain_find same chain q) [ none ↦ none | some found ↦ some found.val ]
  unfolding assoc chain_find
  assoc-chain_find [] q = refl
  assoc-chain_find (item ∷ chain) q = ground (arith, assoc-chain_find chain q)

-- Every key of the chain belongs into slot `i` of `n`.
abbrev pub Placed : {K : Type 0} → (K → ℕ) → ℕ → ℕ → List (KvPair K) → Type 0
Placed hash n i [] = Unit
Placed hash n i (item ∷ chain) = (hash item.key % n ≡ i) × Placed hash n i chain

module _ {K : Type 0} {same : K → K → Bool} (is : IsComparator same) where
  pub same_ne : (k q : K) → same k q ≡ false → k ≢ q
  same_ne k q differ e = cc (is.same_refl k, differ, ap (same k) e)

  pub ne_same : (k q : K) → k ≢ q → same k q ≡ false
  ne_same k q differ = elim (Bool-cases (same k q)) [
    | inl e ↦ absurd (differ (is.same_eq k q e))
    | inr e ↦ e
  ]

  pub assoc-remove_self :
      (chain : List (KvPair K)) (k : K)
      → Unique same chain
      → assoc same (chain_remove same chain k) k ≡ none
  unfolding assoc chain_remove
  assoc-remove_self [] k u = refl
  assoc-remove_self (item ∷ chain) k (new, u) = elim (Bool-cases (same item.key k)) [
    | inl e ↦ rw e (subst (λ z. assoc same chain z ≡ none) (is.same_eq item.key k e) new)
    | inr e ↦ rw (e, e) (assoc-remove_self chain k u)
  ]

  pub assoc-remove_other :
      (chain : List (KvPair K)) (k q : K)
      → k ≢ q
      → assoc same (chain_remove same chain k) q ≡ assoc same chain q
  unfolding assoc chain_remove
  assoc-remove_other [] k q ne = refl
  assoc-remove_other (item ∷ chain) k q ne = elim (Bool-cases (same item.key k)) [
    | inl e ↦
        let other : same item.key q ≡ false =
          ne_same item.key q (λ z. ne (sym (is.same_eq item.key k e) ∙ z)) in
        rw (e, other) refl
    | inr e ↦ rw (e, assoc-remove_other chain k q ne) refl
  ]

  pub Unique-remove :
      (chain : List (KvPair K)) (k : K)
      → Unique same chain
      → Unique same (chain_remove same chain k)
  unfolding chain_remove
  Unique-remove [] k u = tt
  Unique-remove (item ∷ chain) k (new, u) = elim (Bool-cases (same item.key k)) [
    | inl e ↦ rw e u
    | inr e ↦ rw e (
      assoc-remove_other chain k item.key (λ z. same_ne item.key k e (sym z)) ∙ new,
      Unique-remove chain k u,
    )
  ]

  pub assoc-snoc :
      (chain : List (KvPair K)) (item : KvPair K) (q : K)
      → assoc same (chain ++ item ∷ []) q
        ≡ first (assoc same chain q) (if same item.key q then some item.val else none)
  unfolding assoc
  assoc-snoc [] item q = ground arith
  assoc-snoc (x ∷ chain) item q = ground (arith, assoc-snoc chain item q)

  pub Unique-snoc :
      (chain : List (KvPair K)) (item : KvPair K)
      → Unique same chain
      → assoc same chain item.key ≡ none
      → Unique same (chain ++ item ∷ [])
  unfolding assoc
  Unique-snoc [] item u new = (refl, tt)
  Unique-snoc (x ∷ chain) item (fresh, u) new = elim (Bool-cases (same x.key item.key)) [
    | inl e ↦ absurd (ground (arith, new, e))
    | inr e ↦ (
      assoc-snoc chain item x.key
          ∙ rw (fresh, ne_same item.key x.key (λ z. same_ne x.key item.key e (sym z))) refl,
      Unique-snoc chain item u (ground (arith, new, e)),
    )
  ]

  pub length-remove :
      (chain : List (KvPair K)) (k : K)
      → length chain
        ≡ length (chain_remove same chain k)
          + elim (chain_find same chain k) [ none ↦ 0 | some found ↦ 1 ]
  unfolding chain_remove chain_find
  length-remove [] k = refl
  length-remove (item ∷ chain) k = ground (arith, length-remove chain k)

module _ {K : Type 0} (hash : K → ℕ) {same : K → K → Bool} (is : IsComparator same) (n i : ℕ) where
  pub Placed-remove :
      (chain : List (KvPair K)) (k : K)
      → Placed hash n i chain
      → Placed hash n i (chain_remove same chain k)
  unfolding chain_remove
  Placed-remove [] k p = tt
  Placed-remove (item ∷ chain) k (at, p) = elim (Bool-cases (same item.key k)) [
    | inl e ↦ rw e p
    | inr e ↦ rw e (at, Placed-remove chain k p)
  ]

  pub Placed-snoc :
      (chain : List (KvPair K)) (item : KvPair K)
      → Placed hash n i chain
      → hash item.key % n ≡ i
      → Placed hash n i (chain ++ item ∷ [])
  Placed-snoc [] item p at = (at, tt)
  Placed-snoc (x ∷ chain) item (there, p) at = (there, Placed-snoc chain item p at)

  -- A key of another slot is not in the chain.
  pub assoc-Placed :
      (chain : List (KvPair K)) (q : K)
      → Placed hash n i chain
      → hash q % n ≢ i
      → assoc same chain q ≡ none
  unfolding assoc
  assoc-Placed [] q p other = refl
  assoc-Placed (item ∷ chain) q (at, p) other =
      rw (ne_same is item.key q (λ e. other (ap (λ z. hash z % n) (sym e) ∙ at)))
        (assoc-Placed chain q p other)
