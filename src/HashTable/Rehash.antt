-- ===== src/HashTable/Rehash.antt =====
-- klib/hashtable.c: rehash, and the two resizings that end with it. `Fit n h` says that hashtable_add
-- can take `n` more pairs into `h`.
use jinx_os.Base.{
  ℕ, suc, ◌+◌, ◌≡◌, ◌⊎◌, inl, inr, refl, ap, subst, ◌∙◌, Bool, Option, none, List, [], ◌∷◌, arith,
  Bool-cases, length, replicate, Run, ok,
}
use jinx_os.Kernel.{success}
use jinx_os.HashTable.{KvPair, HashTable, rehash_chain, rehash}
use jinx_os.HashTable.Chains.{
  IsComparator, first, first_left, first_right, first_swap, assoc, Unique,
}
use jinx_os.HashTable.Buckets.{total, AllPlaced, assoc_all, assoc_all-apart}
use jinx_os.HashTable.Valid.{view}
use jinx_os.HashTable.Placing.{size_with, Added}

abbrev pub Adder : Type 0 → Type 0
Adder K = HashTable K → K → ℕ → Run (ℕ × HashTable K)

module _ {K : Type 0} (hash : K → ℕ) (same : K → K → Bool) where
  -- `add` works on the tables that fit, and leaves a table that fits one pair less.
  abbrev pub IsAdder : (ℕ → HashTable K → Type 0) → Adder K → Type 0
  IsAdder Fit add =
      (n : ℕ) (h : HashTable K) (key : K) (val : ℕ)
      → Fit (suc n) h
      → (g : HashTable K) × (add h key val ≡ ok (success, g))
        × Added hash same h key val g
        × Fit n g

  -- The table `g` has the pairs that `more` finds on top of those of `h`.
  pub record Joined (h : HashTable K) (more : K → Option ℕ) (count : ℕ) (g : HashTable K)
      : Type 0 where
    pub maps : (q : K) → view hash same g q ≡ first (more q) (view hash same h q)
    pub size : g.size ≡ h.size + count

module _ {K : Type 0} (hash : K → ℕ) {same : K → K → Bool} (is : IsComparator same) where
  -- The keys of the chain that are left are still new to the table.
  Added-apart :
      (item : KvPair K) (chain : List (KvPair K)) (h g : HashTable K)
      → assoc same chain item.key ≡ none
      → ((q : K) → (assoc same (item ∷ chain) q ≡ none) ⊎ (view hash same h q ≡ none))
      → Added hash same h item.key item.val g
      → (q : K) → (assoc same chain q ≡ none) ⊎ (view hash same g q ≡ none)
  unfolding assoc
  Added-apart item chain h g new apart added q = elim (Bool-cases (same item.key q)) [
    | inl e ↦ inl (subst (λ z. assoc same chain z ≡ none) (is.same_eq item.key q e) new)
    | inr e ↦ elim (apart q) [
      | inl absent ↦ inl (cc (rw e at absent))
      | inr absent ↦ inr (added.maps q ∙ rw e absent)
    ]
  ]

  Added-Joined :
      (item : KvPair K) (chain : List (KvPair K)) (h g g' : HashTable K)
      → assoc same chain item.key ≡ none
      → ((q : K) → (assoc same (item ∷ chain) q ≡ none) ⊎ (view hash same h q ≡ none))
      → Added hash same h item.key item.val g
      → Joined hash same g (assoc same chain) (length chain) g'
      → Joined hash same h (assoc same (item ∷ chain)) (suc (length chain)) g'
  unfolding assoc
  Added-Joined item chain h g g' new apart added joined = record {
    maps = λ q. joined.maps q ∙ elim (Bool-cases (same item.key q)) [
      | inl e ↦
          rw
            (
              e,
              added.maps q,
              subst (λ z. assoc same chain z ≡ none) (is.same_eq item.key q e) new,
              e,
            )
            refl
      | inr e ↦ rw (e, added.maps q, e) refl
    ];
    size =
        let fresh : view hash same h item.key ≡ none = elim (apart item.key) [
          | inl absent ↦ absurd (cc (rw (is.same_refl item.key) at absent))
          | inr absent ↦ absent
        ] in
        omega (arith, joined.size, added.size ∙ ap (λ w. size_with w h.size) fresh);
  }

module _ {K : Type 0} (hash : K → ℕ) {same : K → K → Bool} (is : IsComparator same)
    (Fit : ℕ → HashTable K → Type 0) (add : Adder K) (adds : IsAdder hash same Fit add) where
  rehash_chain_lem :
      (chain : List (KvPair K)) (n : ℕ) (h : HashTable K)
      → Fit (length chain + n) h
      → Unique same chain
      → ((q : K) → (assoc same chain q ≡ none) ⊎ (view hash same h q ≡ none))
      → (g : HashTable K) × (rehash_chain add h chain ≡ ok (g, []))
        × Joined hash same h (assoc same chain) (length chain) g
        × Fit n g
  unfolding rehash_chain assoc
  rehash_chain_lem [] n h fit u apart = (
    h,
    refl,
    record { maps = λ q. refl; size = omega arith },
    subst (λ z. Fit z h) {x = 0 + n} {y = n} (omega arith) fit,
  )
  rehash_chain_lem (item ∷ chain) n h fit (new, u) apart =
      let (g, run, added, fit') = adds (length chain + n) h item.key item.val (
        subst (λ z. Fit z h) {x = suc (length chain) + n} {y = suc (length chain + n)} (omega arith)
          fit) in
      let (g', run', joined, fit'') =
        rehash_chain_lem chain n g fit' u (Added-apart hash is item chain h g new apart added) in
      (g', rw run run', Added-Joined hash is item chain h g g' new apart added joined, fit'')

  -- rehash with every chain of the source array, which it leaves empty.
  pub rehash_lem :
      (slots i : ℕ) (vals : List (List (KvPair K))) (n : ℕ) (h : HashTable K)
      → Fit (total vals + n) h
      → AllPlaced hash same slots i vals
      → ((q : K) → (assoc_all hash same vals q ≡ none) ⊎ (view hash same h q ≡ none))
      → (g : HashTable K) × (rehash add h vals ≡ ok (g, replicate (length vals) []))
        × Joined hash same h (assoc_all hash same vals) (total vals) g
        × Fit n g
  unfolding rehash assoc_all
  rehash_lem slots i [] n h fit p apart = (
    h,
    refl,
    record { maps = λ q. refl; size = omega arith },
    subst (λ z. Fit z h) {x = 0 + n} {y = n} (omega arith) fit,
  )
  rehash_lem slots i (chain ∷ vals) n h fit p apart =
      let (g, run, joined, fit') =
        rehash_chain_lem chain (total vals + n) h
          (subst (λ z. Fit z h) {x = length chain + total vals + n}
            {y = length chain + (total vals + n)} (omega arith) fit)
          p.0.1 (λ q. elim (apart q) [ inl e ↦ inl (first_left _ _ e) | inr e ↦ inr e ]) in
      let (g', run', joined', fit'') = rehash_lem slots (i + 1) vals n g fit' p.1 (λ q.
        elim (assoc_all-apart hash is slots i chain vals q p) [
          | inr e ↦ inl e
          | inl e ↦ elim (apart q) [
            | inl e' ↦ inl (first_right (assoc same chain q) _ e')
            | inr e' ↦ inr (joined.maps q ∙ rw (e, e') refl)
          ]
        ]) in
      (
        g',
        rw (run, run') refl,
        record {
          maps = λ q.
              joined'.maps q
              ∙ ap (first (assoc_all hash same vals q)) (joined.maps q)
              ∙ first_swap (assoc same chain q) _ _
                  (assoc_all-apart hash is slots i chain vals q p);
          size = omega (arith, joined.size, joined'.size);
        },
        fit'',
      )
