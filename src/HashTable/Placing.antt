-- ===== src/HashTable/Placing.antt =====
-- klib/hashtable.c: the part of hashtable_add that puts the pair into its chain.
use jinx_os.Base.{
  ℕ, ◌+◌, ◌%◌, ◌^◌, ◌<◌, ◌≡◌, ◌≢◌, inl, inr, refl, ap, subst, ◌∙◌, Bool, true, false, Option, none,
  some, List, [], ◌∷◌, ◌++◌, arith, ◌==◌, ==→eq, eq→==, ne→==, if◌then◌else◌, Bool-cases, length,
  length-append, get_or, ok,
}
use jinx_os.Kernel.{wrap, success, kmalloc_ok}
use jinx_os.HashTable.{KvPair, HashTable, chain_find, chain_remove, kv_create, add_pair}
use jinx_os.HashTable.Chains.{
  IsComparator, first_none, assoc, assoc-chain_find, same_ne, assoc-remove_self, assoc-remove_other,
  assoc-snoc, Unique-remove, Unique-snoc, Placed-remove, Placed-snoc, length-remove,
}
use jinx_os.HashTable.Valid.{
  IsTable, chain_of, view, slot_lem, get-chain, replaced, replaced-IsTable, view-replaced,
  chain_of-Placed,
}

-- The allocator serves every request.
abbrev pub Served : (ℕ → Bool) → Type 0
Served granted = (n : ℕ) → granted n ≡ true

pub Served-kmalloc_ok :
    (granted : ℕ → Bool) (n : ℕ) → Served granted → n ≢ 0 → kmalloc_ok granted n ≡ true
unfolding kmalloc_ok
Served-kmalloc_ok granted n served some_bytes = rw (ne→== n 0 some_bytes, served n) refl

-- A size with one more key, if the key is new.
abbrev pub size_with : Option ℕ → ℕ → ℕ
size_with none n = n + 1
size_with (some val) n = n

module _ {K : Type 0} (hash : K → ℕ) (same : K → K → Bool) where
  -- What adding a pair does to the map and to the size.
  pub record Added (h : HashTable K) (key : K) (val : ℕ) (g : HashTable K) : Type 0 where
    pub valid : IsTable hash same g
    pub maps : (q : K) → view hash same g q ≡ (if same key q then some val else view hash same h q)
    pub size : g.size ≡ size_with (view hash same h key) h.size

module _ {K : Type 0} (hash : K → ℕ) {same : K → K → Bool} (is : IsComparator same)
    (granted : ℕ → Bool) (served : Served granted) (h : HashTable K) (v : IsTable hash same h)
    (key : K) (val : ℕ) where
  abbrev new_chain : List (KvPair K)
  new_chain =
      chain_remove same (chain_of hash same h key) key ++ record { key = key; val = val } ∷ []

  abbrev pub with_pair : HashTable K
  with_pair = replaced hash h v key new_chain (size_with (view hash same h key) h.size)

  find-size :
      (chain : List (KvPair K)) (n : ℕ)
      → n + 1 < 2 ^ 32
      → elim (chain_find same chain key) [ none ↦ wrap (n + 1) | some found ↦ n ]
        ≡ size_with (assoc same chain key) n
  find-size chain n room = ground (arith, assoc-chain_find same chain key)

  pub add_pair_lem :
      h.size + 1 < 2 ^ 32 → add_pair hash same granted h key val ≡ ok (success, with_pair)
  unfolding add_pair kv_create
  add_pair_lem room =
      rw
        (
          slot_lem hash h v key,
          get-chain hash h v key,
          Served-kmalloc_ok granted 16 served (omega arith),
          Served-kmalloc_ok granted 12 served (omega arith),
          find-size (chain_of hash same h key) h.size room,
        )
        refl

  snoc-count :
      (chain : List (KvPair K)) (n : ℕ) (item : KvPair K)
      → size_with (assoc same chain key) n + length chain
        ≡ n + length (chain_remove same chain key ++ item ∷ [])
  snoc-count chain n item = ground (
    arith,
    assoc-chain_find same chain key,
    length-remove is chain key,
    length-append (chain_remove same chain key) (item ∷ []),
  )

  with_pair-IsTable : IsTable hash same with_pair
  with_pair-IsTable =
      let (at, u) = chain_of-Placed hash h v key in
      replaced-IsTable hash h v key new_chain (size_with (view hash same h key) h.size)
        (Placed-snoc hash is h.arraysize _ _ _ (Placed-remove hash is h.arraysize _ _ key at) refl)
        (Unique-snoc is _ _ (Unique-remove is _ key u) (assoc-remove_self is _ key u))
        (snoc-count (chain_of hash same h key) h.size _)

  maps_self : (q : K) → key ≡ q → view hash same with_pair q ≡ some val
  maps_self q e =
      let gone : assoc same (chain_remove same (chain_of hash same h key) key) q ≡ none =
        subst (λ z. assoc same (chain_remove same (chain_of hash same h key) key) z ≡ none) e
          (assoc-remove_self is _ key (chain_of-Placed hash h v key).1) in
      let hit : same key q ≡ true = subst (λ z. same key z ≡ true) e (is.same_refl key) in
      view-replaced hash h v key new_chain (size_with (view hash same h key) h.size) q
      ∙ rw (eq→== _ _ (ap (λ z. hash z % h.arraysize) e))
          (assoc-snoc is _ _ q ∙ rw (gone, hit) refl)

  maps_other :
      (q : K) → same key q ≡ false → key ≢ q → view hash same with_pair q ≡ view hash same h q
  maps_other q miss ne =
      view-replaced hash h v key new_chain (size_with (view hash same h key) h.size) q
      ∙ elim (Bool-cases (hash key % h.arraysize == hash q % h.arraysize)) [
        | inl e ↦ rw e (
            assoc-snoc is _ _ q
            ∙ rw miss (first_none _)
            ∙ assoc-remove_other is _ key q ne
            ∙ ap (λ j. assoc same (get_or h.vals j []) q) (==→eq _ _ e))
        | inr e ↦ rw e refl
      ]

  pub with_pair-Added : Added hash same h key val with_pair
  with_pair-Added = record {
    valid = with_pair-IsTable;
    maps = λ q. elim (Bool-cases (same key q)) [
      | inl e ↦ rw e (maps_self q (is.same_eq key q e))
      | inr e ↦ rw e (maps_other q e (same_ne is key q e))
    ];
    size = refl;
  }
