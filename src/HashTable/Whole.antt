-- ===== src/HashTable/Whole.antt =====
-- klib/hashtable.c: hashtable_create, hashtable_assertvalid, and hashtable_add without memory.
use jinx_os.Base.{
  ℕ, ◌+◌, ◌%◌, ◌^◌, ◌<◌, ◌≡◌, refl, ap, ◌∙◌, Bool, none, some, List, [], ◌∷◌, arith, ◌==◌, eq→==,
  length, length-replicate, replicate, ok, check,
}
use jinx_os.Kernel.{wrap}
use jinx_os.HashTable.{
  KvPair, HashTable, hashtable_type, hashtable_create, assert_hashes, count_pairs,
  hashtable_assertvalid,
}
use jinx_os.HashTable.Chains.{assoc, Placed}
use jinx_os.HashTable.Buckets.{total, total-empty, get_or-empty, AllPlaced, AllPlaced-empty}
use jinx_os.HashTable.Valid.{IsTable, smallest, view}
use jinx_os.HashTable.Placing.{Served, Served-kmalloc_ok}
use jinx_os.HashTable.Resize.{init_array-Served}
use jinx_os.HashTable.Insertion.{IsLoaded}

-- The table of eight empty chains.
abbrev pub new_table : (K : Type 0) → HashTable K
new_table K = record { datatype = hashtable_type; size = 0; arraysize = 8; vals = replicate 8 [] }

pub hashtable_create-Served :
    (K : Type 0) (granted : ℕ → Bool)
    → Served granted
    → hashtable_create {K = K} granted ≡ some (new_table K)
unfolding hashtable_create
hashtable_create-Served K granted served =
    rw
      (
        Served-kmalloc_ok granted 20 served (omega arith),
        Served-kmalloc_ok granted 32 served (omega arith),
        init_array-Served K granted 8 served,
      )
      refl

module _ {K : Type 0} (hash : K → ℕ) (same : K → K → Bool) where
  pub new_table-IsLoaded : IsLoaded hash same (new_table K)
  new_table-IsLoaded = record {
    table = record {
      live = refl;
      array = smallest;
      width = length-replicate {A = List (KvPair K)} 8 [];
      small = omega arith;
      placed = AllPlaced-empty hash same 8 0 8;
      counted = total-empty K 8;
    };
    load = omega arith;
  }

  pub view-new_table : (q : K) → view hash same (new_table K) q ≡ none
  unfolding assoc
  view-new_table q = ap (λ c. assoc same c q) (get_or-empty K 8 (hash q % 8))

  assert_hashes_lem :
      (n i : ℕ) (chain : List (KvPair K))
      → Placed hash n i chain
      → assert_hashes hash n i chain ≡ ok tt
  unfolding assert_hashes
  assert_hashes_lem n i [] p = refl
  assert_hashes_lem n i (kv ∷ chain) (at, p) = rw (eq→== _ _ at) (assert_hashes_lem n i chain p)

  count_pairs_lem :
      (n i count : ℕ) (vals : List (List (KvPair K)))
      → AllPlaced hash same n i vals
      → count + total vals < 2 ^ 32
      → count_pairs hash n i count vals ≡ ok (count + total vals)
  unfolding count_pairs
  count_pairs_lem n i count [] p small = ap ok {x = count} {y = count + 0} (omega arith)
  count_pairs_lem n i count (chain ∷ vals) ((at, u), p) small =
      let fits : wrap (count + length chain) ≡ count + length chain = omega arith in
      rw (assert_hashes_lem n i chain at, fits)
        (count_pairs_lem n (i + 1) (count + length chain) vals p (omega arith)
          ∙ ap ok {x = count + length chain + total vals} {y = count + (length chain + total vals)}
              (omega arith))

  -- What hashtable_assertvalid finds of a live table whose chains are in order: whether the size is
  -- the number of pairs.
  assertvalid-count :
      (h : HashTable K)
      → h.datatype ≡ hashtable_type
      → AllPlaced hash same h.arraysize 0 h.vals
      → total h.vals < 2 ^ 32
      → hashtable_assertvalid hash h ≡ check (total h.vals == h.size)
  unfolding hashtable_assertvalid
  assertvalid-count h live p small =
      rw
        (
          eq→== h.datatype hashtable_type live,
          count_pairs_lem h.arraysize 0 0 h.vals p (omega arith),
        )
        (ap (λ n. check (n == h.size)) {x = 0 + total h.vals} {y = total h.vals} (omega arith))

  pub hashtable_assertvalid_lem :
      (h : HashTable K)
      → IsTable hash same h
      → h.size < 2 ^ 32
      → hashtable_assertvalid hash h ≡ ok tt
  hashtable_assertvalid_lem h v small =
      assertvalid-count h v.live v.placed (omega (arith, v.counted))
      ∙ ap check (eq→== _ _ v.counted)
