-- ===== src/HashTable/Resize.antt =====
-- klib/hashtable.c: grow and shrink, which keep the map.
use jinx_os.Base.{
  ℕ, zero, suc, ◌+◌, ◌-◌, ◌*◌, ◌%◌, ◌^◌, ◌≤◌, ◌≡◌, inr, refl, sym, ap, subst, ◌∙◌, Bool, none, some,
  [], arith, eq→==, length, get_or, replicate, length-replicate, ok,
}
use jinx_os.Kernel.{wrap, success}
use jinx_os.HashTable.{
  HashTable, hashtable_type, init_array_with_lists, cleanup_array_with_lists, resize,
}
use jinx_os.HashTable.Chains.{IsComparator, first_none, assoc}
use jinx_os.HashTable.Buckets.{
  total-empty, get_or-empty, AllPlaced-empty, assoc_all, assoc_all-slot,
}
use jinx_os.HashTable.Valid.{IsTable, IsArraysize, IsArraysize-pos, view, slot_lt}
use jinx_os.HashTable.Placing.{Served, Served-kmalloc_ok}
use jinx_os.HashTable.Rehash.{Adder, IsAdder, rehash_lem}

pub init_array-Served :
    (K : Type 0) (granted : ℕ → Bool) (slots : ℕ)
    → Served granted
    → init_array_with_lists {K = K} granted slots ≡ some (replicate slots [])
unfolding init_array_with_lists
init_array-Served K granted zero served = refl
init_array-Served K granted (suc slots) served =
    rw (init_array-Served K granted slots served, Served-kmalloc_ok granted 16 served (omega arith))
      refl

cleanup-empty :
    (K : Type 0) (slots : ℕ) → cleanup_array_with_lists {K = K} (replicate slots []) ≡ ok tt
unfolding cleanup_array_with_lists
cleanup-empty K zero = refl
cleanup-empty K (suc slots) = cleanup-empty K slots

-- The table that the pairs move into.
abbrev pub emptied : {K : Type 0} → HashTable K → ℕ → HashTable K
emptied h slots = record h { vals = replicate slots []; size = 0; arraysize = slots }

module _ {K : Type 0} (hash : K → ℕ) {same : K → K → Bool} (h : HashTable K)
    (v : IsTable hash same h) where
  pub emptied-IsTable :
      (slots : ℕ) → IsArraysize slots → slots ≤ 2 ^ 29 → IsTable hash same (emptied h slots)
  emptied-IsTable slots array small = record {
    live = v.live;
    array = array;
    width = length-replicate slots [];
    small = small;
    placed = AllPlaced-empty hash same slots 0 slots;
    counted = total-empty K slots;
  }

  view-emptied : (slots : ℕ) (q : K) → view hash same (emptied h slots) q ≡ none
  unfolding assoc
  view-emptied slots q = ap (λ c. assoc same c q) (get_or-empty K slots (hash q % slots))

  all-view : (is : IsComparator same) (q : K) → assoc_all hash same h.vals q ≡ view hash same h q
  all-view is q =
      assoc_all-slot hash is h.arraysize 0 h.vals q v.placed (omega arith)
        (omega (arith, slot_lt hash h v q))
      ∙ ap (λ j. assoc same (get_or h.vals j []) q) {x = hash q % h.arraysize - 0}
          {y = hash q % h.arraysize} (omega arith)

module _ {K : Type 0} (hash : K → ℕ) {same : K → K → Bool} (is : IsComparator same)
    (granted : ℕ → Bool) (served : Served granted) (Fit : ℕ → HashTable K → Type 0) (add : Adder K)
    (adds : IsAdder hash same Fit add) where
  -- A resizing ends with success, and the map and its size are as before.
  pub resize_lem :
      (h : HashTable K) (slots n : ℕ)
      → IsTable hash same h
      → IsArraysize slots
      → slots ≤ 2 ^ 29
      → Fit (h.size + n) (emptied h slots)
      → (g : HashTable K) × (resize granted add h slots ≡ ok (success, g))
        × ((q : K) → view hash same g q ≡ view hash same h q)
        × (g.size ≡ h.size)
        × Fit n g
  unfolding resize
  resize_lem h slots n v array small fit =
      let (g, run, joined, fit') =
        rehash_lem hash is Fit add adds h.arraysize 0 h.vals n (emptied h slots)
          (subst (λ z. Fit (z + n) (emptied h slots)) (sym v.counted) fit) v.placed
          (λ q. inr (view-emptied hash h v slots q)) in
      (
        g,
        rw
            (
              eq→== h.datatype hashtable_type v.live,
              Served-kmalloc_ok granted (wrap (slots * 4)) served
                  (omega (arith, IsArraysize-pos slots array)),
              init_array-Served K granted slots served,
              run,
              cleanup-empty K (length h.vals),
            )
            refl,
        λ q.
            joined.maps q
            ∙ rw (view-emptied hash h v slots q) (first_none _ ∙ all-view hash h v is q),
        omega (arith, joined.size, v.counted),
        fit',
      )
