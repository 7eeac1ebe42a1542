-- ===== src/HashTable/Calls.antt =====
-- klib/hashtable.c: sequences of calls on a new table, against the map that they describe.
use jinx_os.Base.{
  ℕ, ◌+◌, ◌^◌, ◌≤◌, ◌<◌, ◌≡◌, refl, ap, ◌∙◌, Bool, Option, none, some, List, [], ◌∷◌, arith,
  if◌then◌else◌, length, Run, ok, ◌>>=◌,
}
use jinx_os.HashTable.{HashTable, hashtable_create, hashtable_add, hashtable_find, hashtable_remove}
use jinx_os.HashTable.Chains.{IsComparator}
use jinx_os.HashTable.Valid.{view}
use jinx_os.HashTable.Placing.{Served, size_with}
use jinx_os.HashTable.Insertion.{IsLoaded, or_null, hashtable_add_lem, hashtable_find_lem}
use jinx_os.HashTable.Removal.{size_without, hashtable_remove_lem}
use jinx_os.HashTable.Whole.{new_table, hashtable_create-Served, new_table-IsLoaded, view-new_table}

pub data Call (K : Type 0) : Type 0 where
  add : K → ℕ → Call K
  remove : K → Call K

module _ {K : Type 0} (hash : K → ℕ) (same : K → K → Bool) (granted : ℕ → Bool) where
  -- One call after the other; what the calls return is dropped.
  unfoldable pub run_calls : HashTable K → List (Call K) → Run (HashTable K)
  run_calls h [] = ok h
  run_calls h (add key val ∷ calls) = do
    (err, g) ← hashtable_add hash same granted 2 h key val
    run_calls g calls
  run_calls h (remove key ∷ calls) = do
    (val, g) ← hashtable_remove hash same granted 2 h key
    run_calls g calls

-- The calls on a map.
abbrev pub map_after : {K : Type 0} → (K → K → Bool) → (K → Option ℕ) → List (Call K) → K → Option ℕ
map_after same m [] q = m q
map_after same m (add key val ∷ calls) q =
    map_after same (λ k. if same key k then some val else m k) calls q
map_after same m (remove key ∷ calls) q =
    map_after same (λ k. if same key k then none else m k) calls q

map_after-cong :
    {K : Type 0} (same : K → K → Bool) (m n : K → Option ℕ) (calls : List (Call K))
    → ((k : K) → m k ≡ n k)
    → (q : K) → map_after same m calls q ≡ map_after same n calls q
map_after-cong same m n [] e q = e q
map_after-cong same m n (add key val ∷ calls) e q =
    map_after-cong same _ _ calls (λ k. ap (λ w. if same key k then some val else w) (e k)) q
map_after-cong same m n (remove key ∷ calls) e q =
    map_after-cong same _ _ calls (λ k. ap (λ w. if same key k then none else w) (e k)) q

size_with-bound : (w : Option ℕ) (n : ℕ) → size_with w n ≤ n + 1
size_with-bound none n = omega arith
size_with-bound (some x) n = omega arith

size_without-bound : (w : Option ℕ) (n : ℕ) → size_without w n ≤ n
size_without-bound none n = omega arith
size_without-bound (some x) n = omega arith

module _ {K : Type 0} (hash : K → ℕ) (same : K → K → Bool) (granted : ℕ → Bool)
    (is : IsComparator same) (served : Served granted) where
  run_calls_lem :
      (calls : List (Call K)) (h : HashTable K)
      → IsLoaded hash same h
      → h.size + length calls < 2 ^ 27
      → (g : HashTable K) × (run_calls hash same granted h calls ≡ ok g)
        × IsLoaded hash same g
        × ((q : K) → view hash same g q ≡ map_after same (view hash same h) calls q)
  unfolding run_calls
  run_calls_lem [] h l few = (h, refl, l, λ q. refl)
  run_calls_lem (add key val ∷ calls) h l few =
      let (g, run, loaded, maps, size) =
        hashtable_add_lem hash same granted 0 h key val is served l (omega (arith, few)) in
      let bound = size_with-bound (view hash same h key) h.size in
      let (g', run', loaded', maps') =
        run_calls_lem calls g loaded (omega (arith, few, size, bound)) in
      (g', rw run run', loaded', λ q. maps' q ∙ map_after-cong same _ _ calls maps q)
  run_calls_lem (remove key ∷ calls) h l few =
      let (g, run, loaded, maps, size) =
        hashtable_remove_lem hash same granted 0 h key is served l (omega (arith, few)) in
      let bound = size_without-bound (view hash same h key) h.size in
      let (g', run', loaded', maps') =
        run_calls_lem calls g loaded (omega (arith, few, size, bound)) in
      (g', rw run run', loaded', λ q. maps' q ∙ map_after-cong same _ _ calls maps q)

-- With memory at hand, hashtable_create gives a table on which every sequence of fewer than 2 ^ 27
-- calls of hashtable_add and hashtable_remove ends, and hashtable_find then returns for every key
-- what a map does after the same calls, and NULL for a key without a value.
pub hashtable_refines :
    {K : Type 0} (hash : K → ℕ) (same : K → K → Bool) (granted : ℕ → Bool) (calls : List (Call K))
    → IsComparator same
    → Served granted
    → length calls < 2 ^ 27
    → (h g : HashTable K) × (hashtable_create granted ≡ some h)
      × (run_calls hash same granted h calls ≡ ok g)
      × ((q : K) → hashtable_find hash same g q ≡ ok (or_null (map_after same (λ k. none) calls q)))
hashtable_refines {K} hash same granted calls is served few =
    let (g, run, loaded, maps) =
      run_calls_lem hash same granted is served calls (new_table K) (new_table-IsLoaded hash same)
        (omega (arith, few)) in
    (
      new_table K,
      g,
      hashtable_create-Served K granted served,
      run,
      λ q.
          hashtable_find_lem hash same g q loaded.table
          ∙ ap (λ w. ok (or_null w))
              (maps q ∙ map_after-cong same _ _ calls (view-new_table hash same) q),
    )
