-- ===== src/Tests/HashTests.antt =====
-- klib/hashtable.c and its theorems at small tables of strings.
use jinx_os.Base.{
  ℕ, ◌+◌, ◌≡◌, ◌↔◌, refl, true, none, some, List, [], ◌∷◌, ◌++◌, arith, if◌then◌else◌, ok,
}
use jinx_os.HashTable.{HashTable, hashtable_create, hashtable_find, hashtable_remove}
use jinx_os.HashTable.Keys.{
  hash, key_comparator, string_hash, same_string, same_string-IsComparator, key_functions_lem,
}
use jinx_os.HashTable.Chains.{assoc}
use jinx_os.HashTable.Valid.{IsTable, smallest, view}
use jinx_os.HashTable.Insertion.{IsLoaded, or_null}
use jinx_os.HashTable.Removal.{size_without, hashtable_remove_lem}
use jinx_os.HashTable.Calls.{Call, add, remove, run_calls, map_after, hashtable_refines}
use jinx_os.Tests.ArrayTests.{always}

abbrev key_a : List ℕ
key_a = 97 ∷ []

abbrev key_b : List ℕ
key_b = 98 ∷ []

abbrev three_calls : List (Call (List ℕ))
three_calls = add key_a 5 ∷ remove key_b ∷ add key_a 7 ∷ []

hashtable_refines_example :
    (h g : HashTable (List ℕ)) × (hashtable_create always ≡ some h)
    × (run_calls string_hash same_string always h three_calls ≡ ok g)
    × ((q : List ℕ)
        → hashtable_find string_hash same_string g q
          ≡ ok (or_null (map_after same_string (λ k. none) three_calls q)))
hashtable_refines_example =
    hashtable_refines string_hash same_string always three_calls same_string-IsComparator
      (λ n. refl) (omega arith)

-- "a" hashes to 177670, which slot 6 of 8 holds.
abbrev one_pair : HashTable (List ℕ)
one_pair = record {
  datatype = 4444;
  size = 1;
  arraysize = 8;
  vals = [] ∷ [] ∷ [] ∷ [] ∷ [] ∷ [] ∷ (record { key = key_a; val = 5 } ∷ []) ∷ [] ∷ [];
}

one_pair-IsTable : IsTable string_hash same_string one_pair
unfolding assoc
one_pair-IsTable = record {
  live = refl;
  array = smallest;
  width = refl;
  small = omega arith;
  placed = (
    (tt, tt),
    (
      (tt, tt),
      ((tt, tt), ((tt, tt), ((tt, tt), ((tt, tt), (((refl, tt), (refl, tt)), ((tt, tt), tt)))))),
    ),
  );
  counted = refl;
}

one_pair-IsLoaded : IsLoaded string_hash same_string one_pair
one_pair-IsLoaded = record { table = one_pair-IsTable; load = omega arith }

there : view string_hash same_string one_pair key_a ≡ some 5
unfolding assoc
there = refl

hashtable_remove_lem_example :
    (g : HashTable (List ℕ)) × (hashtable_remove string_hash same_string always
        (2 + 0)
        one_pair
        key_a
      ≡ ok (or_null (view string_hash same_string one_pair key_a), g))
    × IsLoaded string_hash same_string g
    × ((q : List ℕ)
        → view string_hash same_string g q
          ≡ (if same_string key_a q then none else view string_hash same_string one_pair q))
    × (g.size ≡ size_without (view string_hash same_string one_pair key_a) 1)
hashtable_remove_lem_example =
    hashtable_remove_lem string_hash same_string always 0 one_pair key_a same_string-IsComparator
      (λ n. refl) one_pair-IsLoaded (omega arith)

key_functions_lem_example :
    (hash (key_a ++ 0 ∷ []) 1 ≡ ok (string_hash key_a))
    × (key_comparator (key_a ++ 0 ∷ []) 1 (key_b ++ 0 ∷ 3 ∷ []) 1 ≡ ok (same_string key_a key_b))
    × (same_string key_a key_b ≡ true ↔ key_a ≡ key_b)
key_functions_lem_example =
    key_functions_lem key_a key_b [] (3 ∷ []) (omega arith, tt) (omega arith, tt)
