-- ===== src/HashTable.antt =====
-- klib/hashtable.c: the hash table. A key is what the comparator can tell of it, and `hash` and `same`
-- are the hash function and the comparator on keys (HashTable/Keys has those of the source). A chain
-- is the list of values that a list of klib/list.c stands for, and a pair is a value.
pub mod Keys
pub mod Chains
pub mod Buckets
pub mod Valid
pub mod Placing
pub mod Rehash
pub mod Resize
pub mod Insertion
pub mod Removal
pub mod Whole
pub mod Calls
use jinx_os.Base.{
  ℕ, zero, suc, ◌+◌, ◌-◌, ◌*◌, ◌/◌, ◌%◌, ◌^◌, Bool, true, false, not, ◌&&◌, Option, none, some,
  List, [], ◌∷◌, ◌++◌, ltb, ◌==◌, if◌then◌else◌, length, get_elem?, set, Run, ok, fault,
  out_of_fuel, ◌>>=◌, ◌>>◌, check, deref,
}
use jinx_os.Kernel.{wrap, success, enomem, null, kmalloc_ok}

-- HASHTABLETYPE, LF_MULTIPLE and MIN_SIZE
abbrev pub hashtable_type : ℕ
hashtable_type = 4444

abbrev pub lf_multiple : ℕ
lf_multiple = 2

abbrev pub min_size : ℕ
min_size = 8

-- struct kv_pair
pub record KvPair (K : Type 0) : Type 0 where
  pub key : K
  pub val : ℕ

-- struct hashtable; no function reads its `init_size`.
pub record HashTable (K : Type 0) : Type 0 where
  pub datatype : ℕ
  pub size : ℕ
  pub arraysize : ℕ
  pub vals : List (List (KvPair K))

module _ {K : Type 0} where
  abbrev pub assert_hashtable : HashTable K → Run (Unit {0})
  assert_hashtable h = check (h.datatype == hashtable_type)

  -- cleanup_array_with_lists, up to its calls of list_destroy.
  unfoldable pub cleanup_array_with_lists : List (List (KvPair K)) → Run (Unit {0})
  cleanup_array_with_lists [] = ok tt
  cleanup_array_with_lists (chain ∷ vals) =
      check (length chain == 0) >> cleanup_array_with_lists vals

  -- The inner and the outer loop of rehash, with the lists of the source array as they are left; what
  -- hashtable_add returns is not looked at.
  unfoldable pub rehash_chain :
      (HashTable K → K → ℕ → Run (ℕ × HashTable K))
      → HashTable K
      → List (KvPair K)
      → Run (HashTable K × List (KvPair K))
  rehash_chain add h [] = ok (h, [])
  rehash_chain add h (item ∷ chain) = do
    (err, g) ← add h item.key item.val
    rehash_chain add g chain

  unfoldable pub rehash :
      (HashTable K → K → ℕ → Run (ℕ × HashTable K))
      → HashTable K
      → List (List (KvPair K))
      → Run (HashTable K × List (List (KvPair K)))
  rehash add h [] = ok (h, [])
  rehash add h (chain ∷ source_array) = do
    (g, left) ← rehash_chain add h chain
    check (length left == 0)
    (g', others) ← rehash add g source_array
    ok (g', left ∷ others)

  unfoldable pub hashtable_isempty : HashTable K → Run Bool
  hashtable_isempty h = assert_hashtable h >> ok (h.size == 0)

  unfoldable pub hashtable_getsize : HashTable K → Run ℕ
  hashtable_getsize h = assert_hashtable h >> ok h.size

  unfoldable pub hashtable_destroy : HashTable K → Run (Unit {0})
  hashtable_destroy h = assert_hashtable h >> cleanup_array_with_lists h.vals

module _ {K : Type 0} (same : K → K → Bool) where
  -- list_find and list_remove of klib/list.c with key_comparator.
  unfoldable pub chain_find : List (KvPair K) → K → Option (KvPair K)
  chain_find [] query = none
  chain_find (item ∷ chain) query =
      if same item.key query then some item else chain_find chain query

  unfoldable pub chain_remove : List (KvPair K) → K → List (KvPair K)
  chain_remove [] query = []
  chain_remove (item ∷ chain) query =
      if same item.key query then chain else item ∷ chain_remove chain query

module _ {K : Type 0} (granted : ℕ → Bool) where
  -- kv_create: a pair takes 16 bytes.
  unfoldable pub kv_create : K → ℕ → Option (KvPair K)
  kv_create key val = if kmalloc_ok granted 16 then some (record { key = key; val = val }) else none

  -- init_array_with_lists over the slots left: a list object takes 16 bytes.
  unfoldable pub init_array_with_lists : ℕ → Option (List (List (KvPair K)))
  init_array_with_lists zero = some []
  init_array_with_lists (suc slots) =
      let rest = init_array_with_lists slots in
      if kmalloc_ok granted 16
      then elim rest [ none ↦ none | some vals ↦ some ([] ∷ vals) ]
      else none

  unfoldable pub hashtable_create : Option (HashTable K)
  hashtable_create =
      if not (kmalloc_ok granted 20)
      then none
      else if not (kmalloc_ok granted (min_size * 4))
      then none
      else elim (init_array_with_lists min_size) [
        | none ↦ none
        | some vals ↦
            some (record { datatype = hashtable_type; size = 0; arraysize = min_size; vals = vals })
      ]

  -- What grow and shrink share: the pairs move to a new array of `slots` lists.
  unfoldable pub resize :
      (HashTable K → K → ℕ → Run (ℕ × HashTable K)) → HashTable K → ℕ → Run (ℕ × HashTable K)
  resize add h slots = do
    assert_hashtable h
    if not (kmalloc_ok granted (wrap (slots * 4)))
        then ok (enomem, h)
        else (elim (init_array_with_lists slots) [
          | none ↦ ok (enomem, h)
          | some vals ↦ do
            (g, left) ← rehash add (record h { vals = vals; size = 0; arraysize = slots }) h.vals
            cleanup_array_with_lists left
            ok (success, g)
        ])

  unfoldable pub grow :
      (HashTable K → K → ℕ → Run (ℕ × HashTable K)) → HashTable K → Run (ℕ × HashTable K)
  grow add h = resize add h (wrap (h.arraysize * 2))

  unfoldable pub shrink :
      (HashTable K → K → ℕ → Run (ℕ × HashTable K)) → HashTable K → Run (ℕ × HashTable K)
  shrink add h = resize add h (h.arraysize / 2)

module _ {K : Type 0} (hash : K → ℕ) where
  -- `hash(key, keylen) % h->arraysize`
  unfoldable pub slot : HashTable K → K → Run ℕ
  slot h key = if h.arraysize == 0 then fault else ok (hash key % h.arraysize)

  -- The inner and the outer loop of hashtable_assertvalid.
  unfoldable pub assert_hashes : ℕ → ℕ → List (KvPair K) → Run (Unit {0})
  assert_hashes arraysize i [] = ok tt
  assert_hashes arraysize i (kv ∷ chain) =
      check (hash kv.key % arraysize == i) >> assert_hashes arraysize i chain

  unfoldable pub count_pairs : ℕ → ℕ → ℕ → List (List (KvPair K)) → Run ℕ
  count_pairs arraysize i count [] = ok count
  count_pairs arraysize i count (chain ∷ vals) = do
    assert_hashes arraysize i chain
    count_pairs arraysize (i + 1) (wrap (count + length chain)) vals

  unfoldable pub hashtable_assertvalid : HashTable K → Run (Unit {0})
  hashtable_assertvalid h = do
    assert_hashtable h
    count ← count_pairs h.arraysize 0 0 h.vals
    check (count == h.size)

module _ {K : Type 0} (hash : K → ℕ) (same : K → K → Bool) where
  -- hashtable_find: the value, or NULL.
  unfoldable pub hashtable_find : HashTable K → K → Run ℕ
  hashtable_find h key = do
    assert_hashtable h
    index ← slot hash h key
    chain ← deref (get_elem? h.vals index)
    elim (chain_find same chain key) [ none ↦ ok null | some found ↦ ok found.val ]

module _ {K : Type 0} (hash : K → ℕ) (same : K → K → Bool) (granted : ℕ → Bool) where
  -- hashtable_add behind its first test: a list node takes 12 bytes.
  unfoldable pub add_pair : HashTable K → K → ℕ → Run (ℕ × HashTable K)
  add_pair h key val = do
    index ← slot hash h key
    chain ← deref (get_elem? h.vals index)
    let rest = chain_remove same chain key
    elim (kv_create granted key val) [
      | none ↦ ok (enomem, record h { vals = set h.vals index rest })
      | some new_item ↦
          if not (kmalloc_ok granted 12)
          then ok (enomem, record h { vals = set h.vals index rest })
          else ok (
            success,
            record h {
              vals = set h.vals index (rest ++ new_item ∷ []);
              size = elim (chain_find same chain key) [
                | none ↦ wrap (h.size + 1)
                | some removed ↦ h.size
              ];
            },
          )
    ]

  -- hashtable_add: grow calls it again, through rehash; the first argument bounds that depth.
  unfoldable pub hashtable_add : ℕ → HashTable K → K → ℕ → Run (ℕ × HashTable K)
  hashtable_add zero h key val = out_of_fuel
  hashtable_add (suc depth) h key val = do
    assert_hashtable h
    let grown = grow granted (hashtable_add depth) h
    g ←
        (if ltb h.arraysize (wrap (wrap (h.size + 1) * lf_multiple))
          then (do (err, g) ← grown; ok g)
          else ok h)
    add_pair g key val

  -- hashtable_remove behind list_remove, which takes a pair out of the chain or none.
  unfoldable pub take_pair :
      ℕ → HashTable K → K → ℕ → List (KvPair K) → Option (KvPair K) → Run (ℕ × HashTable K)
  take_pair depth h key index chain none = ok (null, h)
  take_pair depth h key index chain (some removed) = do
    let less = record h {
      vals = set h.vals index (chain_remove same chain key);
      size = wrap (h.size + 2 ^ 32 - 1);
    }
    let shrunk = shrink granted (hashtable_add depth) less
    g ←
        (if ltb min_size less.arraysize
            && ltb (wrap (wrap (less.size + 2 ^ 32 - 1) * lf_multiple)) less.arraysize
          then (do (err, g) ← shrunk; ok g)
          else ok less)
    ok (removed.val, g)

  -- hashtable_remove: the removed value or NULL, and the table.
  unfoldable pub hashtable_remove : ℕ → HashTable K → K → Run (ℕ × HashTable K)
  hashtable_remove depth h key = do
    assert_hashtable h
    index ← slot hash h key
    chain ← deref (get_elem? h.vals index)
    take_pair depth h key index chain (chain_find same chain key)
