-- ===== src/HashTable/Removal.antt =====
-- klib/hashtable.c: hashtable_remove.
use jinx_os.Base.{
  ℕ, suc, ◌+◌, ◌-◌, ◌*◌, ◌/◌, ◌%◌, ◌^◌, ◌≤◌, ◌<◌, ◌≡◌, inl, inr, refl, sym, ap, subst, ◌∙◌, Bool,
  true, false, ◌&&◌, Option, none, some, List, [], arith, ltb, ltb→lt, ◌==◌, ==→eq, eq→==,
  if◌then◌else◌, Bool-cases, length, get_or, Run, ok,
}
use jinx_os.Kernel.{wrap, success, null}
use jinx_os.HashTable.{
  KvPair, HashTable, hashtable_type, chain_find, chain_remove, resize, shrink, hashtable_add,
  take_pair, hashtable_remove,
}
use jinx_os.HashTable.Chains.{
  IsComparator, assoc, assoc-chain_find, same_ne, assoc-remove_self, assoc-remove_other,
  Unique-remove, Placed-remove, length-remove,
}
use jinx_os.HashTable.Buckets.{total-set}
use jinx_os.HashTable.Valid.{
  IsTable, IsArraysize, smallest, doubled, chain_of, view, slot_lt, slot_lem, get-chain, replaced,
  replaced-IsTable, view-replaced, chain_of-Placed,
}
use jinx_os.HashTable.Placing.{Served}
use jinx_os.HashTable.Resize.{emptied-IsTable, resize_lem}
use jinx_os.HashTable.Insertion.{IsLoaded, Growing, Growing-IsAdder, or_null}

half-IsArraysize : (n : ℕ) → IsArraysize n → 8 < n → IsArraysize (n / 2)
half-IsArraysize n smallest big = absurd (omega arith)
half-IsArraysize n (doubled {n = m} a) big =
    subst IsArraysize {x = m} {y = m * 2 / 2} (omega arith) a

and_left : (a b : Bool) → (a && b) ≡ true → a ≡ true
and_left true b e = refl
and_left false b e = e

module _ {K : Type 0} (hash : K → ℕ) {same : K → K → Bool} (is : IsComparator same)
    (h : HashTable K) (v : IsTable hash same h) (key : K) where
  abbrev pub less : HashTable K
  less = replaced hash h v key (chain_remove same (chain_of hash same h key) key) (h.size - 1)

  size-pos : 0 < length (chain_of hash same h key) → 0 < h.size
  size-pos some_pair = omega (arith, total-set h.vals _ [] (slot_lt hash h v key), v.counted)

  less-IsTable :
      length (chain_of hash same h key)
        ≡ length (chain_remove same (chain_of hash same h key) key) + 1
      → IsTable hash same less
  less-IsTable count =
      let (at, u) = chain_of-Placed hash h v key in
      replaced-IsTable hash h v key _ (h.size - 1) (Placed-remove hash is h.arraysize _ _ key at)
        (Unique-remove is _ key u) (omega (arith, count, size-pos (omega (arith, count))))

  view-less : (q : K) → view hash same less q ≡ (if same key q then none else view hash same h q)
  view-less q = elim (Bool-cases (same key q)) [
    | inl e ↦
        let same_slot : hash key % h.arraysize ≡ hash q % h.arraysize =
          ap (λ z. hash z % h.arraysize) (is.same_eq key q e) in
        view-replaced hash h v key (chain_remove same (chain_of hash same h key) key) (h.size - 1) q
        ∙ rw (e, eq→== _ _ same_slot)
            (subst (λ z. assoc same (chain_remove same (chain_of hash same h key) key) z ≡ none)
              (is.same_eq key q e) (assoc-remove_self is _ key (chain_of-Placed hash h v key).1))
    | inr e ↦
        view-replaced hash h v key (chain_remove same (chain_of hash same h key) key) (h.size - 1) q
        ∙ elim (Bool-cases (hash key % h.arraysize == hash q % h.arraysize)) [
          | inl s ↦
              rw (e, s)
                (assoc-remove_other is _ key q (same_ne is key q e)
                  ∙ ap (λ j. assoc same (get_or h.vals j []) q) (==→eq _ _ s))
          | inr s ↦ rw (e, s) refl
        ]
  ]

-- A size with one key less, if the key was there.
abbrev pub size_without : Option ℕ → ℕ → ℕ
size_without none n = n
size_without (some val) n = n - 1

module _ {K : Type 0} (hash : K → ℕ) {same : K → K → Bool} (is : IsComparator same)
    (granted : ℕ → Bool) (served : Served granted) (depth : ℕ) (h : HashTable K)
    (l : IsLoaded hash same h) (few : h.size < 2 ^ 27) (key : K) where
  -- What hashtable_remove leaves of a table with the key.
  abbrev Left : HashTable K → Type 0
  Left g =
      IsLoaded hash same g
      × ((q : K) → view hash same g q ≡ (if same key q then none else view hash same h q))
      × (g.size ≡ h.size - 1)

  abbrev small_table : HashTable K
  small_table = less hash is h l.table key

  abbrev shrunk : HashTable K → Run (ℕ × HashTable K)
  shrunk t = resize granted (hashtable_add hash same granted (suc (suc depth))) t (t.arraysize / 2)

  shrink_less :
      IsTable hash same small_table
      → 8 < h.arraysize
      → (g : HashTable K) × (shrunk small_table ≡ ok (success, g)) × Left g
  shrink_less v big =
      let array = half-IsArraysize h.arraysize l.table.array big in
      let small : h.arraysize / 2 ≤ 2 ^ 29 = omega (arith, l.table.small) in
      let (g, run, same_view, same_size, (loaded, bound)) =
        resize_lem hash is granted served (Growing hash is granted served)
          (hashtable_add hash same granted (suc (suc depth)))
          (Growing-IsAdder hash is granted served depth) small_table (h.arraysize / 2) 0 v array
          small
          (
            record {
              table = emptied-IsTable hash small_table v (h.arraysize / 2) array small;
              load = omega arith;
            },
            omega (arith, few),
          ) in
      (g, run, (loaded, λ q. same_view q ∙ view-less hash is h l.table key q, same_size))

  -- Whether hashtable_remove shrinks the table.
  abbrev due : Bool
  due = ltb 8 h.arraysize && ltb (wrap (wrap (h.size - 1 + 2 ^ 32 - 1) * 2)) h.arraysize

  abbrev taking : List (KvPair K) → Option (KvPair K) → Run (ℕ × HashTable K)
  taking = take_pair hash same granted (suc (suc depth)) h key (hash key % h.arraysize)

  run_shrunk :
      (item : KvPair K) (g : HashTable K)
      → chain_find same (chain_of hash same h key) key ≡ some item
      → wrap (h.size + 2 ^ 32 - 1) ≡ h.size - 1
      → due ≡ true
      → shrunk small_table ≡ ok (success, g)
      → hashtable_remove hash same granted (suc (suc depth)) h key ≡ ok (item.val, g)
  unfolding hashtable_remove take_pair shrink
  run_shrunk item g at down e run =
      rw
        (
          eq→== h.datatype hashtable_type l.table.live,
          slot_lem hash h l.table key,
          get-chain hash h l.table key,
        )
        (ap (taking (chain_of hash same h key)) at ∙ rw (down, e, run) refl)

  run_kept :
      (item : KvPair K)
      → chain_find same (chain_of hash same h key) key ≡ some item
      → wrap (h.size + 2 ^ 32 - 1) ≡ h.size - 1
      → due ≡ false
      → hashtable_remove hash same granted (suc (suc depth)) h key ≡ ok (item.val, small_table)
  unfolding hashtable_remove take_pair shrink
  run_kept item at down e =
      rw
        (
          eq→== h.datatype hashtable_type l.table.live,
          slot_lem hash h l.table key,
          get-chain hash h l.table key,
        )
        (ap (taking (chain_of hash same h key)) at ∙ rw (down, e) refl)

  remove_found :
      (item : KvPair K)
      → chain_find same (chain_of hash same h key) key ≡ some item
      → (g : HashTable K) × (hashtable_remove hash same granted (suc (suc depth)) h key
          ≡ ok (item.val, g))
        × Left g
  remove_found item at =
      let chain = chain_of hash same h key in
      let count : length chain ≡ length (chain_remove same chain key) + 1 =
        length-remove is chain key ∙ rw at refl in
      let pos = size-pos hash is h l.table key (omega (arith, count)) in
      let v = less-IsTable hash is h l.table key count in
      let down : wrap (h.size + 2 ^ 32 - 1) ≡ h.size - 1 = omega (arith, pos, few) in
      elim (Bool-cases due) [
        | inl e ↦
            let (g, run, left) = shrink_less v (ltb→lt _ _ (and_left _ _ e)) in
            (g, run_shrunk item g at down e run, left)
        | inr e ↦ (
          small_table,
          run_kept item at down e,
          (
            record { table = v; load = omega (arith, l.load) },
            view-less hash is h l.table key,
            refl,
          ),
        )
      ]

  run_missing :
      chain_find same (chain_of hash same h key) key ≡ none
      → hashtable_remove hash same granted (suc (suc depth)) h key ≡ ok (null, h)
  unfolding hashtable_remove take_pair
  run_missing at =
      rw
        (
          eq→== h.datatype hashtable_type l.table.live,
          slot_lem hash h l.table key,
          get-chain hash h l.table key,
        )
        (ap (taking (chain_of hash same h key)) at)

  absent-maps :
      view hash same h key ≡ none
      → (q : K) → view hash same h q ≡ (if same key q then none else view hash same h q)
  absent-maps absent q = elim (Bool-cases (same key q)) [
    | inl e ↦ rw e (subst (λ z. view hash same h z ≡ none) (is.same_eq key q e) absent)
    | inr e ↦ rw e refl
  ]

  abbrev Removed : Type 0
  Removed =
      (g : HashTable K) × (hashtable_remove hash same granted (suc (suc depth)) h key
        ≡ ok (or_null (view hash same h key), g))
      × IsLoaded hash same g
      × ((q : K) → view hash same g q ≡ (if same key q then none else view hash same h q))
      × (g.size ≡ size_without (view hash same h key) h.size)

  pub removed :
      (w : Option (KvPair K)) → chain_find same (chain_of hash same h key) key ≡ w → Removed
  removed none at =
      let absent : view hash same h key ≡ none =
        assoc-chain_find same (chain_of hash same h key) key ∙ rw at refl in
      (
        h,
        run_missing at ∙ ap (λ w. ok (or_null w, h)) (sym absent),
        l,
        absent-maps absent,
        ap (λ w. size_without w h.size) (sym absent),
      )
  removed (some item) at =
      let there : view hash same h key ≡ some item.val =
        assoc-chain_find same (chain_of hash same h key) key ∙ rw at refl in
      let (g, run, (loaded, maps, size)) = remove_found item at in
      (
        g,
        run ∙ ap (λ w. ok (or_null w, g)) (sym there),
        loaded,
        maps,
        size ∙ ap (λ w. size_without w h.size) (sym there),
      )

-- On a well-formed table that is at most half full, of fewer than 2 ^ 27 keys, and with memory at
-- hand, hashtable_remove ends, also where it halves the array: it returns the key's value, or
-- NULL for a key that is not there, the key then has no value, every other key has what it had,
-- the size counts the keys, and the table is well-formed and at most half full.
pub hashtable_remove_lem :
    {K : Type 0} (hash : K → ℕ) (same : K → K → Bool) (granted : ℕ → Bool) (depth : ℕ)
    (h : HashTable K) (key : K)
    → IsComparator same
    → Served granted
    → IsLoaded hash same h
    → h.size < 2 ^ 27
    → (g : HashTable K) × (hashtable_remove hash same granted (2 + depth) h key
        ≡ ok (or_null (view hash same h key), g))
      × IsLoaded hash same g
      × ((q : K) → view hash same g q ≡ (if same key q then none else view hash same h q))
      × (g.size ≡ size_without (view hash same h key) h.size)
hashtable_remove_lem hash same granted depth h key is served l few =
    let (g, run, loaded, maps, size) = removed hash is granted served depth h l few key _ refl in
    (
      g,
      ap (λ d. hashtable_remove hash same granted d h key) {x = 2 + depth} {y = suc (suc depth)}
            (omega arith)
          ∙ run,
      loaded,
      maps,
      size,
    )
