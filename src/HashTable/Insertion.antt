-- ===== src/HashTable/Insertion.antt =====
-- klib/hashtable.c: hashtable_add and hashtable_find.
use jinx_os.Base.{
  ℕ, suc, ◌+◌, ◌*◌, ◌^◌, ◌≤◌, ◌<◌, ◌≡◌, inl, inr, refl, ap, ap₂, ◌∙◌, Bool, true, false, Option,
  none, some, arith, ltb, ltb→lt, eq→==, if◌then◌else◌, Bool-cases, Run, ok,
}
use jinx_os.Kernel.{wrap, success, null}
use jinx_os.HashTable.{
  KvPair, HashTable, hashtable_type, resize, grow, hashtable_add, hashtable_find,
}
use jinx_os.HashTable.Chains.{IsComparator, assoc-chain_find}
use jinx_os.HashTable.Valid.{IsTable, doubled, IsArraysize-pos, view, slot_lem, get-chain}
use jinx_os.HashTable.Placing.{Served, size_with, Added, add_pair_lem, with_pair, with_pair-Added}
use jinx_os.HashTable.Rehash.{IsAdder}
use jinx_os.HashTable.Resize.{emptied-IsTable, resize_lem}

-- A well-formed table of which at most half the slots' number is in use.
pub record IsLoaded {K : Type 0} (hash : K → ℕ) (same : K → K → Bool) (h : HashTable K)
    : Type 0 where
  pub table : IsTable hash same h
  pub load : h.size * 2 ≤ h.arraysize

size_with-bound : (w : Option ℕ) (n : ℕ) → size_with w n ≤ n + 1
size_with-bound none n = omega arith
size_with-bound (some x) n = omega arith

-- What a pointer to a value is, where there may be none.
abbrev pub or_null : Option ℕ → ℕ
or_null none = null
or_null (some val) = val

found-val :
    {K : Type 0} (w : Option (KvPair K))
    → (elim w as (λ x. Run ℕ) [ none ↦ ok null | some found ↦ ok found.val ])
      ≡ ok (or_null (elim w [ none ↦ none | some found ↦ some found.val ]))
found-val none = refl
found-val (some x) = refl

-- hashtable_find reads the map: the value of the key, or NULL.
pub hashtable_find_lem :
    {K : Type 0} (hash : K → ℕ) (same : K → K → Bool) (h : HashTable K) (key : K)
    → IsTable hash same h
    → hashtable_find hash same h key ≡ ok (or_null (view hash same h key))
unfolding hashtable_find
hashtable_find_lem hash same h key v =
    rw
      (
        eq→== h.datatype hashtable_type v.live,
        slot_lem hash h v key,
        get-chain hash h v key,
        assoc-chain_find same _ key,
      )
      (found-val _)

module _ {K : Type 0} (hash : K → ℕ) {same : K → K → Bool} (is : IsComparator same)
    (granted : ℕ → Bool) (served : Served granted) where
  -- Where no resizing is due.
  add_plain :
      (depth : ℕ) (h : HashTable K) (key : K) (val : ℕ) (v : IsTable hash same h)
      → (h.size + 1) * 2 ≤ h.arraysize
      → hashtable_add hash same granted (suc depth) h key val
        ≡ ok (success, with_pair hash is granted served h v key val)
  unfolding hashtable_add
  add_plain depth h key val v room =
      let bound : h.arraysize ≤ 2 ^ 29 = v.small in
      let due : ltb h.arraysize (wrap (wrap (h.size + 1) * 2)) ≡ false =
        ground (arith, bound, room) in
      rw
        (
          eq→== h.datatype hashtable_type v.live,
          due,
          add_pair_lem hash is granted served h v key val (omega (arith, bound, room)),
        )
        refl

  -- Room for `n` more pairs without a resizing, and with any.
  abbrev Roomy : ℕ → HashTable K → Type 0
  Roomy n h = IsTable hash same h × ((h.size + n) * 2 ≤ h.arraysize)

  abbrev pub Growing : ℕ → HashTable K → Type 0
  Growing n h = IsLoaded hash same h × (h.size + n < 2 ^ 27)

  plain-IsAdder :
      (depth : ℕ) → IsAdder hash same Roomy (hashtable_add hash same granted (suc depth))
  plain-IsAdder depth n h key val (v, room) =
      let added = with_pair-Added hash is granted served h v key val in
      (
        with_pair hash is granted served h v key val,
        add_plain depth h key val v (omega (arith, room)),
        added,
        (added.valid, omega (arith, room, size_with-bound (view hash same h key) h.size)),
      )

  -- Where the table is resized first.
  add_grown :
      (depth n : ℕ) (h g : HashTable K) (key : K) (val : ℕ)
      → h.size + suc n < 2 ^ 27
      → h.arraysize < (h.size + 1) * 2
      → IsTable hash same h
      → resize granted (hashtable_add hash same granted (suc depth)) h (h.arraysize * 2)
        ≡ ok (success, g)
      → (v : IsTable hash same g) → (g.size + 1) * 2 ≤ g.arraysize
      → ((q : K) → view hash same g q ≡ view hash same h q)
      → g.size ≡ h.size
      → (g' : HashTable K) × (hashtable_add hash same granted (suc (suc depth)) h key val
          ≡ ok (success, g'))
        × Added hash same h key val g'
        × Growing n g'
  unfolding hashtable_add grow
  add_grown depth n h g key val few due old run v room same_view same_size =
      let wrapped : wrap (h.arraysize * 2) ≡ h.arraysize * 2 = omega (arith, few, due) in
      let test : ltb h.arraysize (wrap (wrap (h.size + 1) * 2)) ≡ true = ground (arith, few, due) in
      let added = with_pair-Added hash is granted served g v key val in
      let bound = size_with-bound (view hash same g key) g.size in
      (
        with_pair hash is granted served g v key val,
        rw
            (
              eq→== h.datatype hashtable_type old.live,
              test,
              wrapped,
              run,
              add_pair_lem hash is granted served g v key val (omega (arith, few, same_size)),
            )
            refl,
        record {
          valid = added.valid;
          maps = λ q. added.maps q ∙ ap (λ w. if same key q then some val else w) (same_view q);
          size = ap₂ size_with (same_view key) same_size;
        },
        (
          record { table = added.valid; load = omega (arith, room, bound) },
          omega (arith, few, same_size, bound),
        ),
      )

  pub Growing-IsAdder :
      (depth : ℕ) → IsAdder hash same Growing (hashtable_add hash same granted (suc (suc depth)))
  Growing-IsAdder depth n h key val (l, few) =
      elim (Bool-cases (ltb h.arraysize ((h.size + 1) * 2))) [
        | inl e ↦
            let due : h.arraysize < (h.size + 1) * 2 = ltb→lt _ _ e in
            let small : h.arraysize * 2 ≤ 2 ^ 29 = omega (arith, few, due) in
            let array = doubled l.table.array in
            let (g, run, same_view, same_size, (v, room)) =
              resize_lem hash is granted served Roomy (hashtable_add hash same granted (suc depth))
                (plain-IsAdder depth) h (h.arraysize * 2) 1 l.table array small
                (
                  emptied-IsTable hash h l.table (h.arraysize * 2) array small,
                  omega (arith, l.load, IsArraysize-pos h.arraysize l.table.array),
                ) in
            add_grown depth n h g key val few due l.table run v room same_view same_size
        | inr e ↦
            let room : (h.size + 1) * 2 ≤ h.arraysize = ground (arith, e) in
            let added = with_pair-Added hash is granted served h l.table key val in
            (
              with_pair hash is granted served h l.table key val,
              add_plain (suc depth) h key val l.table room,
              added,
              (
                record {
                  table = added.valid;
                  load = omega (arith, room, size_with-bound (view hash same h key) h.size);
                },
                omega (arith, few, size_with-bound (view hash same h key) h.size),
              ),
            )
      ]

-- On a well-formed table that is at most half full, of fewer than 2 ^ 27 - 1 keys, and with memory at
-- hand, hashtable_add ends with success, also where it has to double the array: the key then
-- has the value, every other key has what it had, the size counts the keys, and the table is
-- well-formed and at most half full.
pub hashtable_add_lem :
    {K : Type 0} (hash : K → ℕ) (same : K → K → Bool) (granted : ℕ → Bool) (depth : ℕ)
    (h : HashTable K) (key : K) (val : ℕ)
    → IsComparator same
    → Served granted
    → IsLoaded hash same h
    → h.size + 1 < 2 ^ 27
    → (g : HashTable K) × (hashtable_add hash same granted (2 + depth) h key val ≡ ok (success, g))
      × IsLoaded hash same g
      × ((q : K) → view hash same g q ≡ (if same key q then some val else view hash same h q))
      × (g.size ≡ size_with (view hash same h key) h.size)
hashtable_add_lem hash same granted depth h key val is served l few =
    let (g, run, added, (loaded, small)) =
      Growing-IsAdder hash is granted served depth 0 h key val (l, omega (arith, few)) in
    (
      g,
      ap (λ d. hashtable_add hash same granted d h key val) {x = 2 + depth} {y = suc (suc depth)}
            (omega arith)
          ∙ run,
      loaded,
      added.maps,
      added.size,
    )
