-- ===== src/ThreadList/Removal.antt =====
-- thread/threadlist.c: taking any node out of a thread list.
use jinx_os.Base.{
  ℕ, ◌-◌, ◌≡◌, ◌≢◌, refl, sym, ◌∙◌, true, List, [], ◌∷◌, ◌++◌, arith, lt→ltb, ok, Returns,
  Returns-mono,
}
use jinx_os.Kernel.{null}
use jinx_os.ThreadList.{ThreadList, Nodes, count_down, threadlist_removenode}
use jinx_os.ThreadList.Splice.{Unspliced, removenode-Unspliced}
use jinx_os.ThreadList.Ring.{
  has, first_or, last_or, Linked-Unspliced, Linked-neighbours, Distinct-neighbours, has-here,
  has-last_or, has-first_after, has-middle, has-last_left, ne_of_has,
}
use jinx_os.ThreadList.Valid.{
  IsFree, Distinct-out, all_nodes, IsThreadList, Changed, has-insert, Distinct-remove, tail-out,
  length-insert,
}

module _ (s : Nodes) (tl : ThreadList) (n : ℕ) (xs ys : List ℕ)
    (v : IsThreadList s tl (xs ++ n ∷ ys)) where
  ends_apart : (last_or tl.tl_head xs ≢ tl.tl_tail) × (tl.tl_head ≢ first_or tl.tl_tail ys)
  ends_apart = (
    ne_of_has (tl.tl_head ∷ xs ++ n ∷ ys) _ tl.tl_tail (has-last_left tl.tl_head xs (n ∷ ys))
        (tail-out tl.tl_tail (tl.tl_head ∷ xs ++ n ∷ ys) v.distinct),
    λ e.
        ne_of_has ((xs ++ n ∷ ys) ++ tl.tl_tail ∷ []) _ tl.tl_head
          (has-first_after tl.tl_tail n xs ys) v.distinct.0 (sym e),
  )

  -- The node is neither of the ends.
  pub not_end : (n ≢ tl.tl_tail) × (tl.tl_head ≢ n)
  not_end = (
    ne_of_has (tl.tl_head ∷ xs ++ n ∷ ys) n tl.tl_tail (has-here n (tl.tl_head ∷ xs) ys)
        (tail-out tl.tl_tail (tl.tl_head ∷ xs ++ n ∷ ys) v.distinct),
    λ e.
        ne_of_has ((xs ++ n ∷ ys) ++ tl.tl_tail ∷ []) n tl.tl_head
          (has-middle n xs ys (tl.tl_tail ∷ [])) v.distinct.0 (sym e),
  )

  remove-Changed :
      (g : Nodes)
      → Unspliced s (last_or tl.tl_head xs) n (first_or tl.tl_tail ys) g
      → Changed s tl
          (all_nodes tl (xs ++ n ∷ ys))
          (xs ++ ys)
          (record tl { tl_count = tl.tl_count - 1 })
          g
  remove-Changed g c =
      let h = tl.tl_head in
      let t = tl.tl_tail in
      let before = all_nodes tl (xs ++ n ∷ ys) in
      record {
        valid = record {
          linked = Linked-Unspliced s g h n t xs ys v.linked v.distinct c;
          distinct = Distinct-remove n (h ∷ xs) ys (t ∷ []) v.distinct;
          not_null = ground (arith, has-insert null n (h ∷ xs) ys (t ∷ []), v.not_null);
          head_prev = c.prev_other h ends_apart.1 not_end.1 ∙ v.head_prev;
          tail_next =
              c.next_other t (λ e. ends_apart.0 (sym e)) (λ e. not_end.0 (sym e)) ∙ v.tail_next;
          head_self = c.self_same h ∙ v.head_self;
          tail_self = c.self_same t ∙ v.tail_self;
          count = omega (arith, v.count, v.bounded, length-insert n xs ys);
          bounded = omega (arith, v.bounded, length-insert n xs ys);
        };
        head = refl;
        tail = refl;
        self = c.self_same;
        next_kept = λ a o.
            c.next_other a
              (λ e.
                ne_of_has before (last_or h xs) a (has-last_or h xs (n ∷ ys) (t ∷ [])) o (sym e))
              (λ e. ne_of_has before n a (has-middle n (h ∷ xs) ys (t ∷ [])) o (sym e));
        prev_kept = λ a o.
            c.prev_other a
              (λ e. ne_of_has before (first_or t ys) a (has-first_after t n (h ∷ xs) ys) o (sym e))
              (λ e. ne_of_has before n a (has-middle n (h ∷ xs) ys (t ∷ [])) o (sym e));
      }

  node-in : has n (all_nodes tl (xs ++ n ∷ ys)) ≡ true
  node-in = has-middle n (tl.tl_head ∷ xs) ys (tl.tl_tail ∷ [])

  pub node-NotNull : n ≢ null
  node-NotNull = ne_of_has (all_nodes tl (xs ++ n ∷ ys)) n null node-in v.not_null

  -- The list without the node, and the node without a list.
  pub removenode-Changed :
      Returns
        (λ g.
          Changed s tl
            (all_nodes tl (xs ++ n ∷ ys))
            (xs ++ ys)
            (record tl { tl_count = tl.tl_count - 1 })
            g
          × IsFree g tl (xs ++ ys) n)
        (threadlist_removenode s n)
  removenode-Changed =
      let all = all_nodes tl (xs ++ n ∷ ys) in
      let left = has-last_or tl.tl_head xs (n ∷ ys) (tl.tl_tail ∷ []) in
      let right = has-first_after tl.tl_tail n (tl.tl_head ∷ xs) ys in
      let apart = Distinct-neighbours tl.tl_head n tl.tl_tail xs ys v.distinct in
      let (prev, next) = Linked-neighbours s tl.tl_head n tl.tl_tail xs ys v.linked in
      Returns-mono
        (removenode-Unspliced s (last_or tl.tl_head xs) n (first_or tl.tl_tail ys)
          (ne_of_has all _ null left v.not_null) node-NotNull
          (ne_of_has all _ null right v.not_null) apart.0 apart.1 prev next)
        (λ g c. (
          remove-Changed g c,
          record {
            real = node-NotNull;
            outside = Distinct-out n (tl.tl_head ∷ xs) ys (tl.tl_tail ∷ []) v.distinct;
            no_prev = c.prev_old;
            no_next = c.next_old;
          },
        ))

  -- `tl_count` is above 0, so its decrement passes.
  pub count_down_lem : count_down tl ≡ ok (record tl { tl_count = tl.tl_count - 1 })
  count_down_lem = rw (lt→ltb 0 tl.tl_count (omega (arith, v.count, length-insert n xs ys)))
