-- ===== src/ThreadList/Insertion.antt =====
-- thread/threadlist.c: an insertion into any gap of a thread list.
use jinx_os.Base.{
  ℕ, ◌+◌, ◌^◌, ◌<◌, ◌≡◌, ◌≢◌, refl, sym, ◌∙◌, true, false, List, [], ◌∷◌, ◌++◌, arith, length,
  Returns, Returns-mono,
}
use jinx_os.Kernel.{null}
use jinx_os.ThreadList.{
  ThreadList, Nodes, count_up, threadlist_insertafternode, threadlist_insertbeforenode,
}
use jinx_os.ThreadList.Splice.{Spliced, insertafter-Spliced, insertbefore-Spliced}
use jinx_os.ThreadList.Ring.{
  has, first_or, last_or, Linked-Spliced, Linked-gap, has-last_or, has-first_or, has-first_after,
  has-middle, has-last_left, has-end, ne_of_has,
}
use jinx_os.ThreadList.Valid.{
  all_nodes, IsThreadList, Changed, has-insert, Distinct-insert, tail-out, length-insert,
}

module _ (s : Nodes) (tl : ThreadList) (n : ℕ) (xs ys : List ℕ) (v : IsThreadList s tl (xs ++ ys))
    (room : length (xs ++ ys) + 1 < 2 ^ 32) (out : has n (all_nodes tl (xs ++ ys)) ≡ false)
    (real : n ≢ null) where
  ends_apart : (last_or tl.tl_head xs ≢ tl.tl_tail) × (tl.tl_head ≢ first_or tl.tl_tail ys)
  ends_apart = (
    ne_of_has (tl.tl_head ∷ xs ++ ys) _ tl.tl_tail (has-last_left tl.tl_head xs ys)
        (tail-out tl.tl_tail (tl.tl_head ∷ xs ++ ys) v.distinct),
    λ e.
        ne_of_has ((xs ++ ys) ++ tl.tl_tail ∷ []) _ tl.tl_head (has-first_or tl.tl_tail xs ys)
          v.distinct.0 (sym e),
  )

  insert-Changed :
      (g : Nodes)
      → Spliced s (last_or tl.tl_head xs) n (first_or tl.tl_tail ys) g
      → Changed s tl (all_nodes tl (xs ++ n ∷ ys)) (xs ++ n ∷ ys) (count_up tl) g
  insert-Changed g c =
      let h = tl.tl_head in
      let t = tl.tl_tail in
      let after = all_nodes tl (xs ++ n ∷ ys) in
      record {
        valid = record {
          linked = Linked-Spliced s g h n t xs ys v.linked v.distinct out c;
          distinct = Distinct-insert n (h ∷ xs) ys (t ∷ []) v.distinct out;
          not_null = has-insert null n (h ∷ xs) ys (t ∷ []) ∙ ground (arith, v.not_null);
          head_prev = c.prev_other h ends_apart.1 (λ e. ground arith) ∙ v.head_prev;
          tail_next =
              c.next_other t (λ e. ends_apart.0 (sym e))
                (ne_of_has (all_nodes tl (xs ++ ys)) t n (has-end t (h ∷ xs ++ ys)) out)
              ∙ v.tail_next;
          head_self = c.self_same h ∙ v.head_self;
          tail_self = c.self_same t ∙ v.tail_self;
          count = omega (arith, v.count, v.bounded, length-insert n xs ys);
          bounded = omega (arith, length-insert n xs ys);
        };
        head = refl;
        tail = refl;
        self = c.self_same;
        next_kept = λ a o.
            c.next_other a
              (λ e. ne_of_has after (last_or h xs) a (has-last_or h xs (n ∷ ys) (t ∷ [])) o (sym e))
              (λ e. ne_of_has after n a (has-middle n (h ∷ xs) ys (t ∷ [])) o (sym e));
        prev_kept = λ a o.
            c.prev_other a
              (λ e. ne_of_has after (first_or t ys) a (has-first_after t n (h ∷ xs) ys) o (sym e))
              (λ e. ne_of_has after n a (has-middle n (h ∷ xs) ys (t ∷ [])) o (sym e));
      }

  -- The neighbours are real nodes, and not the new one.
  left-in : has (last_or tl.tl_head xs) (all_nodes tl (xs ++ ys)) ≡ true
  left-in = has-last_or tl.tl_head xs ys (tl.tl_tail ∷ [])

  right-in : has (first_or tl.tl_tail ys) (all_nodes tl (xs ++ ys)) ≡ true
  right-in = has-first_or tl.tl_tail (tl.tl_head ∷ xs) ys

  -- Both insertions, at any gap of the list.
  pub insertafternode-Changed :
      (s n).tln_prev ≡ null
      → (s n).tln_next ≡ null
      → Returns
          (Changed s tl (all_nodes tl (xs ++ n ∷ ys)) (xs ++ n ∷ ys) (count_up tl))
          (threadlist_insertafternode s (last_or tl.tl_head xs) n)
  insertafternode-Changed unp unn =
      Returns-mono
        (insertafter-Spliced s (last_or tl.tl_head xs) n (first_or tl.tl_tail ys)
          (ne_of_has (all_nodes tl (xs ++ ys)) _ null left-in v.not_null) real
          (ne_of_has (all_nodes tl (xs ++ ys)) _ null right-in v.not_null)
          (ne_of_has (all_nodes tl (xs ++ ys)) _ n left-in out)
          (ne_of_has (all_nodes tl (xs ++ ys)) _ n right-in out)
          (Linked-gap s tl.tl_head tl.tl_tail xs ys v.linked).0 unp unn)
        insert-Changed

  pub insertbeforenode-Changed :
      (s n).tln_prev ≡ null
      → (s n).tln_next ≡ null
      → Returns
          (Changed s tl (all_nodes tl (xs ++ n ∷ ys)) (xs ++ n ∷ ys) (count_up tl))
          (threadlist_insertbeforenode s n (first_or tl.tl_tail ys))
  insertbeforenode-Changed unp unn =
      Returns-mono
        (insertbefore-Spliced s (last_or tl.tl_head xs) n (first_or tl.tl_tail ys)
          (ne_of_has (all_nodes tl (xs ++ ys)) _ null left-in v.not_null) real
          (ne_of_has (all_nodes tl (xs ++ ys)) _ null right-in v.not_null)
          (ne_of_has (all_nodes tl (xs ++ ys)) _ n left-in out)
          (ne_of_has (all_nodes tl (xs ++ ys)) _ n right-in out)
          (Linked-gap s tl.tl_head tl.tl_tail xs ys v.linked).1 unp unn)
        insert-Changed
