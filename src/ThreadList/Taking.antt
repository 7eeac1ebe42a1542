-- ===== src/ThreadList/Taking.antt =====
-- thread/threadlist.c: taking a thread off a well-formed list, at both ends and in the middle.
use jinx_os.Base.{
  ℕ, ◌-◌, ◌≡◌, ◌≢◌, refl, sym, subst, ◌∙◌, List, [], ◌∷◌, ◌++◌, append-nil, arith, ne→==, ok,
  Returns, returns, Returns-bind,
}
use jinx_os.Kernel.{null}
use jinx_os.ThreadList.{
  ThreadList, Nodes, threadlist_remhead, threadlist_remtail, threadlist_remove,
}
use jinx_os.ThreadList.Splice.{load_lem}
use jinx_os.ThreadList.Ring.{
  next-Linked, prev-Linked, last_or-append, ne_of_has, has-end, has-first_or, has-last_or,
  Linked-neighbours,
}
use jinx_os.ThreadList.Valid.{IsFree, all_nodes, IsThreadList}
use jinx_os.ThreadList.Removal.{removenode-Changed, count_down_lem, node-NotNull}
use jinx_os.ThreadList.Deque.{Now}

-- A removal: the thread of the node `n` is returned, and `after` is left of the nodes `before`.
abbrev pub Taken : Nodes → ThreadList → List ℕ → List ℕ → ℕ → ℕ × ThreadList × Nodes → Type 0
Taken s tl before after n (t, l, g) =
    (t ≡ (s n).tln_self) × Now s tl before after (l, g) × IsFree g tl after n

pub ends_real :
    (s : Nodes) (tl : ThreadList) (ns : List ℕ)
    → IsThreadList s tl ns
    → (tl.tl_head ≢ null) × (tl.tl_tail ≢ null)
ends_real s tl ns v = (
  λ e. ground (arith, v.not_null),
  ne_of_has (all_nodes tl ns) tl.tl_tail null (has-end tl.tl_tail (tl.tl_head ∷ ns)) v.not_null,
)

module _ (listnode : ℕ → ℕ) where
  -- On a well-formed list with the thread's node at any place threadlist_remove ends: it takes that
  -- node out, the list of the others is well-formed, and the node is on no list and can be added
  -- again.
  pub threadlist_remove_lem :
      (s : Nodes) (tl : ThreadList) (xs ys : List ℕ) (t : ℕ)
      → IsThreadList s tl (xs ++ listnode t ∷ ys)
      → Returns
          (λ (l, g).
            Now s tl (xs ++ listnode t ∷ ys) (xs ++ ys) (l, g)
            × IsFree g tl (xs ++ ys) (listnode t))
          (threadlist_remove listnode s tl t)
  unfolding threadlist_remove
  threadlist_remove_lem s tl xs ys t v =
      Returns-bind (removenode-Changed s tl (listnode t) xs ys v)
        (λ g c. rw (count_down_lem s tl (listnode t) xs ys v) (returns c))

-- On a well-formed list that is not empty threadlist_remhead ends: it takes the first node out and
-- returns its thread, the list of the others is well-formed, and the node is on no list and can be
-- added again.
pub threadlist_remhead_lem :
    (s : Nodes) (tl : ThreadList) (n : ℕ) (ns : List ℕ)
    → IsThreadList s tl (n ∷ ns)
    → Returns (Taken s tl (n ∷ ns) ns n) (threadlist_remhead s tl)
unfolding threadlist_remhead
threadlist_remhead_lem s tl n ns v =
    let head_real : tl.tl_head ≢ null = (ends_real s tl (n ∷ ns) v).0 in
    let next = v.linked.0 in
    let more : (s n).tln_next ≢ null = λ e.
      ne_of_has (all_nodes tl (n ∷ ns)) _ null (has-first_or tl.tl_tail (tl.tl_head ∷ n ∷ []) ns)
        v.not_null (sym (next-Linked s n tl.tl_tail ns v.linked.2) ∙ e) in
    rw
      (
        load_lem tl.tl_head head_real,
        next,
        load_lem n (node-NotNull s tl n [] ns v),
        ne→== _ null more,
      )
      (Returns-bind (removenode-Changed s tl n [] ns v)
        (λ g (c, free). rw (count_down_lem s tl n [] ns v) (returns (c.self n, c, free))))

-- On a well-formed list that is not empty threadlist_remtail ends: it takes the last node out and
-- returns its thread, the list of the others is well-formed, and the node is on no list and can be
-- added again.
pub threadlist_remtail_lem :
    (s : Nodes) (tl : ThreadList) (n : ℕ) (ns : List ℕ)
    → IsThreadList s tl (ns ++ n ∷ [])
    → Returns (Taken s tl (ns ++ n ∷ []) ns n) (threadlist_remtail s tl)
unfolding threadlist_remtail
threadlist_remtail_lem s tl n ns v =
    let tail_real : tl.tl_tail ≢ null = (ends_real s tl (ns ++ n ∷ []) v).1 in
    let prev = prev-Linked s _ _ _ v.linked ∙ last_or-append tl.tl_head n ns in
    let more : (s n).tln_prev ≢ null = λ e.
      ne_of_has (all_nodes tl (ns ++ n ∷ [])) _ null
        (has-last_or tl.tl_head ns (n ∷ []) (tl.tl_tail ∷ [])) v.not_null
        (sym ((Linked-neighbours s tl.tl_head n tl.tl_tail ns [] v.linked).0) ∙ e) in
    rw
      (
        load_lem tl.tl_tail tail_real,
        prev,
        load_lem n (node-NotNull s tl n ns [] v),
        ne→== _ null more,
      )
      (Returns-bind (removenode-Changed s tl n ns [] v) (λ g (c, free).
        rw (count_down_lem s tl n ns [] v) (
          returns (
            subst
              (λ m.
                Taken s tl (ns ++ n ∷ []) m n
                  ((g n).tln_self, record tl { tl_count = tl.tl_count - 1 }, g))
              (append-nil ns) (c.self n, c, free)))))

-- On a well-formed list that is empty threadlist_remhead and threadlist_remtail return NULL and
-- change nothing.
pub threadlist_rem_empty :
    (s : Nodes) (tl : ThreadList)
    → IsThreadList s tl []
    → (threadlist_remhead s tl ≡ ok (null, tl, s)) × (threadlist_remtail s tl ≡ ok (null, tl, s))
unfolding threadlist_remhead threadlist_remtail
threadlist_rem_empty s tl v =
    let (head_real, tail_real) = ends_real s tl [] v in
    let (next, prev) = v.linked in
    (
      rw (load_lem tl.tl_head head_real, next, load_lem tl.tl_tail tail_real, v.tail_next) refl,
      rw (load_lem tl.tl_tail tail_real, prev, load_lem tl.tl_head head_real, v.head_prev) refl,
    )
