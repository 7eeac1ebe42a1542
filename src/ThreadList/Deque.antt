-- ===== src/ThreadList/Deque.antt =====
-- thread/threadlist.c: adding a thread to a well-formed list, at both ends and in the middle.
use jinx_os.Base.{
  ℕ, ◌+◌, ◌^◌, ◌<◌, ◌≡◌, ◌≢◌, refl, sym, subst, false, List, [], ◌∷◌, ◌++◌, append-nil,
  append_assoc, length, ne→==, panic, Returns, returns, Returns-bind,
}
use jinx_os.Kernel.{null}
use jinx_os.ThreadList.{
  ThreadList, Nodes, count_up, threadlist_insertafternode, threadlist_insertbeforenode,
  threadlist_addhead, threadlist_addtail, threadlist_insertafter, threadlist_insertbefore,
}
use jinx_os.ThreadList.Splice.{load_lem}
use jinx_os.ThreadList.Ring.{has, last_or-append}
use jinx_os.ThreadList.Valid.{IsFree, all_nodes, IsThreadList, Changed}
use jinx_os.ThreadList.Insertion.{insertafternode-Changed, insertbeforenode-Changed}

-- An operation's list and nodes, as a change to the list `ns`.
abbrev pub Now : Nodes → ThreadList → List ℕ → List ℕ → ThreadList × Nodes → Type 0
Now s tl touched ns (l, g) = Changed s tl (all_nodes tl touched) ns l g

module _ (listnode : ℕ → ℕ) where
  -- On a well-formed list of fewer than 2 ^ 32 - 1 threads, and for a thread whose node is on no
  -- list, threadlist_addhead ends: the node stands before all the others, the list is well-formed
  -- both ways, and no node outside it is touched.
  pub threadlist_addhead_lem :
      (s : Nodes) (tl : ThreadList) (ns : List ℕ) (t : ℕ)
      → IsThreadList s tl ns
      → length ns + 1 < 2 ^ 32
      → IsFree s tl ns (listnode t)
      → t ≢ null
      → Returns (Now s tl (listnode t ∷ ns) (listnode t ∷ ns)) (threadlist_addhead listnode s tl t)
  unfolding threadlist_addhead
  threadlist_addhead_lem s tl ns t v room f real = rw (ne→== t null real) (
      Returns-bind
        (insertafternode-Changed s tl (listnode t) [] ns v room f.outside f.real f.no_prev
          f.no_next)
        (λ g c. returns c))

  -- On a well-formed list of fewer than 2 ^ 32 - 1 threads, and for a thread whose node is on no
  -- list, threadlist_addtail ends: the node stands behind all the others, the list is well-formed
  -- both ways, and no node outside it is touched.
  pub threadlist_addtail_lem :
      (s : Nodes) (tl : ThreadList) (ns : List ℕ) (t : ℕ)
      → IsThreadList s tl ns
      → length ns + 1 < 2 ^ 32
      → IsFree s tl ns (listnode t)
      → t ≢ null
      → Returns
          (Now s tl (ns ++ listnode t ∷ []) (ns ++ listnode t ∷ []))
          (threadlist_addtail listnode s tl t)
  unfolding threadlist_addtail
  threadlist_addtail_lem s tl ns t v room f real =
      let e = sym (append-nil ns) in
      rw (ne→== t null real) (
        Returns-bind
          (insertbeforenode-Changed s tl (listnode t) ns [] (subst (IsThreadList s tl) e v)
            (subst (λ m. length m + 1 < 2 ^ 32) e room)
            (subst (λ m. has (listnode t) (all_nodes tl m) ≡ false) e f.outside) f.real f.no_prev
            f.no_next)
          (λ g c. returns c))

  -- On a well-formed list of fewer than 2 ^ 32 - 1 threads with `onlist` among them, and for a
  -- thread whose node is on no list, threadlist_insertafter ends: the node stands right behind that
  -- of `onlist`, the list is well-formed both ways, and no node outside it is touched.
  pub threadlist_insertafter_lem :
      (s : Nodes) (tl : ThreadList) (xs ys : List ℕ) (onlist t : ℕ)
      → IsThreadList s tl (xs ++ listnode onlist ∷ ys)
      → length (xs ++ listnode onlist ∷ ys) + 1 < 2 ^ 32
      → IsFree s tl (xs ++ listnode onlist ∷ ys) (listnode t)
      → Returns
          (Now s tl
            (xs ++ listnode onlist ∷ listnode t ∷ ys)
            (xs ++ listnode onlist ∷ listnode t ∷ ys))
          (threadlist_insertafter listnode s tl onlist t)
  unfolding threadlist_insertafter
  threadlist_insertafter_lem s tl xs ys onlist t v room f =
      let m = listnode onlist in
      let n = listnode t in
      let e = sym (append_assoc xs (m ∷ []) ys) in
      let done : Returns
          (Changed s tl (all_nodes tl ((xs ++ m ∷ []) ++ n ∷ ys)) ((xs ++ m ∷ []) ++ n ∷ ys)
            (count_up tl))
          (threadlist_insertafternode s m n) =
        subst
          (λ p.
            Returns
              (Changed s tl (all_nodes tl ((xs ++ m ∷ []) ++ n ∷ ys)) ((xs ++ m ∷ []) ++ n ∷ ys)
                (count_up tl))
              (threadlist_insertafternode s p n))
          (last_or-append tl.tl_head m xs)
          (insertafternode-Changed s tl n (xs ++ m ∷ []) ys (subst (IsThreadList s tl) e v)
            (subst (λ k. length k + 1 < 2 ^ 32) e room)
            (subst (λ k. has n (all_nodes tl k) ≡ false) e f.outside) f.real f.no_prev f.no_next) in
      let e' = append_assoc xs (m ∷ []) (n ∷ ys) in
      Returns-bind done
        (λ g c. returns (subst (λ k. Changed s tl (all_nodes tl k) k (count_up tl) g) e' c))

  -- On a well-formed list of fewer than 2 ^ 32 - 1 threads with `onlist` among them, and for a
  -- thread whose node is on no list, threadlist_insertbefore ends: the node stands right before
  -- that of `onlist`, the list is well-formed both ways, and no node outside it is touched.
  pub threadlist_insertbefore_lem :
      (s : Nodes) (tl : ThreadList) (xs ys : List ℕ) (t onlist : ℕ)
      → IsThreadList s tl (xs ++ listnode onlist ∷ ys)
      → length (xs ++ listnode onlist ∷ ys) + 1 < 2 ^ 32
      → IsFree s tl (xs ++ listnode onlist ∷ ys) (listnode t)
      → Returns
          (Now s tl
            (xs ++ listnode t ∷ listnode onlist ∷ ys)
            (xs ++ listnode t ∷ listnode onlist ∷ ys))
          (threadlist_insertbefore listnode s tl t onlist)
  unfolding threadlist_insertbefore
  threadlist_insertbefore_lem s tl xs ys t onlist v room f =
      Returns-bind
        (insertbeforenode-Changed s tl (listnode t) xs (listnode onlist ∷ ys) v room f.outside
          f.real f.no_prev f.no_next)
        (λ g c. returns c)

  -- For a thread whose node has a predecessor, threadlist_addhead and threadlist_addtail stop the
  -- kernel.
  pub threadlist_add_linked :
      (s : Nodes) (tl : ThreadList) (t : ℕ)
      → listnode t ≢ null
      → t ≢ null
      → (s (listnode t)).tln_prev ≢ null
      → (threadlist_addhead listnode s tl t ≡ panic) × (threadlist_addtail listnode s tl t ≡ panic)
  unfolding threadlist_addhead threadlist_addtail threadlist_insertafternode
      threadlist_insertbeforenode
  threadlist_add_linked s tl t real thread linked = (
    rw (ne→== t null thread, load_lem (listnode t) real, ne→== _ null linked) refl,
    rw (ne→== t null thread, load_lem (listnode t) real, ne→== _ null linked) refl,
  )
