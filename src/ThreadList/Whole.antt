-- ===== src/ThreadList/Whole.antt =====
-- thread/threadlist.c: the first and the last call on a list, threadlist_init and threadlist_cleanup.
use jinx_os.Base.{
  ℕ, suc, ◌≡◌, ◌≢◌, refl, List, [], ◌∷◌, arith, ◌==◌, if◌then◌else◌, length, eq→==, ne→==, ok,
  panic,
}
use jinx_os.Kernel.{null}
use jinx_os.ThreadList.{ThreadList, Nodes, threadlist_init, threadlist_cleanup, threadlist_isempty}
use jinx_os.ThreadList.Valid.{IsThreadList}
use jinx_os.ThreadList.Removal.{not_end}

-- threadlist_init makes an empty list, which threadlist_cleanup accepts.
pub threadlist_init_lem :
    (s : Nodes) (head tail : ℕ)
    → head ≢ null
    → tail ≢ null
    → head ≢ tail
    → IsThreadList (threadlist_init s head tail).1 (threadlist_init s head tail).0 []
unfolding threadlist_init
threadlist_init_lem s head tail hr tr apart = record {
  linked = (ground arith, ground arith);
  distinct = (ground arith, (refl, tt));
  not_null = ground arith;
  head_prev = ground arith;
  tail_next = ground arith;
  head_self = ground arith;
  tail_self = ground arith;
  count = refl;
  bounded = omega arith;
}

-- threadlist_cleanup passes on a well-formed list exactly when it is empty, and stops the kernel on
-- any other.
pub threadlist_cleanup_lem :
    (s : Nodes) (tl : ThreadList) (ns : List ℕ)
    → IsThreadList s tl ns
    → threadlist_cleanup s tl ≡ (if length ns == 0 then ok tt else panic)
unfolding threadlist_cleanup threadlist_isempty
threadlist_cleanup_lem s tl [] v =
    rw
      (
        v.linked.0,
        v.head_prev,
        v.tail_next,
        v.linked.1,
        v.head_self,
        v.tail_self,
        v.count,
        eq→== tl.tl_tail tl.tl_tail refl,
        eq→== tl.tl_head tl.tl_head refl,
      )
      refl
threadlist_cleanup_lem s tl (n ∷ ns) v =
    rw
      (
        v.linked.0,
        ne→== n tl.tl_tail (not_end s tl n [] ns v).0,
        ne→== (suc (length ns)) 0 (λ e. ground arith),
      )
      refl
