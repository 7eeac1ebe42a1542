-- ===== src/ThreadList.antt =====
-- thread/threadlist.c: the doubly linked list of threads with a node at each end that is always on
-- it. The store gives the node at every address; only an access through NULL is undefined here,
-- since this file neither allocates nor frees a node. `listnode t` is the address of the node that
-- is part of the thread at `t`, `&t->listnode`.
pub mod Splice
pub mod Ring
pub mod Valid
pub mod Insertion
pub mod Removal
pub mod Deque
pub mod Taking
pub mod Whole
use jinx_os.Base.{
  ℕ, ◌+◌, ◌-◌, Bool, true, false, not, ltb, ◌==◌, if◌then◌else◌, Run, ok, fault, ◌>>=◌, ◌>>◌, check,
}
use jinx_os.Kernel.{wrap, null}

-- struct threadlistnode
pub record ThreadListNode : Type 0 where
  pub tln_prev : ℕ
  pub tln_next : ℕ
  pub tln_self : ℕ

-- struct threadlist: the addresses of its two end nodes, and the count.
pub record ThreadList : Type 0 where
  pub tl_head : ℕ
  pub tl_tail : ℕ
  pub tl_count : ℕ

abbrev pub Nodes : Type 0
Nodes = ℕ → ThreadListNode

unfoldable pub load : Nodes → ℕ → Run ThreadListNode
load s p = if p == null then fault else ok (s p)

-- `p->tln_prev = x` and `p->tln_next = x`
unfoldable pub set_prev : Nodes → ℕ → ℕ → Run Nodes
set_prev s p x =
    if p == null then fault else ok (λ a. if a == p then record (s a) { tln_prev = x } else s a)

unfoldable pub set_next : Nodes → ℕ → ℕ → Run Nodes
set_next s p x =
    if p == null then fault else ok (λ a. if a == p then record (s a) { tln_next = x } else s a)

-- threadlistnode_init, on the node at `tln`.
unfoldable pub threadlistnode_init : Nodes → ℕ → ℕ → Run Nodes
threadlistnode_init s tln t = do
  check (not (tln == null))
  check (not (t == null))
  ok (λ a. if a == tln then record { tln_prev = null; tln_next = null; tln_self = t } else s a)

unfoldable pub threadlistnode_cleanup : Nodes → ℕ → Run (Unit {0})
threadlistnode_cleanup s tln = do
  check (not (tln == null))
  check ((s tln).tln_next == null)
  check ((s tln).tln_prev == null)
  check (not ((s tln).tln_self == null))

-- threadlist_init, for a list whose end nodes are at `head` and `tail`.
unfoldable pub threadlist_init : Nodes → ℕ → ℕ → ThreadList × Nodes
threadlist_init s head tail = (
  record { tl_head = head; tl_tail = tail; tl_count = 0 },
  λ a.
      if a == head
      then record { tln_prev = null; tln_next = tail; tln_self = null }
      else if a == tail
      then record { tln_prev = head; tln_next = null; tln_self = null }
      else s a,
)

unfoldable pub threadlist_isempty : ThreadList → Bool
threadlist_isempty tl = tl.tl_count == 0

unfoldable pub threadlist_cleanup : Nodes → ThreadList → Run (Unit {0})
threadlist_cleanup s tl = do
  check ((s tl.tl_head).tln_next == tl.tl_tail)
  check ((s tl.tl_head).tln_prev == null)
  check ((s tl.tl_tail).tln_next == null)
  check ((s tl.tl_tail).tln_prev == tl.tl_head)
  check ((s tl.tl_head).tln_self == null)
  check ((s tl.tl_tail).tln_self == null)
  check (threadlist_isempty tl)
  check (tl.tl_count == 0)

-- The assertions of both insertions: the node is on no list.
abbrev pub assert_unlinked : ThreadListNode → Run (Unit {0})
assert_unlinked n = do check (n.tln_prev == null); check (n.tln_next == null)

-- The last two assignments of both insertions.
unfoldable pub link_neighbours : Nodes → ℕ → Run Nodes
link_neighbours s addee = do
  n ← load s addee
  a ← set_next s n.tln_prev addee
  m ← load a addee
  set_prev a m.tln_next addee

unfoldable pub threadlist_insertafternode : Nodes → ℕ → ℕ → Run Nodes
threadlist_insertafternode s onlist addee = do
  n ← load s addee
  assert_unlinked n
  a ← set_prev s addee onlist
  o ← load a onlist
  b ← set_next a addee o.tln_next
  link_neighbours b addee

unfoldable pub threadlist_insertbeforenode : Nodes → ℕ → ℕ → Run Nodes
threadlist_insertbeforenode s addee onlist = do
  n ← load s addee
  assert_unlinked n
  o ← load s onlist
  a ← set_prev s addee o.tln_prev
  b ← set_next a addee onlist
  link_neighbours b addee

unfoldable pub threadlist_removenode : Nodes → ℕ → Run Nodes
threadlist_removenode s tln = do
  check (not (tln == null))
  n ← load s tln
  check (not (n.tln_prev == null))
  check (not (n.tln_next == null))
  a ← set_next s n.tln_prev n.tln_next
  m ← load a tln
  b ← set_prev a m.tln_next m.tln_prev
  c ← set_prev b tln null
  set_next c tln null

-- `tl->tl_count++`, and `tl->tl_count--` behind its assertion.
abbrev pub count_up : ThreadList → ThreadList
count_up tl = record tl { tl_count = wrap (tl.tl_count + 1) }

abbrev pub count_down : ThreadList → Run ThreadList
count_down tl = do check (ltb 0 tl.tl_count); ok (record tl { tl_count = tl.tl_count - 1 })

-- threadlist_remhead and threadlist_remtail: the removed thread, or NULL.
unfoldable pub threadlist_remhead : Nodes → ThreadList → Run (ℕ × ThreadList × Nodes)
threadlist_remhead s tl = do
  h ← load s tl.tl_head
  n ← load s h.tln_next
  if n.tln_next == null then ok (null, tl, s) else (do
    g ← threadlist_removenode s h.tln_next
    l ← count_down tl
    ok ((g h.tln_next).tln_self, l, g))

unfoldable pub threadlist_remtail : Nodes → ThreadList → Run (ℕ × ThreadList × Nodes)
threadlist_remtail s tl = do
  t ← load s tl.tl_tail
  n ← load s t.tln_prev
  if n.tln_prev == null then ok (null, tl, s) else (do
    g ← threadlist_removenode s t.tln_prev
    l ← count_down tl
    ok ((g t.tln_prev).tln_self, l, g))

module _ (listnode : ℕ → ℕ) where
  unfoldable pub threadlist_addhead : Nodes → ThreadList → ℕ → Run (ThreadList × Nodes)
  threadlist_addhead s tl t = do
    check (not (t == null))
    g ← threadlist_insertafternode s tl.tl_head (listnode t)
    ok (count_up tl, g)

  unfoldable pub threadlist_addtail : Nodes → ThreadList → ℕ → Run (ThreadList × Nodes)
  threadlist_addtail s tl t = do
    check (not (t == null))
    g ← threadlist_insertbeforenode s (listnode t) tl.tl_tail
    ok (count_up tl, g)

  unfoldable pub threadlist_insertafter : Nodes → ThreadList → ℕ → ℕ → Run (ThreadList × Nodes)
  threadlist_insertafter s tl onlist addee = do
    g ← threadlist_insertafternode s (listnode onlist) (listnode addee)
    ok (count_up tl, g)

  unfoldable pub threadlist_insertbefore : Nodes → ThreadList → ℕ → ℕ → Run (ThreadList × Nodes)
  threadlist_insertbefore s tl addee onlist = do
    g ← threadlist_insertbeforenode s (listnode addee) (listnode onlist)
    ok (count_up tl, g)

  unfoldable pub threadlist_remove : Nodes → ThreadList → ℕ → Run (ThreadList × Nodes)
  threadlist_remove s tl t = do
    g ← threadlist_removenode s (listnode t)
    l ← count_down tl
    ok (l, g)
