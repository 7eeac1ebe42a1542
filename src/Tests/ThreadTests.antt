-- ===== src/Tests/ThreadTests.antt =====
-- thread/threadlist.c and its theorems at a list of two threads. The thread at 10 * k has its node at
-- 10 * k + 4; the list's ends are at 1 and 2.
use jinx_os.Base.{ℕ, ◌+◌, refl, [], ◌∷◌, arith, ◌==◌, if◌then◌else◌, Returns}
use jinx_os.ThreadList.{ThreadListNode, ThreadList, Nodes, threadlist_remhead}
use jinx_os.ThreadList.Valid.{IsThreadList, IsFree}
use jinx_os.ThreadList.Taking.{Taken, threadlist_remhead_lem}

abbrev listnode : ℕ → ℕ
listnode t = t + 4

abbrev tln : ℕ → ℕ → ℕ → ThreadListNode
tln p n t = record { tln_prev = p; tln_next = n; tln_self = t }

-- The threads at 10 and 20 are on the list, the thread at 30 is on none.
abbrev nodes : Nodes
nodes a =
    if a == 1
    then tln 0 14 0
    else if a == 14
    then tln 1 24 10
    else if a == 24
    then tln 14 2 20
    else if a == 2
    then tln 24 0 0
    else if a == 34
    then tln 0 0 30
    else tln 0 0 0

abbrev two : ThreadList
two = record { tl_head = 1; tl_tail = 2; tl_count = 2 }

two-IsThreadList : IsThreadList nodes two (14 ∷ 24 ∷ [])
two-IsThreadList = record {
  linked = (refl, refl, (refl, refl, (refl, refl)));
  distinct = (refl, (refl, (refl, (refl, tt))));
  not_null = refl;
  head_prev = refl;
  tail_next = refl;
  head_self = refl;
  tail_self = refl;
  count = refl;
  bounded = omega arith;
}

thirty-IsFree : IsFree nodes two (14 ∷ 24 ∷ []) 34
thirty-IsFree = record { real = λ e. omega arith; outside = refl; no_prev = refl; no_next = refl }

threadlist_remhead_lem_example :
    Returns (Taken nodes two (14 ∷ 24 ∷ []) (24 ∷ []) 14) (threadlist_remhead nodes two)
threadlist_remhead_lem_example = threadlist_remhead_lem nodes two 14 (24 ∷ []) two-IsThreadList
