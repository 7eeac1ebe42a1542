-- ===== src/Tests/ListTests.antt =====
-- klib/list.c and klib/queue.c, and their theorems, at a list of two nodes.
use jinx_os.Base.{
  ℕ, ◌≡◌, refl, none, some, [], ◌∷◌, arith, ◌==◌, if◌then◌else◌, Run, ok, ◌>>=◌, Returns,
}
use jinx_os.Kernel.{null, success}
use jinx_os.LinkedList.{
  LinkedList, Store, node, write, load, list_type, list_create, listnode_create, list_push_back,
  list_pop_front, list_front, list_remove,
}
use jinx_os.LinkedList.Chain.{Cells, IsList}
use jinx_os.LinkedList.Remove.{Removed, list_remove_lem}
use jinx_os.Queue.{Queue, queue_type, queue_create, queue_push, queue_pop, queue_front}
use jinx_os.Queue.Fifo.{Holds, abstract_pop, queue_push_lem, queue_pop_lem}

-- Value 10 at address 1, value 20 at address 2.
abbrev store : Store
store a = if a == 1 then some (node 10 2) else if a == 2 then some (node 20 null) else none

abbrev two : LinkedList
two = record { datatype = list_type; head = 1; tail = 2; size = 2 }

abbrev cells : Cells
cells = (1, 10) ∷ (2, 20) ∷ []

two-IsList : IsList store two cells
two-IsList = record {
  live = refl;
  chain = (refl, omega arith, (2, refl, (refl, omega arith, (null, refl, refl))));
  distinct = (refl, (refl, tt));
  last = refl;
  size = refl;
  bounded = omega arith;
}

list_remove_lem_example :
    Returns (λ (res, l, g). Removed ◌==◌ store two cells 20 res l g) (list_remove ◌==◌ store two 20)
list_remove_lem_example = list_remove_lem ◌==◌ store two cells 20 two-IsList

abbrev queue : Queue
queue = record { datatype = queue_type; vals = two }

queue-Holds : Holds store queue (10 ∷ 20 ∷ [])
queue-Holds = record { live = refl; cells = cells; list = two-IsList; shown = refl }

queue_push_lem_example :
    Returns
      (λ (err, q, g). (err ≡ success) × Holds g q (10 ∷ 20 ∷ 30 ∷ []))
      (queue_push store queue 3 30)
queue_push_lem_example =
    queue_push_lem store queue (10 ∷ 20 ∷ []) 3 30 queue-Holds (omega arith) refl (omega arith)

queue_pop_lem_example :
    Returns (λ (q, g). Holds g q (abstract_pop (10 ∷ 20 ∷ []))) (queue_pop store queue)
queue_pop_lem_example = queue_pop_lem store queue (10 ∷ 20 ∷ []) queue-Holds

-- A push and two fronts around a pop, from an empty queue.
session : Run (ℕ × ℕ)
unfolding queue_create queue_push queue_pop queue_front list_create listnode_create list_push_back
    list_pop_front list_front load write
session = do
  (e, q, s) ← queue_push (λ a. none) queue_create 5 50
  (e, q, s) ← queue_push s q 6 60
  x ← queue_front s q
  (q, s) ← queue_pop s q
  y ← queue_front s q
  ok (x, y)

session_result : session ≡ ok (50, 60)
unfolding session
session_result = refl
