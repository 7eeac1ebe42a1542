-- ===== src/Queue.antt =====
-- klib/queue.c: a FIFO queue of `void*` on top of the list of klib/list.c, behind a canary.
pub mod Fifo
use jinx_os.Base.{ℕ, Bool, ◌==◌, Run, ok, ◌>>=◌, ◌>>◌, check}
use jinx_os.LinkedList.{
  Store, LinkedList, list_create, list_push_back, list_pop_front, list_front, list_isempty,
  list_getsize, list_destroy, list_assertvalid,
}

-- QUEUETYPE
abbrev pub queue_type : ℕ
queue_type = 2222

-- struct queue
pub record Queue : Type 0 where
  pub datatype : ℕ
  pub vals : LinkedList

-- ASSERT_QUEUE
abbrev pub assert_queue : Queue → Run (Unit {0})
assert_queue q = check (q.datatype == queue_type)

-- queue_create, where both requests for memory are served.
unfoldable pub queue_create : Queue
queue_create = record { datatype = queue_type; vals = list_create }

-- `fresh` is the node that `kmalloc` returns to list_push_back, or NULL.
unfoldable pub queue_push : Store → Queue → ℕ → ℕ → Run (ℕ × Queue × Store)
queue_push s q fresh newval = do
  assert_queue q
  (err, l, g) ← list_push_back s q.vals fresh newval
  ok (err, record q { vals = l }, g)

unfoldable pub queue_pop : Store → Queue → Run (Queue × Store)
queue_pop s q = do assert_queue q; (l, g) ← list_pop_front s q.vals; ok (record q { vals = l }, g)

unfoldable pub queue_front : Store → Queue → Run ℕ
queue_front s q = assert_queue q >> list_front s q.vals

unfoldable pub queue_isempty : Queue → Run Bool
queue_isempty q = assert_queue q >> list_isempty q.vals

unfoldable pub queue_getsize : Queue → Run ℕ
queue_getsize q = assert_queue q >> list_getsize q.vals

unfoldable pub queue_destroy : Store → Queue → Run Store
queue_destroy s q = assert_queue q >> list_destroy s q.vals

unfoldable pub queue_assertvalid : Store → Queue → Run (Unit {0})
queue_assertvalid s q = assert_queue q >> list_assertvalid s q.vals
