-- ===== src/LinkedList.antt =====
-- klib/list.c: the singly linked list of `void*`, over an explicit store of nodes. The list object
-- is a record that each function returns anew; its nodes live in the store, and an access to an
-- address that holds no node is undefined.
pub mod Chain
pub mod Ends
pub mod Search
pub mod Remove
pub mod Whole
use jinx_os.Base.{
  ℕ, ◌≡◌, ◌≢◌, arith, zero, suc, ◌+◌, ◌-◌, ◌%◌, ◌^◌, Bool, true, false, Option, none, some, ◌==◌,
  not, if◌then◌else◌, Run, ok, out_of_fuel, ◌>>=◌, ◌>>◌, check, deref,
}
use jinx_os.Kernel.{wrap, success, enomem, null}

-- LISTTYPE and LISTNODETYPE, the canaries.
abbrev pub list_type : ℕ
list_type = 1111

abbrev pub list_node_type : ℕ
list_node_type = 1112

-- struct listnode
pub record Node : Type 0 where
  pub datatype : ℕ
  pub val : ℕ
  pub next : ℕ

-- struct list
pub record LinkedList : Type 0 where
  pub datatype : ℕ
  pub head : ℕ
  pub tail : ℕ
  pub size : ℕ

abbrev pub Store : Type 0
Store = ℕ → Option Node

abbrev pub node : ℕ → ℕ → Node
node v n = record { datatype = list_node_type; val = v; next = n }

-- `none` is written where a node is freed.
unfoldable pub write : Store → ℕ → Option Node → Store
write s p c a = if a == p then c else s a

pub write_self : (s : Store) (p : ℕ) (c : Option Node) → write s p c p ≡ c
unfolding write
write_self s p c = ground arith

pub write_other : (s : Store) (p : ℕ) (c : Option Node) (a : ℕ) → a ≢ p → write s p c a ≡ s a
unfolding write
write_other s p c a ne = ground arith

-- `--size` on an unsigned number.
abbrev pub decrement : ℕ → ℕ
decrement n = (n + 2 ^ 32 - 1) % 2 ^ 32

-- ASSERT_LIST, and ASSERT_LISTNODE of the node behind a pointer.
abbrev pub assert_list : LinkedList → Run (Unit {0})
assert_list l = check (l.datatype == list_type)

unfoldable pub load : Store → ℕ → Run Node
load s p = do n ← deref (s p); check (n.datatype == list_node_type); ok n

-- list_create, where `kmalloc` gives a list object.
unfoldable pub list_create : LinkedList
list_create = record { datatype = list_type; head = null; tail = null; size = 0 }

-- listnode_create: `fresh` is what `kmalloc` returns.
unfoldable pub listnode_create : Store → ℕ → ℕ → ℕ × Store
listnode_create s fresh newval =
    if fresh == null then (null, s) else (fresh, write s fresh (some (node newval null)))

-- list_push_back: the error number, the list and the store.
unfoldable pub list_push_back : Store → LinkedList → ℕ → ℕ → Run (ℕ × LinkedList × Store)
list_push_back s l fresh newval = do
  assert_list l
  let (newnode, s1) = listnode_create s fresh newval
  if newnode == null then ok (enomem, l, s1) else (do
    made ← load s1 newnode
    if l.size == 0
        then ok (success, record l { head = newnode; tail = newnode; size = wrap (l.size + 1) }, s1)
        else (do
          t ← load s1 l.tail
          ok (
            success,
            record l { tail = newnode; size = wrap (l.size + 1) },
            write s1 l.tail (some (record t { next = newnode })),
          )))

unfoldable pub list_pop_front : Store → LinkedList → Run (LinkedList × Store)
list_pop_front s l = do
  assert_list l
  if l.size == 0 then ok (l, s) else (do
    n ← load s l.head
    let size = decrement l.size
    let tail = if size == 0 then null else l.tail
    ok (record l { head = n.next; size = size; tail = tail }, write s l.head none))

-- list_front: the first value, or NULL.
unfoldable pub list_front : Store → LinkedList → Run ℕ
list_front s l = do
  assert_list l
  if l.size == 0 then ok null else (do check (not (l.head == null)); n ← load s l.head; ok n.val)

unfoldable pub list_isempty : LinkedList → Run Bool
list_isempty l = assert_list l >> ok (l.size == 0)

unfoldable pub list_getsize : LinkedList → Run ℕ
list_getsize l = assert_list l >> ok l.size

-- `same` is the comparator, read as the test that it returns 0.
module _ (same : ℕ → ℕ → Bool) where
  unfoldable pub find_loop : ℕ → Store → ℕ → ℕ → Run ℕ
  find_loop zero s query p = out_of_fuel
  find_loop (suc fuel) s query p =
      let visit : Run ℕ = do
        n ← load s p
        let rest = find_loop fuel s query n.next
        if same n.val query then ok n.val else rest
      in if p == null then ok null else visit

  unfoldable pub list_find : Store → LinkedList → ℕ → Run ℕ
  list_find s l query = do assert_list l; find_loop (l.size + 1) s query l.head

  -- `q` is the node before `p`, or NULL at the head.
  unfoldable pub unlink : Store → LinkedList → ℕ → ℕ → Run (LinkedList × Store)
  unlink s l q next =
      if q == null
      then ok (record l { head = next }, s)
      else (do m ← deref (s q); ok (l, write s q (some (record m { next = next }))))

  unfoldable pub remove_loop : ℕ → Store → LinkedList → ℕ → ℕ → ℕ → Run (ℕ × LinkedList × Store)
  remove_loop zero s l query q p = out_of_fuel
  remove_loop (suc fuel) s l query q p =
      let visit : Run (ℕ × LinkedList × Store) = do
        n ← load s p
        let found : Run (ℕ × LinkedList × Store) = do
          (l1, s1) ← unlink s l q n.next
          let tail = if p == l1.tail then q else l1.tail
          ok (n.val, record l1 { tail = tail; size = decrement l1.size }, write s1 p none)
        let rest = remove_loop fuel s l query p n.next
        if same n.val query then found else rest
      in if p == null then ok (null, l, s) else visit

  -- list_remove: the removed value or NULL, the list and the store.
  unfoldable pub list_remove : Store → LinkedList → ℕ → Run (ℕ × LinkedList × Store)
  list_remove s l query = do
    assert_list l
    (res, l1, s1) ← remove_loop (l.size + 1) s l query null l.head
    ok (res, record l1 { tail = if l1.size == 0 then null else l1.tail }, s1)

-- The loop of list_destroy, which frees every node.
unfoldable pub destroy_loop : ℕ → Store → ℕ → Run Store
destroy_loop zero s p = out_of_fuel
destroy_loop (suc fuel) s p =
    let visit : Run Store = do n ← load s p; destroy_loop fuel (write s p none) n.next
    in if p == null then ok s else visit

unfoldable pub list_destroy : Store → LinkedList → Run Store
list_destroy s l = do assert_list l; destroy_loop (l.size + 1) s l.head

-- The loop of list_assertvalid: the number of nodes, and the last one.
unfoldable pub count_loop : ℕ → Store → ℕ → ℕ → ℕ → Run (ℕ × ℕ)
count_loop zero s count prev p = out_of_fuel
count_loop (suc fuel) s count prev p =
    let visit : Run (ℕ × ℕ) = do n ← load s p; count_loop fuel s (wrap (count + 1)) p n.next
    in if p == null then ok (count, prev) else visit

unfoldable pub list_assertvalid : Store → LinkedList → Run (Unit {0})
list_assertvalid s l = do
  assert_list l
  (count, prev) ← count_loop (l.size + 1) s 0 null l.head
  check (if count == 0 then l.tail == null else prev == l.tail)
  check (count == l.size)
