-- ===== src/ThreadList/Splice.antt =====
-- thread/threadlist.c: what the pointer assignments of an insertion and of a removal come to, as
-- the fields of every node after them.
use jinx_os.Base.{
  ℕ, ◌≡◌, ◌≢◌, true, false, sym, arith, ◌==◌, if◌then◌else◌, eq→==, ne→==, refl, ok, Returns,
  returns, ◌>>=◌,
}
use jinx_os.Kernel.{null}
use jinx_os.ThreadList.{
  Nodes, load, set_prev, set_next, link_neighbours, threadlist_insertafternode,
  threadlist_insertbeforenode, threadlist_removenode,
}

-- `g` is `s` with the node `n` put between `p` and `q`.
pub record Spliced (s : Nodes) (p n q : ℕ) (g : Nodes) : Type 0 where
  pub next_new : (g n).tln_next ≡ q
  pub prev_new : (g n).tln_prev ≡ p
  pub next_left : (g p).tln_next ≡ n
  pub prev_right : (g q).tln_prev ≡ n
  pub next_other : (a : ℕ) → a ≢ p → a ≢ n → (g a).tln_next ≡ (s a).tln_next
  pub prev_other : (a : ℕ) → a ≢ q → a ≢ n → (g a).tln_prev ≡ (s a).tln_prev
  pub self_same : (a : ℕ) → (g a).tln_self ≡ (s a).tln_self

-- `g` is `s` with the node `n` taken out between `p` and `q`.
pub record Unspliced (s : Nodes) (p n q : ℕ) (g : Nodes) : Type 0 where
  pub next_old : (g n).tln_next ≡ null
  pub prev_old : (g n).tln_prev ≡ null
  pub next_left : (g p).tln_next ≡ q
  pub prev_right : (g q).tln_prev ≡ p
  pub next_other : (a : ℕ) → a ≢ p → a ≢ n → (g a).tln_next ≡ (s a).tln_next
  pub prev_other : (a : ℕ) → a ≢ q → a ≢ n → (g a).tln_prev ≡ (s a).tln_prev
  pub self_same : (a : ℕ) → (g a).tln_self ≡ (s a).tln_self

pub load_lem : (p : ℕ) → p ≢ null → (s : Nodes) → load s p ≡ ok (s p)
unfolding load
load_lem p h s = rw (ne→== p null h)

set_prev_lem :
    (p : ℕ)
    → p ≢ null
    → (s : Nodes) (x : ℕ)
    → set_prev s p x ≡ ok (λ a. if a == p then record (s a) { tln_prev = x } else s a)
unfolding set_prev
set_prev_lem p h s x = rw (ne→== p null h)

set_next_lem :
    (p : ℕ)
    → p ≢ null
    → (s : Nodes) (x : ℕ)
    → set_next s p x ≡ ok (λ a. if a == p then record (s a) { tln_next = x } else s a)
unfolding set_next
set_next_lem p h s x = rw (ne→== p null h)

-- A node `n`, and the neighbours that it gets or has.
module _ (s : Nodes) (p n q : ℕ) (hp : p ≢ null) (hn : n ≢ null) (hq : q ≢ null) (pn : p ≢ n)
    (qn : q ≢ n) where
  at_node : (g : Nodes) → load g n ≡ ok (g n)
  at_node = load_lem n hn

  at_left : (g : Nodes) → load g p ≡ ok (g p)
  at_left = load_lem p hp

  at_right : (g : Nodes) → load g q ≡ ok (g q)
  at_right = load_lem q hq

  prev_node :
      (g : Nodes) (x : ℕ)
      → set_prev g n x ≡ ok (λ a. if a == n then record (g a) { tln_prev = x } else g a)
  prev_node = set_prev_lem n hn

  prev_right :
      (g : Nodes) (x : ℕ)
      → set_prev g q x ≡ ok (λ a. if a == q then record (g a) { tln_prev = x } else g a)
  prev_right = set_prev_lem q hq

  next_node :
      (g : Nodes) (x : ℕ)
      → set_next g n x ≡ ok (λ a. if a == n then record (g a) { tln_next = x } else g a)
  next_node = set_next_lem n hn

  next_left :
      (g : Nodes) (x : ℕ)
      → set_next g p x ≡ ok (λ a. if a == p then record (g a) { tln_next = x } else g a)
  next_left = set_next_lem p hp

  same_node : (n == n) ≡ true
  same_node = eq→== n n refl

  left_node : (p == n) ≡ false
  left_node = ne→== p n pn

  node_left : (n == p) ≡ false
  node_left = ne→== n p (λ e. pn (sym e))

  right_node : (q == n) ≡ false
  right_node = ne→== q n qn

  node_right : (n == q) ≡ false
  node_right = ne→== n q (λ e. qn (sym e))

  real_node : (n == null) ≡ false
  real_node = ne→== n null hn

  real_left : (p == null) ≡ false
  real_left = ne→== p null hp

  real_right : (q == null) ≡ false
  real_right = ne→== q null hq

  -- The accesses to the three nodes, and the tests that tell them apart.
  ruleset accesses = (
    at_node, at_left, at_right, prev_node, prev_right, next_node, next_left, same_node, left_node,
    node_left, right_node, node_right, real_node, real_left, real_right, ◌>>=◌,
  )

  pub insertafter-Spliced :
      (s p).tln_next ≡ q
      → (s n).tln_prev ≡ null
      → (s n).tln_next ≡ null
      → Returns (Spliced s p n q) (threadlist_insertafternode s p n)
  unfolding threadlist_insertafternode link_neighbours
  insertafter-Spliced next unp unn =
      simp (accesses, unp, unn, next)
        (returns (record {
          next_new = ground arith;
          prev_new = ground arith;
          next_left = ground arith;
          prev_right = ground arith;
          next_other = λ a ap an. ground arith;
          prev_other = λ a aq an. ground arith;
          self_same = λ a. ground arith;
        }))

  pub insertbefore-Spliced :
      (s q).tln_prev ≡ p
      → (s n).tln_prev ≡ null
      → (s n).tln_next ≡ null
      → Returns (Spliced s p n q) (threadlist_insertbeforenode s n q)
  unfolding threadlist_insertbeforenode link_neighbours
  insertbefore-Spliced prev unp unn =
      simp (accesses, unp, unn, prev)
        (returns (record {
          next_new = ground arith;
          prev_new = ground arith;
          next_left = ground arith;
          prev_right = ground arith;
          next_other = λ a ap an. ground arith;
          prev_other = λ a aq an. ground arith;
          self_same = λ a. ground arith;
        }))

  pub removenode-Unspliced :
      (s n).tln_prev ≡ p
      → (s n).tln_next ≡ q
      → Returns (Unspliced s p n q) (threadlist_removenode s n)
  unfolding threadlist_removenode
  removenode-Unspliced prev next =
      simp (accesses, prev, next)
        (returns (record {
          next_old = ground arith;
          prev_old = ground arith;
          next_left = ground arith;
          prev_right = ground arith;
          next_other = λ a ap an. ground arith;
          prev_other = λ a aq an. ground arith;
          self_same = λ a. ground arith;
        }))
