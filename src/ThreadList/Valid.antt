-- ===== src/ThreadList/Valid.antt =====
-- thread/threadlist.c: a well-formed thread list, with the lemmas on its
-- nodes that insertion and removal share.
use jinx_os.Base.{
  ℕ, ◌+◌, ◌^◌, ◌<◌, ◌≡◌, ◌≢◌, refl, ◌∙◌, false, ◌||◌, List, [], ◌∷◌, ◌++◌, arith, ◌==◌, length,
  length-append,
}
use jinx_os.Kernel.{null}
use jinx_os.ThreadList.{ThreadList, Nodes}
use jinx_os.ThreadList.Ring.{has, Distinct, Linked, has-append_false}

-- Every node of a list, with the two at its ends.
abbrev pub all_nodes : ThreadList → List ℕ → List ℕ
all_nodes tl ns = tl.tl_head ∷ ns ++ tl.tl_tail ∷ []

-- `tl` holds exactly the nodes `ns`, from its head to its tail.
pub record IsThreadList (s : Nodes) (tl : ThreadList) (ns : List ℕ) : Type 0 where
  pub linked : Linked s tl.tl_head ns tl.tl_tail
  pub distinct : Distinct (all_nodes tl ns)
  pub not_null : has null (all_nodes tl ns) ≡ false
  pub head_prev : (s tl.tl_head).tln_prev ≡ null
  pub tail_next : (s tl.tl_tail).tln_next ≡ null
  pub head_self : (s tl.tl_head).tln_self ≡ null
  pub tail_self : (s tl.tl_tail).tln_self ≡ null
  pub count : tl.tl_count ≡ length ns
  pub bounded : length ns < 2 ^ 32

-- After a change the list holds `ns`; every node still belongs to its thread, and outside the nodes
-- `touched` no link is changed.
pub record Changed (s : Nodes) (tl : ThreadList) (touched ns : List ℕ) (l : ThreadList) (g : Nodes)
    : Type 0 where
  pub valid : IsThreadList g l ns
  pub head : l.tl_head ≡ tl.tl_head
  pub tail : l.tl_tail ≡ tl.tl_tail
  pub self : (a : ℕ) → (g a).tln_self ≡ (s a).tln_self
  pub next_kept : (a : ℕ) → has a touched ≡ false → (g a).tln_next ≡ (s a).tln_next
  pub prev_kept : (a : ℕ) → has a touched ≡ false → (g a).tln_prev ≡ (s a).tln_prev

-- A thread whose node is on no list: what the insertions ask of it.
pub record IsFree (s : Nodes) (tl : ThreadList) (ns : List ℕ) (n : ℕ) : Type 0 where
  pub real : n ≢ null
  pub outside : has n (all_nodes tl ns) ≡ false
  pub no_prev : (s n).tln_prev ≡ null
  pub no_next : (s n).tln_next ≡ null

pub has-insert :
    (a n : ℕ) (xs ys zs : List ℕ)
    → has a ((xs ++ n ∷ ys) ++ zs) ≡ ((a == n) || has a ((xs ++ ys) ++ zs))
has-insert a n [] ys zs = refl
has-insert a n (x ∷ xs) ys zs = ground (arith, has-insert a n xs ys zs)

pub Distinct-insert :
    (n : ℕ) (xs ys zs : List ℕ)
    → Distinct ((xs ++ ys) ++ zs)
    → has n ((xs ++ ys) ++ zs) ≡ false
    → Distinct ((xs ++ n ∷ ys) ++ zs)
Distinct-insert n [] ys zs d out = (out, d)
Distinct-insert n (x ∷ xs) ys zs (new, d) out =
    (has-insert x n xs ys zs ∙ ground arith, Distinct-insert n xs ys zs d (ground arith))

pub Distinct-remove :
    (n : ℕ) (xs ys zs : List ℕ) → Distinct ((xs ++ n ∷ ys) ++ zs) → Distinct ((xs ++ ys) ++ zs)
Distinct-remove n [] ys zs d = d.1
Distinct-remove n (x ∷ xs) ys zs (new, d) =
    (ground (arith, has-insert x n xs ys zs), Distinct-remove n xs ys zs d)

-- The tail is none of the nodes before it.
pub tail-out : (t : ℕ) (ns : List ℕ) → Distinct (ns ++ t ∷ []) → has t ns ≡ false
tail-out t [] d = refl
tail-out t (n ∷ ns) (new, d) =
    let (_, ne) = has-append_false n ns (t ∷ []) new in ground (arith, tail-out t ns d)

pub length-insert : (n : ℕ) (xs ys : List ℕ) → length (xs ++ n ∷ ys) ≡ length (xs ++ ys) + 1
length-insert n xs ys = omega (arith, length-append xs (n ∷ ys), length-append xs ys)

-- A node taken out is on the list no more.
pub Distinct-out :
    (n : ℕ) (xs ys zs : List ℕ) → Distinct ((xs ++ n ∷ ys) ++ zs) → has n ((xs ++ ys) ++ zs) ≡ false
Distinct-out n [] ys zs d = d.0
Distinct-out n (x ∷ xs) ys zs (new, d) =
    ground (arith, has-insert x n xs ys zs, Distinct-out n xs ys zs d)
