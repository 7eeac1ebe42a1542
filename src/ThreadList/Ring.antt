-- ===== src/ThreadList/Ring.antt =====
-- thread/threadlist.c: the doubly linked chain of nodes, and how a splice changes it.
use mathlib.Core.Bool.{or_assoc}
use jinx_os.Base.{
  ℕ, ◌≡◌, ◌≢◌, refl, sym, subst, ◌∙◌, Bool, true, false, ◌||◌, List, [], ◌∷◌, ◌++◌, arith, ◌==◌,
}
use jinx_os.ThreadList.{Nodes}
use jinx_os.ThreadList.Splice.{Spliced, Unspliced}

abbrev pub has : ℕ → List ℕ → Bool
has a [] = false
has a (b ∷ bs) = (a == b) || has a bs

abbrev pub Distinct : List ℕ → Type 0
Distinct [] = Unit
Distinct (a ∷ bs) = (has a bs ≡ false) × Distinct bs

-- The first address of a list, and the last, or `a` if it is empty.
abbrev pub first_or : ℕ → List ℕ → ℕ
first_or a [] = a
first_or a (b ∷ bs) = b

abbrev pub last_or : ℕ → List ℕ → ℕ
last_or a [] = a
last_or a (b ∷ bs) = last_or b bs

-- From `p` the nodes `ns` lead to `q`, linked both ways.
abbrev pub Linked : Nodes → ℕ → List ℕ → ℕ → Type 0
Linked s p [] q = ((s p).tln_next ≡ q) × ((s q).tln_prev ≡ p)
Linked s p (n ∷ ns) q = ((s p).tln_next ≡ n) × ((s n).tln_prev ≡ p) × Linked s n ns q

pub next-Linked :
    (s : Nodes) (p q : ℕ) (ns : List ℕ) → Linked s p ns q → (s p).tln_next ≡ first_or q ns
next-Linked s p q [] h = h.0
next-Linked s p q (n ∷ ns) h = h.0

pub prev-Linked :
    (s : Nodes) (p q : ℕ) (ns : List ℕ) → Linked s p ns q → (s q).tln_prev ≡ last_or p ns
prev-Linked s p q [] h = h.1
prev-Linked s p q (n ∷ ns) h = prev-Linked s n q ns h.2

pub last_or-append : (p n : ℕ) (ns : List ℕ) → last_or p (ns ++ n ∷ []) ≡ n
last_or-append p n [] = refl
last_or-append p n (m ∷ ns) = last_or-append m n ns

-- A part of the chain whose fields are the same.
Linked-frame :
    (s g : Nodes) (p q : ℕ) (ns : List ℕ)
    → Linked s p ns q
    → ((a : ℕ) → has a (p ∷ ns) ≡ true → (g a).tln_next ≡ (s a).tln_next)
    → ((a : ℕ) → has a (ns ++ q ∷ []) ≡ true → (g a).tln_prev ≡ (s a).tln_prev)
    → Linked g p ns q
Linked-frame s g p q [] (e, f) next prev = (next p (ground arith) ∙ e, prev q (ground arith) ∙ f)
Linked-frame s g p q (n ∷ ns) (e, f, rest) next prev = (
  next p (ground arith) ∙ e,
  prev n (ground arith) ∙ f,
  Linked-frame s g n q ns rest (λ a h. next a (ground arith)) (λ a h. prev a (ground arith)),
)

pub or_false : (a : Bool) {b : Bool} → (a || b) ≡ false → (a ≡ false) × (b ≡ false)
or_false true h = cc
or_false false h = (refl, h)

pub has-append : (a : ℕ) (ms ns : List ℕ) → has a (ms ++ ns) ≡ (has a ms || has a ns)
has-append a [] ns = refl
has-append a (m ∷ ms) ns = rw (has-append a ms ns, or_assoc)

-- An address on a list is none that is not.
pub ne_of_has : (ns : List ℕ) (a b : ℕ) → has a ns ≡ true → has b ns ≡ false → a ≢ b
ne_of_has ns a b mem out e = cc (subst (λ x. has x ns ≡ true) e mem)

pub has-append_false :
    (a : ℕ) (ms ns : List ℕ) → has a (ms ++ ns) ≡ false → (has a ms ≡ false) × (has a ns ≡ false)
has-append_false a ms ns h = or_false (has a ms) (sym (has-append a ms ns) ∙ h)

pub has-last_or : (n : ℕ) (ns ms ks : List ℕ) → has (last_or n ns) ((n ∷ ns ++ ms) ++ ks) ≡ true
has-last_or n [] ms ks = ground arith
has-last_or n (m ∷ ns) ms ks = ground (arith, has-last_or m ns ms ks)

pub has-last_left : (n : ℕ) (ns ms : List ℕ) → has (last_or n ns) (n ∷ ns ++ ms) ≡ true
has-last_left n [] ms = ground arith
has-last_left n (m ∷ ns) ms = ground (arith, has-last_left m ns ms)

pub has-end : (q : ℕ) (ms : List ℕ) → has q (ms ++ q ∷ []) ≡ true
has-end q [] = ground arith
has-end q (m ∷ ms) = ground (arith, has-end q ms)

pub has-first_or : (q : ℕ) (ms ns : List ℕ) → has (first_or q ns) ((ms ++ ns) ++ q ∷ []) ≡ true
has-first_or q [] [] = ground arith
has-first_or q [] (n ∷ ns) = ground arith
has-first_or q (m ∷ ms) ns = ground (arith, has-first_or q ms ns)

pub has-here : (n : ℕ) (ms ns : List ℕ) → has n (ms ++ n ∷ ns) ≡ true
has-here n [] ns = ground arith
has-here n (m ∷ ms) ns = ground (arith, has-here n ms ns)

pub has-middle : (n : ℕ) (ms ns ks : List ℕ) → has n ((ms ++ n ∷ ns) ++ ks) ≡ true
has-middle n [] ns ks = ground arith
has-middle n (m ∷ ms) ns ks = ground (arith, has-middle n ms ns ks)

pub has-first_after :
    (q n : ℕ) (ms ns : List ℕ) → has (first_or q ns) ((ms ++ n ∷ ns) ++ q ∷ []) ≡ true
has-first_after q n [] [] = ground arith
has-first_after q n [] (k ∷ ns) = ground arith
has-first_after q n (m ∷ ms) ns = ground (arith, has-first_after q n ms ns)

-- A splice into the chain, between the last of `xs` and the first of `ys`.
pub Linked-Spliced :
    (s g : Nodes) (p n q : ℕ) (xs ys : List ℕ)
    → Linked s p (xs ++ ys) q
    → Distinct (p ∷ (xs ++ ys) ++ q ∷ [])
    → has n (p ∷ (xs ++ ys) ++ q ∷ []) ≡ false
    → Spliced s (last_or p xs) n (first_or q ys) g
    → Linked g p (xs ++ n ∷ ys) q
Linked-Spliced s g p n q [] [] h d out c = (c.next_left, c.prev_new, (c.next_new, c.prev_right))
Linked-Spliced s g p n q [] (y ∷ ys) (e, f, h) (dp, (dy, d)) out c =
    let (np, ny) = or_false (n == p) out in
    let (p_out, _) = has-append_false p (y ∷ ys) (q ∷ []) dp in
    let (n_out, _) = has-append_false n (y ∷ ys) (q ∷ []) ny in
    let (_, n_tail) = or_false (n == y) ny in
    let frame : Linked g y ys q =
      Linked-frame s g y q ys h
        (λ a m. c.next_other a (ne_of_has (y ∷ ys) a p m p_out) (ne_of_has (y ∷ ys) a n m n_out))
        (λ a m. c.prev_other a (ne_of_has _ a y m dy) (ne_of_has _ a n m n_tail)) in
    (c.next_left, c.prev_new, (c.next_new, c.prev_right, frame))
Linked-Spliced s g p n q (x ∷ xs) ys (e, f, h) (dp, (dx, d)) out c =
    let (np, nx) = or_false (n == p) out in
    let left : last_or x xs ≢ p =
      ne_of_has ((x ∷ xs ++ ys) ++ q ∷ []) _ p (has-last_or x xs ys (q ∷ [])) dp in
    let right : first_or q ys ≢ x =
      ne_of_has ((xs ++ ys) ++ q ∷ []) _ x (has-first_or q xs ys) dx in
    (
      c.next_other p (λ i. left (sym i)) (λ i. ground arith) ∙ e,
      c.prev_other x (λ i. right (sym i)) (λ i. ground arith) ∙ f,
      Linked-Spliced s g x n q xs ys h (dx, d) nx c,
    )

-- The neighbours of a node on the chain.
pub Linked-neighbours :
    (s : Nodes) (p n q : ℕ) (xs ys : List ℕ)
    → Linked s p (xs ++ n ∷ ys) q
    → ((s n).tln_prev ≡ last_or p xs) × ((s n).tln_next ≡ first_or q ys)
Linked-neighbours s p n q [] ys (e, f, h) = (f, next-Linked s n q ys h)
Linked-neighbours s p n q (x ∷ xs) ys (e, f, h) = Linked-neighbours s x n q xs ys h

-- Taking a node out of the chain.
pub Linked-Unspliced :
    (s g : Nodes) (p n q : ℕ) (xs ys : List ℕ)
    → Linked s p (xs ++ n ∷ ys) q
    → Distinct (p ∷ (xs ++ n ∷ ys) ++ q ∷ [])
    → Unspliced s (last_or p xs) n (first_or q ys) g
    → Linked g p (xs ++ ys) q
Linked-Unspliced s g p n q [] [] h d c = (c.next_left, c.prev_right)
Linked-Unspliced s g p n q [] (y ∷ ys) (e, f, (i, j, h)) (dp, (dn, (dy, d))) c =
    let (_, p_rest) = or_false (p == n) dp in
    let (p_out, _) = has-append_false p (y ∷ ys) (q ∷ []) p_rest in
    let (n_out, _) = has-append_false n (y ∷ ys) (q ∷ []) dn in
    let (_, n_tail) = or_false (n == y) dn in
    let frame : Linked g y ys q =
      Linked-frame s g y q ys h
        (λ a m. c.next_other a (ne_of_has (y ∷ ys) a p m p_out) (ne_of_has (y ∷ ys) a n m n_out))
        (λ a m. c.prev_other a (ne_of_has _ a y m dy) (ne_of_has _ a n m n_tail)) in
    (c.next_left, c.prev_right, frame)
Linked-Unspliced s g p n q (x ∷ xs) ys (e, f, h) (dp, (dx, d)) c =
    let rest = (x ∷ xs ++ n ∷ ys) ++ q ∷ [] in
    let after = (xs ++ n ∷ ys) ++ q ∷ [] in
    let n_in : has n after ≡ true = has-middle n xs ys (q ∷ []) in
    let (_, p_out) = or_false (p == x) dp in
    let left : last_or x xs ≢ p = ne_of_has rest _ p (has-last_or x xs (n ∷ ys) (q ∷ [])) dp in
    let right : first_or q ys ≢ x = ne_of_has after _ x (has-first_after q n xs ys) dx in
    (
      c.next_other p (λ i. left (sym i)) (λ i. ne_of_has after n p n_in p_out (sym i)) ∙ e,
      c.prev_other x (λ i. right (sym i)) (λ i. ne_of_has after n x n_in dx (sym i)) ∙ f,
      Linked-Unspliced s g x n q xs ys h (dx, d) c,
    )

-- The gap between two neighbours.
pub Linked-gap :
    (s : Nodes) (p q : ℕ) (xs ys : List ℕ)
    → Linked s p (xs ++ ys) q
    → ((s (last_or p xs)).tln_next ≡ first_or q ys) × ((s (first_or q ys)).tln_prev ≡ last_or p xs)
Linked-gap s p q [] [] h = h
Linked-gap s p q [] (y ∷ ys) (e, f, h) = (e, f)
Linked-gap s p q (x ∷ xs) ys (e, f, h) = Linked-gap s x q xs ys h

pub Distinct-neighbours :
    (p n q : ℕ) (xs ys : List ℕ)
    → Distinct (p ∷ (xs ++ n ∷ ys) ++ q ∷ [])
    → (last_or p xs ≢ n) × (first_or q ys ≢ n)
Distinct-neighbours p n q [] ys (dp, (dn, d)) =
    (λ e. ground arith, ne_of_has (ys ++ q ∷ []) _ n (has-first_or q [] ys) dn)
Distinct-neighbours p n q (x ∷ xs) ys (dp, d) = Distinct-neighbours x n q xs ys d
