-- ===== src/LinkedList/Ends.antt =====
-- klib/list.c: list_create, list_push_back, list_pop_front and list_front.
use jinx_os.Base.{
  ℕ, suc, ◌^◌, ◌<◌, ◌≡◌, ◌≢◌, refl, sym, ap, ◌∙◌, false, none, some, [], ◌∷◌, ◌++◌, arith, ◌==◌,
  if◌then◌else◌, eq→==, ne→==, length, length-append, ok, Returns, returns,
}
use jinx_os.Kernel.{null, success, enomem}
use jinx_os.LinkedList.{
  LinkedList, Store, node, write, write_self, write_other, list_type, list_create, listnode_create,
  list_push_back, list_pop_front, list_front, decrement,
}
use jinx_os.LinkedList.Chain.{
  Cells, has, last_addr, Distinct, Chain, IsList, Chain-write, Chain-append, has-append,
  has-last_addr, last_addr-append, Distinct-append, load_lem,
}

-- Outside the nodes `cs` the store is as it was.
abbrev pub SameOutside : Cells → Store → Store → Type 0
SameOutside cs s g = (a : ℕ) → has a cs ≡ false → g a ≡ s a

pub list_create-IsList : (s : Store) → IsList s list_create []
unfolding list_create
list_create-IsList s = record {
  live = refl;
  chain = refl;
  distinct = tt;
  last = refl;
  size = refl;
  bounded = omega arith;
}

-- The last node can be reached, and a write to its `next` field moves the end of the chain.
relink :
    (s : Store) (p a v : ℕ) (cs : Cells) (stop q : ℕ)
    → Chain s p ((a, v) ∷ cs) stop
    → Distinct ((a, v) ∷ cs)
    → (w : ℕ) × (s (last_addr a cs) ≡ some (node w stop))
      × Chain (write s (last_addr a cs) (some (node w q))) p ((a, v) ∷ cs) q
unfolding write
relink s p a v [] stop q (e, ne, (n, at, end)) d =
    (v, ground arith, (e, ne, (q, ground arith, refl)))
relink s p a v ((b, u) ∷ cs) stop q (e, ne, (n, at, rest)) (new, d) =
    let (w, holds, moved) = relink s n b u cs stop q rest d in
    (w, holds, (e, ne, (n, ground (arith, has-last_addr b u cs), moved)))

pushed_outside :
    (s : Store) (a v : ℕ) (cs : Cells) (fresh x w b : ℕ)
    → has b ((a, v) ∷ cs ++ (fresh, x) ∷ []) ≡ false
    → write (write s fresh (some (node x null))) (last_addr a cs) (some (node w fresh)) b ≡ s b
unfolding write
pushed_outside s a v cs fresh x w b o =
    ground (arith, has-append b ((a, v) ∷ cs) ((fresh, x) ∷ []), has-last_addr a v cs)

-- The value that list_front shows.
abbrev pub first_value : Cells → ℕ
first_value [] = null
first_value ((a, v) ∷ cs) = v

popped-last :
    (cs : Cells) (a size tail : ℕ)
    → size ≡ length cs
    → tail ≡ last_addr a cs
    → (if size == 0 then null else tail) ≡ last_addr null cs
popped-last [] a size tail e h = rw (eq→== size 0 e)
popped-last (c ∷ cs) a size tail e h = rw (ne→== size 0 (omega (arith, e))) h

-- What list_push_back leaves: the new node at the end, and nothing else changed but the `next`
-- field of the node that was last.
abbrev pub PushedBack : Store → Cells → ℕ → ℕ → ℕ × LinkedList × Store → Type 0
PushedBack s cs fresh x (err, l', g) =
    (err ≡ success) × IsList g l' (cs ++ (fresh, x) ∷ []) × SameOutside (cs ++ (fresh, x) ∷ []) s g

-- On a valid list of fewer than 2 ^ 32 - 1 nodes, list_push_back with memory at an address that no
-- node of the list has ends with success: the value stands in a new last node, the list is valid,
-- and nothing outside it is touched.
pub list_push_back_lem :
    (s : Store) (l : LinkedList) (cs : Cells) (fresh x : ℕ)
    → IsList s l cs
    → fresh ≢ null
    → has fresh cs ≡ false
    → suc (length cs) < 2 ^ 32
    → Returns (PushedBack s cs fresh x) (list_push_back s l fresh x)
unfolding list_push_back listnode_create
list_push_back_lem s l [] fresh x is ne out room =
    let at = write_self s fresh (some (node x null)) in
    rw
      (eq→== _ _ is.live, ne→== _ _ ne, ne→== _ _ ne, load_lem _ fresh x null at, eq→== _ _ is.size)
      (returns (
        refl,
        record {
          live = is.live;
          chain = (refl, ne, (null, at, refl));
          distinct = (refl, tt);
          last = refl;
          size = omega (arith, is.size);
          bounded = room;
        },
        λ a o. write_other s fresh (some (node x null)) a (ground arith),
      ))
list_push_back_lem s l ((a, v) ∷ cs) fresh x is ne out room =
    let s1 = write s fresh (some (node x null)) in
    let t = last_addr a cs in
    let made = write_self s fresh (some (node x null)) in
    let kept = Chain-write s fresh (some (node x null)) l.head ((a, v) ∷ cs) null is.chain out in
    let (w, holds, moved) = relink s1 l.head a v cs null fresh kept is.distinct in
    let apart : t ≢ fresh = λ e. cc (ap (λ z. has z ((a, v) ∷ cs)) e, has-last_addr a v cs, out) in
    let at_tail : s1 l.tail ≡ some (node w null) = ap s1 is.last ∙ holds in
    rw
      (
        eq→== _ _ is.live,
        ne→== _ _ ne,
        ne→== _ _ ne,
        load_lem s1 fresh x null made,
        ne→== l.size 0 (omega (arith, is.size)),
        load_lem s1 l.tail w null at_tail,
        is.last,
      )
      (returns (
        refl,
        record {
          live = is.live;
          chain =
              Chain-append _ l.head fresh ((a, v) ∷ cs) ((fresh, x) ∷ []) null moved
                (refl, ne, (null, write_other s1 t _ fresh (λ e. apart (sym e)) ∙ made, refl));
          distinct = Distinct-append ((a, v) ∷ cs) fresh x is.distinct out;
          last = sym (last_addr-append null fresh x ((a, v) ∷ cs));
          size = omega (arith, is.size, length-append cs ((fresh, x) ∷ []), room);
          bounded = omega (arith, length-append cs ((fresh, x) ∷ []), room);
        },
        λ b o. pushed_outside s a v cs fresh x w b o,
      ))

-- Without memory, list_push_back says so and changes nothing.
pub list_push_back_no_memory :
    (s : Store) (l : LinkedList) (x : ℕ)
    → l.datatype ≡ list_type
    → list_push_back s l null x ≡ ok (enomem, l, s)
unfolding list_push_back listnode_create
list_push_back_no_memory s l x live = rw (eq→== _ _ live)

-- list_front reads the first value of a list that has one, and NULL otherwise.
pub list_front_lem :
    (s : Store) (l : LinkedList) (cs : Cells) → IsList s l cs → list_front s l ≡ ok (first_value cs)
unfolding list_front
list_front_lem s l [] is = rw (eq→== _ _ is.live, eq→== _ _ is.size)
list_front_lem s l ((a, v) ∷ cs) is =
    let (e, ne, (n, at, rest)) = is.chain in
    rw (
      eq→== _ _ is.live,
      ne→== l.size 0 (omega (arith, is.size)),
      ne→== l.head null (λ z. ne (sym e ∙ z)),
      load_lem s l.head v n (ap s e ∙ at),
    )

-- What list_pop_front leaves: the list without its first node, which is freed.
abbrev pub PoppedFront : Store → Cells → LinkedList × Store → Type 0
PoppedFront s [] (l', g) = IsList g l' [] × (g ≡ s)
PoppedFront s ((a, v) ∷ cs) (l', g) = IsList g l' cs × (g ≡ write s a none)

-- On a valid list list_pop_front ends: it takes the first node off and frees it, and does nothing
-- to an empty list.
pub list_pop_front_lem :
    (s : Store) (l : LinkedList) (cs : Cells)
    → IsList s l cs
    → Returns (PoppedFront s cs) (list_pop_front s l)
unfolding list_pop_front
list_pop_front_lem s l [] is = rw (eq→== _ _ is.live, eq→== _ _ is.size) (returns (is, refl))
list_pop_front_lem s l ((a, v) ∷ cs) is =
    let (e, ne, (n, at, rest)) = is.chain in
    let (new, d) = is.distinct in
    let less : decrement l.size ≡ length cs = omega (arith, is.size, is.bounded) in
    rw
      (
        eq→== _ _ is.live,
        ne→== l.size 0 (omega (arith, is.size)),
        load_lem s l.head v n (ap s e ∙ at),
      )
      (returns (
        record {
          live = is.live;
          chain = Chain-write s l.head none n cs null rest (ap (λ z. has z cs) e ∙ new);
          distinct = d;
          last = popped-last cs a (decrement l.size) l.tail less is.last;
          size = less;
          bounded = omega (arith, is.bounded);
        },
        ap (λ z. write s z none) e,
      ))
