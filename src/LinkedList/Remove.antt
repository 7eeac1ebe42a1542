-- ===== src/LinkedList/Remove.antt =====
-- klib/list.c: list_remove.
use native.Mathlib.Numerals.{add-one}
use jinx_os.Base.{
  ℕ, zero, suc, ◌+◌, ◌<◌, ◌≡◌, ◌≢◌, refl, sym, ap, subst, ◌∙◌, inl, inr, Bool, true, false, none,
  some, [], ◌∷◌, arith, ◌==◌, if◌then◌else◌, Bool-cases, eq→==, ne→==, length, ok, Returns, returns,
  Returns-bind, Returns-mono,
}
use jinx_os.Kernel.{null}
use jinx_os.LinkedList.{
  LinkedList, Store, node, write, write_self, write_other, decrement, unlink, remove_loop,
  list_remove,
}
use jinx_os.LinkedList.Chain.{
  Cells, has, last_addr, Distinct, Chain, IsList, load_lem, Chain-write, has-last_addr,
}
use jinx_os.LinkedList.Ends.{SameOutside}
use jinx_os.LinkedList.Search.{find_value}

module _ (same : ℕ → ℕ → Bool) where
  unfoldable pub found : Cells → ℕ → Bool
  found [] query = false
  found ((a, v) ∷ cs) query = if same v query then true else found cs query

  -- The nodes without the first one whose value the comparator takes for `query`.
  unfoldable pub erase : Cells → ℕ → Cells
  erase [] query = []
  erase ((a, v) ∷ cs) query = if same v query then cs else (a, v) ∷ erase cs query

  has-erase : (b : ℕ) (cs : Cells) (query : ℕ) → has b cs ≡ false → has b (erase cs query) ≡ false
  unfolding erase
  has-erase b [] query out = refl
  has-erase b ((a, v) ∷ cs) query out = ground (arith, has-erase b cs query)

  Distinct-erase : (cs : Cells) (query : ℕ) → Distinct cs → Distinct (erase cs query)
  unfolding erase
  Distinct-erase [] query d = tt
  Distinct-erase ((a, v) ∷ cs) query (new, d) = elim (Bool-cases (same v query)) [
    | inl hit ↦ rw hit d
    | inr miss ↦ rw miss (has-erase a cs query new, Distinct-erase cs query d)
  ]

  pub length-erase :
      (cs : Cells) (query : ℕ)
      → length cs ≡ length (erase cs query) + (if found cs query then 1 else 0)
  unfolding erase found
  length-erase [] query = refl
  length-erase ((a, v) ∷ cs) query = ground (arith, length-erase cs query)

  -- The loop, from the node `p` behind `q`, where `cs` are the nodes from `p` on.
  record Scan (s : Store) (l : LinkedList) (query q w : ℕ) (cs : Cells) (res : ℕ) (l' : LinkedList)
      (g : Store) : Type 0 where
    value : res ≡ find_value same cs query
    datatype : l'.datatype ≡ l.datatype
    head : l'.head ≡ l.head
    size : l'.size ≡ (if found cs query then decrement l.size else l.size)
    last : l'.tail ≡ last_addr q (erase cs query)
    chain : Chain g q ((q, w) ∷ erase cs query) null
    outside : SameOutside ((q, w) ∷ cs) s g

  unlink_lem :
      (s : Store) (l : LinkedList) (q w a n : ℕ)
      → q ≢ null
      → s q ≡ some (node w a)
      → unlink same s l q n ≡ ok (l, write s q (some (node w n)))
  unfolding unlink
  unlink_lem s l q w a n ne hq = rw (ne→== q null ne, hq)

  unlinked-last :
      (a q tail : ℕ) (cs : Cells)
      → has a cs ≡ false
      → tail ≡ last_addr a cs
      → (if a == tail then q else tail) ≡ last_addr q cs
  unlinked-last a q tail [] out t = ground arith
  unlinked-last a q tail ((b, u) ∷ cs) out t = ground (arith, has-last_addr b u cs)

  -- The step that finds the value at `a`, behind `q`.
  unlinked :
      (s : Store) (l : LinkedList) (query q w a v n : ℕ) (cs : Cells)
      → q ≢ null
      → s q ≡ some (node w a)
      → s a ≡ some (node v n)
      → Chain s n cs null
      → Distinct ((q, w) ∷ (a, v) ∷ cs)
      → l.tail ≡ last_addr q ((a, v) ∷ cs)
      → same v query ≡ true
      → Scan s l query q w
          ((a, v) ∷ cs)
          v
          (record l { tail = if a == l.tail then q else l.tail; size = decrement l.size })
          (write (write s q (some (node w n))) a none)
  unfolding find_value found erase
  unlinked s l query q w a v n cs ne hq at rest (new, (out, d)) t hit =
      let s1 = write s q (some (node w n)) in
      let apart : q ≢ a = λ e. ground arith in
      record {
        value = rw hit;
        datatype = refl;
        head = refl;
        size = rw hit;
        last = rw hit (unlinked-last a q l.tail cs out t);
        chain = rw hit (
          refl,
          ne,
          (
            n,
            write_other s1 a none q apart ∙ write_self s q _,
            Chain-write s1 a none n cs null (Chain-write s q _ n cs null rest (ground arith)) out,
          ),
        );
        outside =
            λ b o. write_other s1 a none b (ground arith) ∙ write_other s q _ b (ground arith);
      }

  -- A step past a node that is not the one.
  Scan-cons :
      (s : Store) (l : LinkedList) (query q w a v : ℕ) (cs : Cells) (res : ℕ) (l' : LinkedList)
      (g : Store)
      → q ≢ null
      → s q ≡ some (node w a)
      → has q ((a, v) ∷ cs) ≡ false
      → same v query ≡ false
      → Scan s l query a v cs res l' g
      → Scan s l query q w ((a, v) ∷ cs) res l' g
  unfolding find_value found erase
  Scan-cons s l query q w a v cs res l' g ne hq new miss r = record {
    value = rw miss r.value;
    datatype = r.datatype;
    head = r.head;
    size = rw miss r.size;
    last = rw miss r.last;
    chain = rw miss (refl, ne, (a, r.outside q new ∙ hq, r.chain));
    outside = λ b o. r.outside b (ground arith);
  }

  remove_loop-Scan :
      (fuel : ℕ) (s : Store) (l : LinkedList) (query q w p : ℕ) (cs : Cells)
      → q ≢ null
      → s q ≡ some (node w p)
      → Chain s p cs null
      → Distinct ((q, w) ∷ cs)
      → l.tail ≡ last_addr q cs
      → length cs < fuel
      → Returns
          (λ (res, l', g). Scan s l query q w cs res l' g)
          (remove_loop same fuel s l query q p)
  unfolding remove_loop find_value found erase
  remove_loop-Scan zero s l query q w p cs ne hq h d t f = absurd (omega arith)
  remove_loop-Scan (suc fuel) s l query q w p [] ne hq h d t f = rw (eq→== p null h) (
      returns (record {
        value = refl;
        datatype = refl;
        head = refl;
        size = refl;
        last = t;
        chain = (refl, ne, (null, hq ∙ ap (λ z. some (node w z)) h, refl));
        outside = λ b o. refl;
      }))
  remove_loop-Scan (suc fuel) s l query q w p ((a, v) ∷ cs) ne hq (e, na, (n, at, rest)) (new, d) t
        f =
      let hq' : s q ≡ some (node w a) = hq ∙ ap (λ z. some (node w z)) e in
      rw e (
        rw (ne→== a null na, load_lem s a v n at)
          (elim (Bool-cases (same v query)) [
            | inl hit ↦
                rw (hit, unlink_lem s l q w a n ne hq')
                  (returns (unlinked s l query q w a v n cs ne hq' at rest (new, d) t hit))
            | inr miss ↦ rw miss (
                Returns-mono (remove_loop-Scan fuel s l query a v n cs na at rest d t (omega arith))
                  λ (res, l', g) r. Scan-cons s l query q w a v cs res l' g ne hq' new miss r)
          ]))

  -- The loop from the head, where no node stands before.
  pub record Removed (s : Store) (l : LinkedList) (cs : Cells) (query res : ℕ) (l' : LinkedList)
      (g : Store) : Type 0 where
    pub value : res ≡ find_value same cs query
    pub list : IsList g l' (erase cs query)
    pub outside : SameOutside cs s g

  final-last :
      (cs : Cells) (size tail : ℕ)
      → size ≡ length cs
      → tail ≡ last_addr null cs
      → (if size == 0 then null else tail) ≡ last_addr null cs
  final-last [] size tail e h = rw (eq→== size 0 e)
  final-last (c ∷ cs) size tail e h = rw (ne→== size 0 (omega (arith, e))) h

  -- What the loop leaves when the first node is not the one.
  later :
      (s : Store) (l : LinkedList) (cs : Cells) (query res : ℕ) (l' : LinkedList) (g : Store)
      (a v : ℕ)
      → IsList s l ((a, v) ∷ cs)
      → same v query ≡ false
      → Scan s l query a v cs res l' g
      → Removed s l
          ((a, v) ∷ cs)
          query
          res
          (record l' { tail = if l'.size == 0 then null else l'.tail })
          g
  unfolding find_value found erase
  later s l cs query res l' g a v is miss r =
      let size : l'.size ≡ suc (length (erase cs query)) =
        ground (arith, r.size, is.size, is.bounded, length-erase cs query) in
      record {
        value = rw miss r.value;
        list = rw miss (record {
          live = r.datatype ∙ is.live;
          chain = (r.head ∙ is.chain.0, r.chain.1, r.chain.2);
          distinct = (has-erase a cs query is.distinct.0, Distinct-erase cs query is.distinct.1);
          last = final-last ((a, v) ∷ erase cs query) l'.size l'.tail size r.last;
          size = size;
          bounded = omega (arith, is.bounded, length-erase cs query);
        });
        outside = r.outside;
      }

  list_remove-cons :
      (s : Store) (l : LinkedList) (v : ℕ) (cs : Cells) (query : ℕ)
      → IsList s l ((l.head, v) ∷ cs)
      → Returns
          (λ (res, l', g). Removed s l ((l.head, v) ∷ cs) query res l' g)
          (list_remove same s l query)
  unfolding list_remove remove_loop unlink find_value found erase
  list_remove-cons s l v cs query is =
      let (e, nn, (n, at, rest)) = is.chain in
      let (out, d) = is.distinct in
      rw (eq→== _ _ is.live, add-one, ne→== l.head null nn, load_lem s l.head v n at)
        (elim (Bool-cases (same v query)) [
          | inl hit ↦ rw hit (
              returns (record {
                value = rw hit;
                list = rw hit (record {
                  live = is.live;
                  chain = Chain-write s l.head none n cs null rest out;
                  distinct = d;
                  last =
                      final-last cs (decrement l.size) _ (omega (arith, is.size, is.bounded))
                        (unlinked-last l.head null l.tail cs out is.last);
                  size = omega (arith, is.size, is.bounded);
                  bounded = omega (arith, is.bounded);
                });
                outside = λ b o. write_other s l.head none b (ground arith);
              }))
          | inr miss ↦ rw miss (
              Returns-bind
                (remove_loop-Scan l.size s l query l.head v n cs nn at rest (out, d) is.last
                  (omega (arith, is.size)))
                λ (res, l', g) r. returns (later s l cs query res l' g l.head v is miss r))
        ])

  -- On every valid list list_remove ends: it takes out the first node whose value the comparator
  -- takes for the query and returns that value, or returns NULL and takes out none. The list stays
  -- valid, its size and tail included, and other nodes of the store are untouched.
  pub list_remove_lem :
      (s : Store) (l : LinkedList) (cs : Cells) (query : ℕ)
      → IsList s l cs
      → Returns (λ (res, l', g). Removed s l cs query res l' g) (list_remove same s l query)
  unfolding list_remove remove_loop unlink find_value found erase
  list_remove_lem s l [] query is =
      rw (eq→== _ _ is.live, add-one, eq→== l.head null is.chain, eq→== l.size 0 is.size)
        (returns (record {
          value = refl;
          list = record {
            live = is.live;
            chain = is.chain;
            distinct = tt;
            last = refl;
            size = is.size;
            bounded = is.bounded;
          };
          outside = λ b o. refl;
        }))
  list_remove_lem s l ((a, v) ∷ cs) query is =
      let e : l.head ≡ a = is.chain.0 in
      subst
        (λ z.
          Returns (λ (res, l', g). Removed s l ((z, v) ∷ cs) query res l' g)
            (list_remove same s l query))
        e (list_remove-cons s l v cs query (subst (λ z. IsList s l ((z, v) ∷ cs)) (sym e) is))
