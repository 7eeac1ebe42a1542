-- ===== src/LinkedList/Whole.antt =====
-- klib/list.c: list_assertvalid and list_destroy, which walk the whole list.
use jinx_os.Base.{
  ℕ, zero, suc, ◌+◌, ◌^◌, ◌<◌, ◌≡◌, refl, sym, ap, ap₂, ◌∙◌, inl, inr, true, none, [], ◌∷◌, arith,
  ◌==◌, if◌then◌else◌, Bool-cases, eq→==, ne→==, length, ok, Returns, returns, Returns-mono,
}
use jinx_os.Kernel.{null, wrap}
use jinx_os.LinkedList.{
  LinkedList, Store, write, write_self, write_other, count_loop, list_assertvalid, destroy_loop,
  list_destroy,
}
use jinx_os.LinkedList.Chain.{Cells, has, last_addr, Distinct, Chain, IsList, load_lem, Chain-write}
use jinx_os.LinkedList.Ends.{SameOutside}

count_loop_lem :
    (fuel : ℕ) (s : Store) (count prev p : ℕ) (cs : Cells)
    → Chain s p cs null
    → length cs < fuel
    → count + length cs < 2 ^ 32
    → count_loop fuel s count prev p ≡ ok (count + length cs, last_addr prev cs)
unfolding count_loop
count_loop_lem zero s count prev p cs h f b = absurd (omega arith)
count_loop_lem (suc fuel) s count prev p [] h f b = rw (eq→== p null h) (ground arith)
count_loop_lem (suc fuel) s count prev p ((a, v) ∷ cs) (e, ne, (n, at, rest)) f b =
    let next : wrap (count + 1) ≡ count + 1 = omega arith in
    let shift : count + 1 + length cs ≡ count + suc (length cs) = omega arith in
    rw (ne→== p null (λ z. ne (sym e ∙ z)), load_lem s p v n (ap s e ∙ at), next)
      (count_loop_lem fuel s (count + 1) p n cs rest (omega arith) (omega arith)
        ∙ ap₂ (λ (x y : ℕ). ok (x, y)) shift (ap (λ z. last_addr z cs) e))

tail-checks :
    (cs : Cells) (tail : ℕ)
    → Distinct cs
    → tail ≡ last_addr null cs
    → (if length cs == 0 then tail == null else last_addr null cs == tail) ≡ true
tail-checks [] tail d e = ground arith
tail-checks (c ∷ cs) tail d e = rw (ne→== (suc (length cs)) 0 (omega arith)) (eq→== _ _ (sym e))

-- list_assertvalid passes on every valid list.
pub list_assertvalid_lem :
    (s : Store) (l : LinkedList) (cs : Cells) → IsList s l cs → list_assertvalid s l ≡ ok tt
unfolding list_assertvalid
list_assertvalid_lem s l cs is =
    let counted : count_loop (l.size + 1) s 0 null l.head ≡ ok (length cs, last_addr null cs) =
      count_loop_lem (l.size + 1) s 0 null l.head cs is.chain (omega (arith, is.size))
        (omega (arith, is.bounded))
      ∙ ap (λ (n : ℕ). ok (n, last_addr null cs)) (omega arith) in
    rw (
      eq→== _ _ is.live,
      counted,
      tail-checks cs l.tail is.distinct is.last,
      eq→== (length cs) l.size (sym is.size),
    )

-- `g` is `s` with every node of `cs` freed.
abbrev pub Without : Cells → Store → Store → Type 0
Without cs s g = ((a : ℕ) → has a cs ≡ true → g a ≡ none) × SameOutside cs s g

destroy_loop-Without :
    (fuel : ℕ) (s : Store) (p : ℕ) (cs : Cells)
    → Chain s p cs null
    → Distinct cs
    → length cs < fuel
    → Returns (Without cs s) (destroy_loop fuel s p)
unfolding destroy_loop
destroy_loop-Without zero s p cs h d f = absurd (omega arith)
destroy_loop-Without (suc fuel) s p [] h d f =
    rw (eq→== p null h) (returns (λ a i. cc, λ a o. refl))
destroy_loop-Without (suc fuel) s p ((a, v) ∷ cs) (e, ne, (n, at, rest)) (new, d) f =
    rw (ne→== p null (λ z. ne (sym e ∙ z)), load_lem s p v n (ap s e ∙ at), e)
      (Returns-mono
        (destroy_loop-Without fuel (write s a none) n cs (Chain-write s a none n cs null rest new) d
          (omega arith))
        λ g (freed, kept). (
          λ b i. elim (Bool-cases (has b cs)) [
            | inl later ↦ freed b later
            | inr first ↦
                kept b first ∙ ap (write s a none) {y = a} (ground arith) ∙ write_self s a none
          ],
          λ b o. kept b (ground arith) ∙ write_other s a none b (ground arith),
        ))

-- list_destroy frees every node of a valid list, and touches nothing else.
pub list_destroy_lem :
    (s : Store) (l : LinkedList) (cs : Cells)
    → IsList s l cs
    → Returns (Without cs s) (list_destroy s l)
unfolding list_destroy
list_destroy_lem s l cs is =
    rw (eq→== _ _ is.live)
      (destroy_loop-Without (l.size + 1) s l.head cs is.chain is.distinct (omega (arith, is.size)))
