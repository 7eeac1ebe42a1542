-- ===== src/LinkedList/Search.antt =====
-- klib/list.c: list_find.
use jinx_os.Base.{
  ℕ, zero, suc, ◌+◌, ◌<◌, ◌≡◌, sym, ap, ◌∙◌, inl, inr, Bool, [], ◌∷◌, arith, if◌then◌else◌,
  Bool-cases, eq→==, ne→==, length, ok,
}
use jinx_os.Kernel.{null}
use jinx_os.LinkedList.{LinkedList, Store, find_loop, list_find}
use jinx_os.LinkedList.Chain.{Cells, Chain, IsList, load_lem}

module _ (same : ℕ → ℕ → Bool) where
  -- The first value that the comparator takes for `query`, or NULL.
  unfoldable pub find_value : Cells → ℕ → ℕ
  find_value [] query = null
  find_value ((a, v) ∷ cs) query = if same v query then v else find_value cs query

  find_loop_lem :
      (fuel : ℕ) (s : Store) (query p : ℕ) (cs : Cells)
      → Chain s p cs null
      → length cs < fuel
      → find_loop same fuel s query p ≡ ok (find_value cs query)
  unfolding find_loop find_value
  find_loop_lem zero s query p cs h f = absurd (omega arith)
  find_loop_lem (suc fuel) s query p [] h f = rw (eq→== p null h)
  find_loop_lem (suc fuel) s query p ((a, v) ∷ cs) (e, ne, (n, at, rest)) f =
      rw (ne→== p null (λ z. ne (sym e ∙ z)), load_lem s p v n (ap s e ∙ at))
        (elim (Bool-cases (same v query)) [
          | inl hit ↦ rw hit
          | inr miss ↦ rw miss (find_loop_lem fuel s query n cs rest (omega arith))
        ])

  -- On every valid list list_find ends, with the first value that the comparator takes for the
  -- query, or NULL if there is none.
  pub list_find_lem :
      (s : Store) (l : LinkedList) (cs : Cells) (query : ℕ)
      → IsList s l cs
      → list_find same s l query ≡ ok (find_value cs query)
  unfolding list_find
  list_find_lem s l cs query is =
      rw (eq→== _ _ is.live)
        (find_loop_lem (l.size + 1) s query l.head cs is.chain (omega (arith, is.size)))
