-- ===== src/Heap/Up.antt =====
-- klib/heap.c, bubble_up: it ends, and mends a heap whose one bad edge is the one above `index`.
use mathlib.Core.List.Perm
use jinx_os.Base.{
  ℕ, zero, suc, ◌<◌, ◌≡◌, ◌≢◌, refl, inl, inr, Bool, true, arith, ltb, ltb→lt, Bool-cases, Returns,
  returns,
}
use jinx_os.Array.{Array, IsValid}
use jinx_os.Array.Elements.{at}
use jinx_os.Heap.{parent, bubble_up}
use jinx_os.Heap.Swap.{swapped, swap_lem, swapped-IsValid, at-swapped, num-swapped}
use jinx_os.Heap.Order.{IsStrictOrder, InOrder, IsBridged, Sifted, compare_at_lem, Sifted-swapped}

module _ (precedes : ℕ → ℕ → Bool) where
  -- Only the edge above `i` may be out of order.
  pub record UpInv (a : Array) (i : ℕ) : Type 0 where
    pub valid : IsValid a
    pub inside : i < a.num
    pub edges : (c : ℕ) → 0 < c → c < a.num → c ≢ i → InOrder precedes a c
    pub bridged : IsBridged precedes a i

  module _ (o : IsStrictOrder precedes) where
    swapped-UpInv :
        (a : Array) (i : ℕ)
        → UpInv a i
        → 0 < i
        → precedes (at a i) (at a (parent i)) ≡ true
        → UpInv (swapped a i (parent i)) (parent i)
    swapped-UpInv a i v pos above =
        let up : parent i < a.num = omega (arith, v.inside) in
        let at_new = at-swapped a i (parent i) v.valid v.inside up in
        let size = num-swapped a i (parent i) v.valid v.inside up in
        record {
          valid = swapped-IsValid a i (parent i) v.valid v.inside up;
          inside = omega (arith, size, up);
          edges = λ c p q r. ground (
            arith,
            at_new c,
            at_new (parent c),
            v.edges c,
            v.bridged c,
            o.asym (at a i) (at a (parent i)),
            o.cotrans (at a c) (at a (parent i)) (at a i),
          );
          bridged = λ c p q r s. ground (
            arith,
            at_new c,
            at_new (parent (parent i)),
            v.edges c,
            v.edges (parent i),
            o.cotrans (at a c) (at a (parent i)) (at a (parent (parent i))),
          );
        }

    pub bubble_up-Sifted :
        (fuel : ℕ) (a : Array) (i : ℕ)
        → i < fuel
        → UpInv a i
        → Returns (Sifted precedes a) (bubble_up precedes fuel a i)
    unfolding bubble_up
    bubble_up-Sifted zero a i f v = absurd (omega arith)
    bubble_up-Sifted (suc fuel) a i f v =
        let up : parent i < a.num = omega (arith, v.inside) in
        rw
          (
            compare_at_lem precedes a i (parent i) v.valid v.inside up,
            swap_lem a i (parent i) v.valid v.inside up,
          )
          (elim (Bool-cases (ltb 0 i)) [
            | inl pos ↦ rw pos (elim (Bool-cases (precedes (at a i) (at a (parent i)))) [
              | inl above ↦ rw above (
                  Sifted-swapped precedes a i (parent i) v.valid v.inside up (
                    bubble_up-Sifted fuel (swapped a i (parent i)) (parent i) (ground arith)
                      (swapped-UpInv a i v (ltb→lt 0 i pos) above)))
              | inr settled ↦ rw settled (
                  returns (record {
                    valid = v.valid;
                    size = refl;
                    ordered = λ c p q. ground (arith, v.edges c);
                    same = Perm.rfl;
                  }))
            ])
            | inr root ↦ rw root (
                returns (record {
                  valid = v.valid;
                  size = refl;
                  ordered = λ c p q. v.edges c p q (ground arith);
                  same = Perm.rfl;
                }))
          ])
