-- ===== src/Heap/Down.antt =====
-- klib/heap.c, trickle_down: it ends, and mends a heap whose only bad edges are those below `index`.
use mathlib.Core.List.Perm
use jinx_os.Base.{
  ℕ, zero, suc, ◌-◌, ◌<◌, ◌≡◌, ◌≢◌, refl, inl, inr, ◌⊎◌, Bool, true, false, Option, none, some,
  arith, ltb, ltb→lt, ◌==◌, if◌then◌else◌, Bool-cases, Returns, returns, Returns-bind, ok, ◌>>=◌,
}
use jinx_os.Array.{Array, IsValid}
use jinx_os.Array.Elements.{at}
use jinx_os.Heap.{parent, left, right, swap, pick_child, trickle_down, compare_at}
use jinx_os.Heap.Swap.{swapped, swap_lem, swapped-IsValid, at-swapped, num-swapped}
use jinx_os.Heap.Order.{IsStrictOrder, InOrder, IsBridged, Sifted, compare_at_lem, Sifted-swapped}

module _ (precedes : ℕ → ℕ → Bool) where
  -- Only the edges below `i` may be out of order.
  pub record DownInv (a : Array) (i : ℕ) : Type 0 where
    pub valid : IsValid a
    pub edges : (c : ℕ) → 0 < c → c < a.num → parent c ≢ i → InOrder precedes a c
    pub bridged : IsBridged precedes a i

  -- `m` is the child of `i` to swap with: it precedes `i`, and no child of `i` precedes it.
  record IsFirstChild (a : Array) (i m : ℕ) : Type 0 where
    inside : m < a.num
    pos : 0 < m
    child : parent m ≡ i
    above : precedes (at a m) (at a i) ≡ true
    first : (c : ℕ) → 0 < c → c < a.num → parent c ≡ i → precedes (at a c) (at a m) ≡ false

  abbrev Picked : Array → ℕ → Option ℕ → Type 0
  Picked a i none = (c : ℕ) → 0 < c → c < a.num → parent c ≡ i → precedes (at a c) (at a i) ≡ false
  Picked a i (some m) = IsFirstChild a i m

  children : (c i : ℕ) → 0 < c → parent c ≡ i → (c ≡ left i) ⊎ (c ≡ right i)
  children c i p r = elim (Bool-cases (c == left i)) [
    | inl e ↦ inl (ground arith)
    | inr e ↦ inr (ground arith)
  ]

  module _ (o : IsStrictOrder precedes) where
    -- The second half of the choice, once the right child is known not to precede `i`.
    pick_left :
        (a : Array) (i : ℕ)
        → IsValid a
        → (right i < a.num → precedes (at a (right i)) (at a i) ≡ false)
        → Returns (Picked a i) (
            if ltb (left i) a.num
            then (do
              first ← compare_at precedes a (left i) i
              ok (if first then some (left i) else none))
            else ok none)
    pick_left a i v low = elim (Bool-cases (ltb (left i) a.num)) [
      | inl has ↦
          let l : left i < a.num = ltb→lt (left i) a.num has in
          rw (has, compare_at_lem precedes a (left i) i v l (omega arith))
            (elim (Bool-cases (precedes (at a (left i)) (at a i))) [
              | inl above ↦ rw above (
                  returns (record {
                    inside = l;
                    pos = omega arith;
                    child = omega arith;
                    above = above;
                    first = λ c p q r. elim (children c i p r) [
                      | inl e ↦ rw e (ground (arith, o.asym (at a (left i)) (at a (left i))))
                      | inr e ↦ rw e (o.cotrans _ (at a i) _ (low (rw e at q)) (o.asym _ _ above))
                    ];
                  }))
              | inr settled ↦ rw settled (
                  returns λ c p q r. elim (children c i p r) [
                    | inl e ↦ rw e settled
                    | inr e ↦ rw e (low (rw e at q))
                  ])
            ])
      | inr leaf ↦ rw leaf (returns (λ c p q r. absurd (ground arith)))
    ]

    pick_both :
        (a : Array) (i : ℕ)
        → right i < a.num
        → precedes (at a (right i)) (at a i) ≡ true
        → IsFirstChild a i (if precedes (at a (left i)) (at a (right i)) then left i else right i)
    pick_both a i h above = elim (Bool-cases (precedes (at a (left i)) (at a (right i)))) [
      | inl lower ↦ rw lower (record {
        inside = omega arith;
        pos = omega arith;
        child = omega arith;
        above = ground (
          arith,
          o.cotrans (at a (left i)) (at a i) (at a (right i)),
          o.asym (at a (right i)) (at a i),
        );
        first = λ c p q r. elim (children c i p r) [
          | inl e ↦ rw e (ground (arith, o.asym (at a (left i)) (at a (left i))))
          | inr e ↦ rw e (o.asym _ _ lower)
        ];
      })
      | inr lower ↦ rw lower (record {
        inside = h;
        pos = omega arith;
        child = omega arith;
        above = above;
        first = λ c p q r. elim (children c i p r) [
          | inl e ↦ rw e lower
          | inr e ↦ rw e (ground (arith, o.asym (at a (right i)) (at a (right i))))
        ];
      })
    ]

    -- trickle_down picks the child that precedes the other one, if it precedes the entry itself.
    pick_child-Picked :
        (a : Array) (i : ℕ) → IsValid a → Returns (Picked a i) (pick_child precedes a i)
    unfolding pick_child
    pick_child-Picked a i v = elim (Bool-cases (ltb (right i) a.num)) [
      | inl has ↦
          let r : right i < a.num = ltb→lt (right i) a.num has in
          rw (has, compare_at_lem precedes a (right i) i v r (omega arith))
            (elim (Bool-cases (precedes (at a (right i)) (at a i))) [
              | inl above ↦
                  rw (above, compare_at_lem precedes a (left i) (right i) v (omega arith) r)
                    (returns (pick_both a i r above))
              | inr low ↦ rw low (pick_left a i v (λ _. low))
            ])
      | inr leaf ↦ rw leaf (pick_left a i v (λ h. absurd (ground arith)))
    ]

    swapped-DownInv :
        (a : Array) (i m : ℕ) → DownInv a i → IsFirstChild a i m → DownInv (swapped a m i) m
    swapped-DownInv a i m v s =
        let hi : i < a.num = omega (arith, s.inside, s.child, s.pos) in
        let at_new = at-swapped a m i v.valid s.inside hi in
        let size = num-swapped a m i v.valid s.inside hi in
        record {
          valid = swapped-IsValid a m i v.valid s.inside hi;
          edges = λ c p q r. ground (
            arith,
            at_new c,
            at_new (parent c),
            v.edges c,
            v.bridged m,
            s.first c,
            o.asym (at a m) (at a i),
          );
          bridged = λ c p q r t. ground (arith, at_new c, at_new (parent m), v.edges c);
        }

    pub trickle_down-Sifted :
        (fuel : ℕ) (a : Array) (i : ℕ)
        → a.num - i < fuel
        → DownInv a i
        → Returns (Sifted precedes a) (trickle_down precedes fuel a i)
    unfolding trickle_down
    trickle_down-Sifted zero a i f v = absurd (omega arith)
    trickle_down-Sifted (suc fuel) a i f v = Returns-bind (pick_child-Picked a i v.valid) (λ j.
        elim j
          as (λ j.
            Picked a i j
            → Returns (Sifted precedes a) (elim j [
              | none ↦ ok a
              | some c ↦ swap a c i >>= λ b. trickle_down precedes fuel b c
            ])) [
              | none ↦ λ settled. returns (record {
                valid = v.valid;
                size = refl;
                ordered = λ c p q. ground (arith, v.edges c, settled c);
                same = Perm.rfl;
              })
              | some m ↦ λ s.
                  let hi : i < a.num = omega (arith, s.inside, s.child, s.pos) in
                  rw (swap_lem a m i v.valid s.inside hi) (
                    Sifted-swapped precedes a m i v.valid s.inside hi (
                      trickle_down-Sifted fuel (swapped a m i) m
                        (omega
                          (arith, num-swapped a m i v.valid s.inside hi, s.inside, s.child, s.pos))
                        (swapped-DownInv a i m v s)))
            ])
