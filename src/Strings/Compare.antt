-- ===== src/Strings/Compare.antt =====
-- klib/string.c: strcmp, strncmp and memcmp. Of the `int` that strcmp returns only the sign is kept.
use Prim.Native.Nat.{Ordering, lt, eq, gt, compare}
use jinx_os.Base.{
  ℕ, zero, suc, ◌+◌, ◌-◌, ◌^◌, ◌<◌, ◌≡◌, refl, sym, List, [], ◌∷◌, ◌++◌, arith, ◌==◌, ltb, ne→==,
  if◌then◌else◌, length, Run, ok, fault,
}
use jinx_os.Kernel.{wrap}
use jinx_os.Strings.Length.{NoNul}

unfoldable pub strcmp : List ℕ → List ℕ → Run Ordering
strcmp [] s2 = fault
strcmp (a ∷ s1) [] = fault
strcmp (a ∷ s1) (b ∷ s2) =
    let rest = strcmp s1 s2 in
    if a == b then (if a == 0 then ok eq else rest) else ok (if ltb a b then lt else gt)

unfoldable pub strncmp : List ℕ → List ℕ → ℕ → Run Ordering
strncmp s1 s2 zero = ok eq
strncmp [] s2 (suc n) = fault
strncmp (a ∷ s1) [] (suc n) = fault
strncmp (a ∷ s1) (b ∷ s2) (suc n) =
    let rest = strncmp s1 s2 n in
    if a == b then (if a == 0 then ok eq else rest) else ok (if ltb a b then lt else gt)

-- memcmp: the difference of the first two bytes that differ, as 32 bits.
unfoldable pub memcmp : List ℕ → List ℕ → ℕ → Run ℕ
memcmp p1 p2 zero = ok 0
memcmp [] p2 (suc n) = fault
memcmp (a ∷ p1) [] (suc n) = fault
memcmp (a ∷ p1) (b ∷ p2) (suc n) =
    let rest = memcmp p1 p2 n in if a == b then rest else ok (wrap (a + 2 ^ 32 - b))

-- The order of strings: byte by byte, a proper beginning first.
abbrev pub lexicographic : List ℕ → List ℕ → Ordering
lexicographic [] [] = eq
lexicographic [] (b ∷ t) = lt
lexicographic (a ∷ s) [] = gt
lexicographic (a ∷ s) (b ∷ t) = elim (compare a b) [
  | Ordering.lt ↦ lt
  | Ordering.eq ↦ lexicographic s t
  | Ordering.gt ↦ gt
]

-- strcmp of two strings ends with their order, whatever follows their NULs.
pub strcmp_lem :
    (s t q r : List ℕ)
    → NoNul s
    → NoNul t
    → strcmp (s ++ 0 ∷ q) (t ++ 0 ∷ r) ≡ ok (lexicographic s t)
unfolding strcmp
strcmp_lem [] [] q r hs ht = refl
strcmp_lem [] (b ∷ t) q r hs (ne, ht) = rw (ne→== 0 b (λ e. ne (sym e))) (ground arith)
strcmp_lem (a ∷ s) [] q r (ne, hs) ht = rw (ne→== a 0 ne) (ground arith)
strcmp_lem (a ∷ s) (b ∷ t) q r (na, hs) (nb, ht) =
    rw (strcmp_lem s t q r hs ht, ne→== a 0 na) (ground arith)

-- strncmp with a count above both lengths is strcmp.
pub strncmp_lem :
    (s t q r : List ℕ) (n : ℕ)
    → NoNul s
    → NoNul t
    → length s < n
    → length t < n
    → strncmp (s ++ 0 ∷ q) (t ++ 0 ∷ r) n ≡ ok (lexicographic s t)
unfolding strncmp
strncmp_lem s t q r zero hs ht a b = absurd (omega arith)
strncmp_lem [] [] q r (suc n) hs ht x y = refl
strncmp_lem [] (b ∷ t) q r (suc n) hs (ne, ht) x y = rw (ne→== 0 b (λ e. ne (sym e))) (ground arith)
strncmp_lem (a ∷ s) [] q r (suc n) (ne, hs) ht x y = rw (ne→== a 0 ne) (ground arith)
strncmp_lem (a ∷ s) (b ∷ t) q r (suc n) (na, hs) (nb, ht) x y =
    rw (strncmp_lem s t q r n hs ht (omega arith) (omega arith), ne→== a 0 na) (ground arith)
