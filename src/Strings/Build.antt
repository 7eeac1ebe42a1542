-- ===== src/Strings/Build.antt =====
-- klib/string.c: strcat, strncat, memset and strdup, on blocks of bytes as in Strings/Copy.
use jinx_os.Base.{
  ℕ, zero, suc, ◌+◌, ◌-◌, ◌^◌, ◌≤◌, ◌<◌, ◌≡◌, refl, ap, Bool, true, List, [], ◌∷◌, ◌++◌, arith,
  ◌==◌, ne→==, if◌then◌else◌, length, drop, take, replicate, Run, ok, fault, ◌>>=◌,
}
use jinx_os.Kernel.{wrap, kmalloc_ok}
use jinx_os.Strings.{strlen}
use jinx_os.Strings.Length.{NoNul, strlen_lem}
use jinx_os.Strings.Copy.{strcpy, strcpy_lem}

unfoldable pub strcat : List ℕ → List ℕ → Run (List ℕ)
strcat dst src = do len ← strlen dst; tail ← strcpy (drop len dst) src; ok (take len dst ++ tail)

-- `*d = 0`
abbrev pub put_nul : List ℕ → Run (List ℕ)
put_nul [] = fault
put_nul (x ∷ d) = ok (0 ∷ d)

-- The do-while loop of strncat from `d` on, and the write behind it; `n` is not 0. The test has moved
-- `d` past the NUL that it copies before `break`.
unfoldable pub cat_loop : List ℕ → List ℕ → ℕ → Run (List ℕ)
cat_loop [] src n = fault
cat_loop (x ∷ d) [] n = fault
cat_loop (x ∷ d) (c ∷ src) n =
    let more = cat_loop d src (n - 1) in
    let last = put_nul d in
    do tail ← if c == 0 then last else if n == 1 then last else more; ok (c ∷ tail)

-- strncat, whose first loop finds the NUL of `dst`.
unfoldable pub strncat : List ℕ → List ℕ → ℕ → Run (List ℕ)
strncat [] src n = if n == 0 then ok [] else fault
strncat (x ∷ d) src n =
    let rest = strncat d src n in
    if n == 0
    then ok (x ∷ d)
    else if x == 0
    then cat_loop (x ∷ d) src n
    else (do tail ← rest; ok (x ∷ tail))

unfoldable pub memset : List ℕ → ℕ → ℕ → Run (List ℕ)
memset dst val zero = ok dst
memset [] val (suc count) = fault
memset (x ∷ dst) val (suc count) = do d ← memset dst val count; ok (val ∷ d)

-- strdup: what kmalloc returns is not looked at, so a refusal is a write through NULL.
unfoldable pub strdup : (ℕ → Bool) → List ℕ → Run (List ℕ)
strdup granted s = do
  len ← strlen s
  if kmalloc_ok granted (wrap (len + 1)) then ok (take len s ++ 0 ∷ []) else fault

drop-append : (s q : List ℕ) → drop (length s) (s ++ q) ≡ q
drop-append [] q = refl
drop-append (c ∷ s) q = drop-append s q

take-append : (s q : List ℕ) → take (length s) (s ++ q) ≡ s
take-append [] q = refl
take-append (c ∷ s) q = ap (λ z. c ∷ z) (take-append s q)

-- strcat of two strings, where the block has room for both, puts the second behind the first.
pub strcat_lem :
    (s t q r : List ℕ)
    → NoNul s
    → NoNul t
    → length s < 2 ^ 32
    → length t ≤ length q
    → strcat (s ++ 0 ∷ q) (t ++ 0 ∷ r) ≡ ok (s ++ (t ++ 0 ∷ drop (length t) q))
unfolding strcat
strcat_lem s t q r hs ht small room =
    rw
      (
        strlen_lem s q hs small,
        drop-append s (0 ∷ q),
        take-append s (0 ∷ q),
        strcpy_lem (0 ∷ q) t r ht (omega arith),
      )
      refl

cat_loop-overruns :
    (d t r : List ℕ) (n : ℕ)
    → NoNul t
    → length t < n
    → length d ≡ suc (length t)
    → cat_loop d (t ++ 0 ∷ r) n ≡ fault
unfolding cat_loop
cat_loop-overruns [] t r n ht long full = refl
cat_loop-overruns (x ∷ []) [] r n ht long full = refl
cat_loop-overruns (x ∷ y ∷ d) [] r n ht long full = absurd (omega (arith, full))
cat_loop-overruns (x ∷ d) (c ∷ t) r n (ne, ht) long full =
    rw
      (
        ne→== c 0 ne,
        ne→== n 1 (omega arith),
        cat_loop-overruns d t r (n - 1) ht (omega arith) (omega arith),
      )
      refl

-- Where the count is above the length of the second string and the block has just the room for both
-- strings and their NUL, strncat writes one byte past the end of the block.
pub strncat_overruns :
    (s t q r : List ℕ) (n : ℕ)
    → NoNul s
    → NoNul t
    → length t < n
    → length q ≡ length t
    → strncat (s ++ 0 ∷ q) (t ++ 0 ∷ r) n ≡ fault
unfolding strncat
strncat_overruns [] t q r n hs ht long full =
    rw (ne→== n 0 (omega arith), cat_loop-overruns (0 ∷ q) t r n ht long (omega arith)) refl
strncat_overruns (c ∷ s) t q r n (ne, hs) ht long full =
    rw (ne→== n 0 (omega arith), ne→== c 0 ne, strncat_overruns s t q r n hs ht long full) refl

-- memset fills the first bytes of a block that has them.
pub memset_lem :
    (dst : List ℕ) (val count : ℕ)
    → count ≤ length dst
    → memset dst val count ≡ ok (replicate count val ++ drop count dst)
unfolding memset
memset_lem dst val zero h = refl
memset_lem [] val (suc count) h = absurd (omega arith)
memset_lem (x ∷ dst) val (suc count) h = rw (memset_lem dst val count (omega arith)) refl

-- strdup copies a string where there is memory for it.
pub strdup_lem :
    (granted : ℕ → Bool) (s q : List ℕ)
    → NoNul s
    → length s + 1 < 2 ^ 32
    → granted (length s + 1) ≡ true
    → strdup granted (s ++ 0 ∷ q) ≡ ok (s ++ 0 ∷ [])
unfolding strdup kmalloc_ok
strdup_lem granted s q hs small given =
    let fits : wrap (length s + 1) ≡ length s + 1 = omega arith in
    rw
      (
        strlen_lem s q hs (omega arith),
        fits,
        ne→== (length s + 1) 0 (omega arith),
        given,
        take-append s (0 ∷ q),
      )
      refl
