-- ===== src/Strings/Copy.antt =====
-- klib/string.c: strcpy and strncpy. The destination is the list of the bytes from where `dst`
-- points to the end of its block; a write at the end of the list is undefined.
use jinx_os.Base.{
  ℕ, zero, suc, ◌+◌, ◌-◌, ◌^◌, ◌≤◌, ◌<◌, ◌≡◌, refl, ap, ◌∙◌, List, [], ◌∷◌, ◌++◌, arith, ◌==◌,
  ne→==, if◌then◌else◌, length, drop, replicate, Run, ok, fault, ◌>>=◌,
}
use jinx_os.Kernel.{wrap}
use jinx_os.Strings.Length.{NoNul}

unfoldable pub strcpy : List ℕ → List ℕ → Run (List ℕ)
strcpy dst [] = fault
strcpy [] (c ∷ src) = fault
strcpy (x ∷ dst) (c ∷ src) =
    let rest = strcpy dst src in if c == 0 then ok (c ∷ dst) else (do d ← rest; ok (c ∷ d))

-- The second loop of strncpy: `n` zeros.
unfoldable pub pad : ℕ → List ℕ → Run (List ℕ)
pad zero dst = ok dst
pad (suc n) [] = fault
pad (suc n) (x ∷ dst) = do d ← pad n dst; ok (0 ∷ d)

-- strncpy. The first loop's `n--` takes effect also where its test ends the loop: at a count of 0 it
-- leaves 2 ^ 32 - 1, and at the NUL of `src` one less than the bytes left.
unfoldable pub strncpy : List ℕ → List ℕ → ℕ → Run (List ℕ)
strncpy dst src zero = pad (wrap (0 + 2 ^ 32 - 1)) dst
strncpy dst [] (suc n) = fault
strncpy [] (c ∷ src) (suc n) = if c == 0 then pad n [] else fault
strncpy (x ∷ dst) (c ∷ src) (suc n) =
    let rest = strncpy dst src n in if c == 0 then pad n (x ∷ dst) else (do d ← rest; ok (c ∷ d))

-- strcpy of a string into a block with room for it and its NUL copies both, and keeps the bytes of
-- the block behind them.
pub strcpy_lem :
    (dst src rest : List ℕ)
    → NoNul src
    → length src < length dst
    → strcpy dst (src ++ 0 ∷ rest) ≡ ok (src ++ 0 ∷ drop (suc (length src)) dst)
unfolding strcpy
strcpy_lem [] src rest n h = absurd (omega arith)
strcpy_lem (x ∷ dst) [] rest n h = refl
strcpy_lem (x ∷ dst) (c ∷ src) rest (ne, n) h =
    rw (ne→== c 0 ne, strcpy_lem dst src rest n (omega arith)) refl

pad_short : (n : ℕ) (dst : List ℕ) → length dst < n → pad n dst ≡ fault
unfolding pad
pad_short zero dst h = absurd (omega arith)
pad_short (suc n) [] h = refl
pad_short (suc n) (x ∷ dst) h = rw (pad_short n dst (omega arith)) refl

pad_room : (n : ℕ) (dst : List ℕ) → n ≤ length dst → pad n dst ≡ ok (replicate n 0 ++ drop n dst)
unfolding pad
pad_room zero dst h = refl
pad_room (suc n) [] h = absurd (omega arith)
pad_room (suc n) (x ∷ dst) h = rw (pad_room n dst (omega arith)) refl

-- Where the string is at least as long as the count, and the block ends within 2 ^ 32 - 1 bytes
-- behind the counted ones, strncpy writes past the end of the block.
pub strncpy_overruns :
    (dst src rest : List ℕ) (n : ℕ)
    → NoNul src
    → n ≤ length src
    → length dst < n + (2 ^ 32 - 1)
    → strncpy dst (src ++ 0 ∷ rest) n ≡ fault
unfolding strncpy
strncpy_overruns dst src rest zero nn h k = pad_short 4294967295 dst (omega arith)
strncpy_overruns dst [] rest (suc n) nn h k = absurd (omega arith)
strncpy_overruns [] (c ∷ src) rest (suc n) (ne, nn) h k = rw (ne→== c 0 ne) refl
strncpy_overruns (x ∷ dst) (c ∷ src) rest (suc n) (ne, nn) h k =
    rw (ne→== c 0 ne, strncpy_overruns dst src rest n nn (omega arith) (omega arith)) refl

-- Where the string is shorter than the count, and the block has room for all bytes of the count but
-- one, strncpy copies the string and pads with zeros, and leaves the last byte of the count as it
-- was: a string of one byte less than the count gets no NUL.
pub strncpy_short :
    (dst src rest : List ℕ) (n : ℕ)
    → NoNul src
    → length src ≤ n
    → n ≤ length dst
    → strncpy dst (src ++ 0 ∷ rest) (suc n) ≡ ok (src ++ replicate (n - length src) 0 ++ drop n dst)
unfolding strncpy
strncpy_short [] [] rest n nn h k =
    pad_room n [] k ∙ ap (λ m. ok (replicate m 0 ++ drop n [])) {x = n} {y = n - 0} (omega arith)
strncpy_short (x ∷ dst) [] rest n nn h k =
    pad_room n (x ∷ dst) k
    ∙ ap (λ m. ok (replicate m 0 ++ drop n (x ∷ dst))) {x = n} {y = n - 0} (omega arith)
strncpy_short [] (c ∷ src) rest n nn h k = absurd (omega arith)
strncpy_short (x ∷ dst) (c ∷ src) rest zero (ne, nn) h k = absurd (omega arith)
strncpy_short (x ∷ dst) (c ∷ src) rest (suc n) (ne, nn) h k =
    rw (ne→== c 0 ne, strncpy_short dst src rest n nn (omega arith) (omega arith))
      (ap (λ m. ok (c ∷ (src ++ replicate m 0 ++ drop n dst))) {x = n - length src}
        {y = suc n - suc (length src)} (omega arith))
