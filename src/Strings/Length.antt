-- ===== src/Strings/Length.antt =====
-- klib/string.c: strlen counts the bytes before the NUL.
use jinx_os.Base.{ℕ, ◌^◌, ◌<◌, ◌≡◌, ◌≢◌, ap, List, [], ◌∷◌, ◌++◌, arith, ne→==, length, refl, ok}
use jinx_os.Strings.{strlen}

abbrev pub NoNul : List ℕ → Type 0
NoNul [] = Unit
NoNul (c ∷ cs) = (c ≢ 0) × NoNul cs

-- strlen of a string is the number of its bytes, whatever follows its NUL.
pub strlen_lem :
    (str rest : List ℕ)
    → NoNul str
    → length str < 2 ^ 32
    → strlen (str ++ 0 ∷ rest) ≡ ok (length str)
unfolding strlen
strlen_lem [] rest n h = refl
strlen_lem (c ∷ str) rest (ne, n) h =
    rw (ne→== c 0 ne, strlen_lem str rest n (omega arith)) (ap ok (omega arith))
