-- ===== src/Strings.antt =====
-- klib/string.c and klib/atoi.c: NUL-terminated strings of bytes. A `char*` is the list of the bytes
-- from where it points to the end of its block; a read at the end of the list is undefined.
pub mod Length
pub mod Copy
pub mod Compare
pub mod Decimal
pub mod Build
use jinx_os.Base.{
  ℕ, zero, suc, ◌+◌, ◌-◌, ◌*◌, ◌%◌, ◌^◌, Bool, true, false, ◌||◌, Option, none, some, List, [], ◌∷◌,
  ◌==◌, if◌then◌else◌, length, Run, ok, fault, ◌>>=◌,
}
use jinx_os.Kernel.{wrap}

unfoldable pub strlen : List ℕ → Run ℕ
strlen [] = fault
strlen (c ∷ str) =
    let rest = strlen str in if c == 0 then ok 0 else (do len ← rest; ok (wrap (len + 1)))

-- strchr: the first place where `c` stands, or NULL. The NUL byte itself can be looked for.
unfoldable pub strchr : List ℕ → ℕ → Run (Option (List ℕ))
strchr [] c = fault
strchr (x ∷ s) c =
    let rest = strchr s c in if x == c then ok (some (x ∷ s)) else if x == 0 then ok none else rest

-- The digits that atoi looks a byte up in.
abbrev pub digits : List ℕ
digits = 48 ∷ 49 ∷ 50 ∷ 51 ∷ 52 ∷ 53 ∷ 54 ∷ 55 ∷ 56 ∷ 57 ∷ 0 ∷ []

-- The three parts of atoi: leading blanks, the sign, and the digits.
unfoldable pub skip_whitespace : List ℕ → Run (List ℕ)
skip_whitespace [] = fault
skip_whitespace (c ∷ s) =
    let rest = skip_whitespace s in if (c == 32) || (c == 9) then rest else ok (c ∷ s)

unfoldable pub read_sign : List ℕ → Run (Bool × List ℕ)
read_sign [] = fault
read_sign (c ∷ s) =
    if c == 45 then ok (true, s) else if c == 43 then ok (false, s) else ok (false, c ∷ s)

unfoldable pub read_digits : List ℕ → ℕ → Run ℕ
read_digits [] val = fault
read_digits (c ∷ s) val = if c == 0 then ok val else (do
  found ← strchr digits c
  elim found [
    | none ↦ ok val
    | some place ↦ read_digits s (wrap (val * 10 + (length digits - length place)))
  ])

-- atoi: the `int` that is returned, as its 32 bits.
unfoldable pub atoi : List ℕ → Run ℕ
atoi s = do
  t ← skip_whitespace s
  (neg, u) ← read_sign t
  val ← read_digits u 0
  ok (if neg then wrap (2 ^ 32 - val) else val)
