-- ===== src/Print/RoundTrip.antt =====
-- klib/snprintf.c and klib/atoi.c: a printed number is read back.
use native.Mathlib.Nat.{zero-mul}
use jinx_os.Base.{
  ℕ, zero, suc, ◌+◌, ◌-◌, ◌*◌, ◌^◌, ◌<◌, ◌≡◌, inl, refl, sym, ap, ap₂, ◌∙◌, subst, List, [], ◌∷◌,
  ◌++◌, append_assoc, append-nil, arith, length, length-append, replicate, get_or, Run, ok, Returns,
  returns, Returns-eq,
}
use jinx_os.Kernel.{wrap}
use jinx_os.Strings.{atoi}
use jinx_os.Strings.Decimal.{AreDigits, numeral, value, Ends, AreBlank, below_ten, absent, atoi_lem}
use jinx_os.Print.{hex_digits, snprintnum, put_all}
use jinx_os.Print.Digits.{AreBelow, value_in, chars, length-chars, number_text_lem}
use jinx_os.Print.Emission.{in_field, snprintnum-text}

-- A `putch` that collects what is put.
unfoldable pub collect : ℕ → List ℕ → Run (List ℕ)
collect ch out = ok (out ++ ch ∷ [])

put_all-collect : (text out : List ℕ) → put_all collect text out ≡ ok (out ++ text)
unfolding put_all collect
put_all-collect [] out = ap ok (sym (append-nil out))
put_all-collect (c ∷ text) out =
    put_all-collect text (out ++ c ∷ []) ∙ ap ok (append_assoc out (c ∷ []) text)

chars-numeral : (ds : List ℕ) → AreBelow 10 ds → chars ds ≡ numeral ds
chars-numeral [] b = refl
chars-numeral (d ∷ ds) (h, b) =
    ap₂ ◌∷◌
      (below_ten (λ d. get_or hex_digits d 0 ≡ 48 + d) refl refl refl refl refl refl refl refl refl
        refl d h)
      (chars-numeral ds b)

value_in-value : (ds : List ℕ) → value_in 10 ds ≡ value ds
value_in-value [] = refl
value_in-value (d ∷ ds) = ap (λ v. d * 10 ^ length ds + v) (value_in-value ds)

AreBelow-AreDigits : (ds : List ℕ) → AreBelow 10 ds → AreDigits ds
AreBelow-AreDigits [] b = tt
AreBelow-AreDigits (d ∷ ds) (h, b) = (h, AreBelow-AreDigits ds b)

-- Blanks before, and zeros before, change nothing of what is read.
blanks-AreBlank : (k : ℕ) → AreBlank (replicate k 32)
blanks-AreBlank zero = tt
blanks-AreBlank (suc k) = (inl refl, blanks-AreBlank k)

zeros-AreDigits : (k : ℕ) (ds : List ℕ) → AreDigits ds → AreDigits (replicate k 0 ++ ds)
zeros-AreDigits zero ds a = a
zeros-AreDigits (suc k) ds a = (omega arith, zeros-AreDigits k ds a)

zeros-numeral : (k : ℕ) (ds : List ℕ) → replicate k 48 ++ numeral ds ≡ numeral (replicate k 0 ++ ds)
zeros-numeral zero ds = refl
zeros-numeral (suc k) ds = ap (λ l. 48 ∷ l) (zeros-numeral k ds)

value-zeros : (k : ℕ) (ds : List ℕ) → value (replicate k 0 ++ ds) ≡ value ds
value-zeros zero ds = refl
value-zeros (suc k) ds =
    omega (arith, value-zeros k ds, zero-mul (10 ^ length (replicate k 0 ++ ds)))

-- atoi of a numeral behind blanks, before a byte that ends it.
read_numeral :
    (blanks ds : List ℕ) (x : ℕ) (rest : List ℕ)
    → AreBlank blanks
    → AreDigits ds
    → 0 < length ds
    → Ends x
    → value ds < 2 ^ 32
    → atoi (blanks ++ (numeral ds ++ x ∷ rest)) ≡ ok (value ds)
read_numeral blanks [] x rest b a some_digit e small = absurd (omega arith)
read_numeral blanks (d ∷ ds) x rest b a some_digit e small =
    atoi_lem blanks absent d ds x rest b a e
    ∙ ap ok {x = wrap (value (d ∷ ds))} {y = value (d ∷ ds)} (omega (arith, small))

-- The paddings of a number: blanks before it, zeros before it, or blanks behind it.
pub data IsPadding : ℕ → Type 0 where
  blanks : IsPadding 32
  zeros : IsPadding 48
  behind : IsPadding 45

read_before_blanks :
    (k : ℕ) (ds : List ℕ)
    → AreDigits ds
    → 0 < length ds
    → value ds < 2 ^ 32
    → atoi (numeral ds ++ (replicate k 32 ++ 0 ∷ [])) ≡ ok (value ds)
read_before_blanks zero ds a some_digit small =
    read_numeral [] ds 0 [] tt a some_digit (inl (omega arith)) small
read_before_blanks (suc k) ds a some_digit small =
    read_numeral [] ds 32 (replicate k 32 ++ 0 ∷ []) tt a some_digit (inl (omega arith)) small

field_read :
    (ds : List ℕ) (width padc : ℕ)
    → AreDigits ds
    → 0 < length ds
    → value ds < 2 ^ 32
    → IsPadding padc
    → atoi (in_field (numeral ds) width padc ++ 0 ∷ []) ≡ ok (value ds)
field_read ds width padc a some_digit small blanks =
    let k = width - length (numeral ds) in
    rw (append_assoc (replicate k 32) (numeral ds) (0 ∷ [])) (
      read_numeral (replicate k 32) ds 0 [] (blanks-AreBlank k) a some_digit (inl (omega arith))
        small)
field_read ds width padc a some_digit small zeros =
    let k = width - length (numeral ds) in
    rw (zeros-numeral k ds) (
      read_numeral [] (replicate k 0 ++ ds) 0 [] tt (zeros-AreDigits k ds a)
        (omega (arith, some_digit, length-append (replicate k 0) ds)) (inl (omega arith))
        (omega (arith, small, value-zeros k ds))
      ∙ ap ok (value-zeros k ds))
field_read ds width padc a some_digit small behind =
    let k = width - length (numeral ds) in
    rw (append_assoc (numeral ds) (replicate k 32) (0 ∷ []))
      (read_before_blanks k ds a some_digit small)

-- snprintf's number printing into a buffer of its own, and atoi on what it wrote, ended by a NUL: for
-- every number of 32 bits, every width, and blanks or zeros as padding on either side, both return
-- and the number comes back.
pub atoi-snprintnum :
    (num width padc : ℕ)
    → num < 2 ^ 32
    → IsPadding padc
    → Returns (λ out. atoi (out ++ 0 ∷ []) ≡ ok num) (snprintnum collect [] num 10 width padc)
atoi-snprintnum num width padc small padding =
    let (text, made, (x, some_text)) =
      Returns-eq (number_text_lem 10 (omega arith) (omega arith) num (omega arith)) in
    let is : text ≡ numeral x.ds = x.text_is ∙ chars-numeral x.ds x.below in
    let worth : value x.ds ≡ num = sym (value_in-value x.ds) ∙ x.value_is in
    let run : snprintnum collect [] num 10 width padc ≡ ok (in_field text width padc) =
      snprintnum-text collect [] num 10 width padc text made
      ∙ put_all-collect (in_field text width padc) [] in
    let read : atoi (in_field (numeral x.ds) width padc ++ 0 ∷ []) ≡ ok (value x.ds) =
      field_read x.ds width padc (AreBelow-AreDigits x.ds x.below)
        (omega (arith, some_text, ap length x.text_is, length-chars x.ds)) (omega (arith, worth))
        padding in
    subst (Returns (λ out. atoi (out ++ 0 ∷ []) ≡ ok num)) (sym run)
      (returns (ap (λ t. atoi (in_field t width padc ++ 0 ∷ [])) is ∙ read ∙ ap ok worth))
