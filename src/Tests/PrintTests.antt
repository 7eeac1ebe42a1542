-- ===== src/Tests/PrintTests.antt =====
-- klib/snprintf.c and its theorems at concrete numbers and buffers.
use jinx_os.Base.{
  ℕ, ◌-◌, ◌%◌, ◌^◌, ◌<◌, ◌≡◌, refl, some, List, [], ◌∷◌, ◌++◌, arith, length, replicate, ok,
  Returns,
}
use jinx_os.Strings.{atoi, strlen}
use jinx_os.Print.{
  SprintBuf, push_char, digit_loop, number_text, pad_loop, text_loop, snprintnum, sprintputch,
  put_all,
}
use jinx_os.Print.Format.{
  number, text, vsnprintfmt, vsnprintf, format_loop, format_step, directive, digits_of_field,
  read_field, process_precision, print_number, next_number, getuint, print_string, next_text,
  put_string, put_chars,
}
use jinx_os.Print.Directives.{unsigned_text, vsnprintfmt_lem}
use jinx_os.Print.Emission.{in_field, snprintnum_lem}
use jinx_os.Print.Digits.{Spells, IsNumeral, chars, number_text_lem}
use jinx_os.Print.RoundTrip.{collect, zeros, atoi-snprintnum}
use jinx_os.Print.Bounds.{Printed, vsnprintf_lem}

-- 255 in base 16 is "ff".
ff : number_text 255 16 ≡ ok (102 ∷ 102 ∷ [])
unfolding number_text digit_loop push_char
ff = refl

-- 42 in five places, behind zeros.
padded : snprintnum collect [] 42 10 5 48 ≡ ok (48 ∷ 48 ∷ 48 ∷ 52 ∷ 50 ∷ [])
unfolding snprintnum number_text digit_loop push_char pad_loop text_loop collect
padded = refl

snprintnum_lem_example :
    (ds : List ℕ) × IsNumeral 16 255 ds
    × (snprintnum collect [] 255 16 5 32 ≡ put_all collect (in_field (chars ds) 5 32) [])
snprintnum_lem_example =
    snprintnum_lem collect [] 255 16 5 32 (omega arith) (omega arith) (omega arith)

number_text_lem_example :
    Returns (λ t. Spells 2 (2 ^ 64 - 1) 64 t × (0 < length t)) (number_text (2 ^ 64 - 1) 2)
number_text_lem_example = number_text_lem 2 (omega arith) (omega arith) (2 ^ 64 - 1) (omega arith)

atoi-snprintnum_example :
    Returns (λ out. atoi (out ++ 0 ∷ []) ≡ ok 42) (snprintnum collect [] 42 10 5 48)
atoi-snprintnum_example = atoi-snprintnum 42 5 48 (omega arith) zeros

-- "A%uB" with 255, put through any `putch`.
abbrev fmt : List ℕ
fmt = 65 ∷ 37 ∷ 117 ∷ 66 ∷ 0 ∷ []

two_five_five : number_text 255 10 ≡ ok (50 ∷ 53 ∷ 53 ∷ [])
unfolding number_text digit_loop push_char
two_five_five = refl

put_formatted :
    (b : SprintBuf)
    → vsnprintfmt sprintputch fmt (number 255 ∷ []) b
      ≡ put_all sprintputch (65 ∷ 50 ∷ 53 ∷ 53 ∷ 66 ∷ []) b
put_formatted b =
    unsigned_text sprintputch (65 ∷ []) (66 ∷ []) [] 255 [] b (50 ∷ 53 ∷ 53 ∷ [])
      (omega arith, omega arith, tt) (omega arith, omega arith, tt) two_five_five

vsnprintfmt_lem_example :
    (ds : List ℕ) × IsNumeral 10 (255 % 2 ^ 32) ds
    × (vsnprintfmt collect fmt (number 255 ∷ []) []
        ≡ put_all collect (65 ∷ (chars ds ++ 66 ∷ [])) [])
vsnprintfmt_lem_example =
    vsnprintfmt_lem collect (65 ∷ []) (66 ∷ []) [] 255 [] [] (omega arith, omega arith, tt)
      (omega arith, omega arith, tt)

-- Five characters into three bytes at place 2 of a block of six.
vsnprintf_lem_example :
    Returns
      (Printed (replicate 6 7) 2 3 (65 ∷ 50 ∷ 53 ∷ 53 ∷ 66 ∷ []))
      (vsnprintf (replicate 6 7) 2 3 fmt (number 255 ∷ []))
vsnprintf_lem_example =
    vsnprintf_lem (replicate 6 7) 2 3 fmt (number 255 ∷ []) (65 ∷ 50 ∷ 53 ∷ 53 ∷ 66 ∷ [])
      (omega arith) (omega arith) (omega arith) (omega arith) put_formatted

-- "%-4x|" with 255, and "%s".
left_hex :
    vsnprintfmt collect (37 ∷ 45 ∷ 52 ∷ 120 ∷ 124 ∷ 0 ∷ []) (number 255 ∷ []) []
    ≡ ok (102 ∷ 102 ∷ 32 ∷ 32 ∷ 124 ∷ [])
unfolding vsnprintfmt format_loop format_step directive digits_of_field read_field process_precision
    print_number next_number getuint print_string next_text put_string put_chars strlen snprintnum
    number_text digit_loop push_char pad_loop text_loop put_all collect
left_hex = refl

string :
    vsnprintfmt collect (37 ∷ 115 ∷ 0 ∷ []) (text (some (72 ∷ 105 ∷ 0 ∷ [])) ∷ []) []
    ≡ ok (72 ∷ 105 ∷ [])
unfolding vsnprintfmt format_loop format_step directive digits_of_field read_field process_precision
    print_number next_number getuint print_string next_text put_string put_chars strlen snprintnum
    number_text digit_loop push_char pad_loop text_loop put_all collect
string = refl
