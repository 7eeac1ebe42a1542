-- ===== src/Print.antt =====
-- klib/snprintf.c: the printing of numbers, and the buffer that snprintf prints to.
pub mod Digits
pub mod Emission
pub mod RoundTrip
pub mod Bounds
pub mod Format
pub mod Directives
use jinx_os.Base.{
  ℕ, zero, suc, ◌+◌, ◌-◌, ◌/◌, ◌%◌, ◌^◌, Bool, not, ◌||◌, List, [], ◌∷◌, ltb, ◌==◌, if◌then◌else◌,
  length, set, get_elem?, Run, ok, fault, out_of_fuel, ◌>>=◌, ◌>>◌, deref,
}
use jinx_os.Kernel.{store, null, einval}

-- "0123456789abcdef"
abbrev pub hex_digits : List ℕ
hex_digits = 48 ∷ 49 ∷ 50 ∷ 51 ∷ 52 ∷ 53 ∷ 54 ∷ 55 ∷ 56 ∷ 57 ∷ 97 ∷ 98 ∷ 99 ∷ 100 ∷ 101 ∷ 102 ∷ []

-- `char buf[68]`, and `*x++ = c`: what has been written is kept with the last character first.
abbrev pub buf_size : ℕ
buf_size = 68

unfoldable pub push_char : List ℕ → ℕ → Run (List ℕ)
push_char buf c = if ltb (length buf) buf_size then ok (c ∷ buf) else fault

-- The loop over the digits. Division by 0 is undefined.
unfoldable pub digit_loop : ℕ → ℕ → ℕ → List ℕ → Run (List ℕ)
digit_loop zero num base buf = out_of_fuel
digit_loop (suc fuel) num base buf = if num == 0 then ok buf else (do
  if base == 0 then fault else ok tt
  c ← deref (get_elem? hex_digits (num % base))
  more ← push_char buf c
  digit_loop fuel (num / base) base more)

-- The digits of `num`, first to last, with the '0' of 0.
unfoldable pub number_text : ℕ → ℕ → Run (List ℕ)
number_text num base = do
  text ← digit_loop (suc (suc buf_size)) num base []
  if length text == 0 then push_char text 48 else ok text

module _ {ℓ} {S : Type ℓ} (putch : ℕ → S → Run S) where
  -- `for (; width > len; width--) putch(padc)`, with the width that is left.
  unfoldable pub pad_loop : ℕ → ℕ → ℕ → S → Run (ℕ × S)
  pad_loop zero len padc s = ok (zero, s)
  pad_loop (suc width) len padc s =
      if ltb len (suc width)
      then (do t ← putch padc s; pad_loop width len padc t)
      else ok (suc width, s)

  -- `for (; x > buf; width--) putch(*--x)`; a width below 0 counts as 0, since it is only compared.
  unfoldable pub text_loop : List ℕ → ℕ → S → Run (ℕ × S)
  text_loop [] width s = ok (width, s)
  text_loop (c ∷ text) width s = do t ← putch c s; text_loop text (width - 1) t

  -- snprintnum; 45 is '-' and 32 is ' '.
  unfoldable pub snprintnum : S → ℕ → ℕ → ℕ → ℕ → Run S
  snprintnum s num base width padc = do
    text ← number_text num base
    (left, padded) ←
        (if not (padc == 45) then pad_loop width (length text) padc s else ok (width, s))
    (rest, printed) ← text_loop text left padded
    if padc == 45 then (do (none, filled) ← pad_loop rest 0 32 printed; ok filled) else ok printed

-- struct sprintbuf: the block that it points into, with the places of `buf` and `ebuf` in it.
pub record SprintBuf : Type 0 where
  pub memory : List ℕ
  pub buf : ℕ
  pub ebuf : ℕ
  pub cnt : ℕ

unfoldable pub sprintputch : ℕ → SprintBuf → Run SprintBuf
sprintputch ch b =
    if ltb (b.cnt + 1) (2 ^ 31)
    then (if ltb b.buf b.ebuf
        then (do
          written ← store b.memory b.buf ch
          ok (record b { memory = written; buf = b.buf + 1; cnt = b.cnt + 1 }))
        else ok (record b { cnt = b.cnt + 1 }))
    else fault

-- What vsnprintfmt passes to `putch`, one character after the other.
unfoldable pub put_all {ℓ} : {S : Type ℓ} → (ℕ → S → Run S) → List ℕ → S → Run S
put_all putch [] s = ok s
put_all putch (c ∷ text) s = do t ← putch c s; put_all putch text t
