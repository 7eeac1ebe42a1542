-- ===== src/Print/Format.antt =====
-- klib/snprintf.c: vsnprintfmt. A width or precision below 0 is `none`: the code only asks whether it
-- is, and never tells one negative number from another.
use jinx_os.Base.{
  ℕ, zero, suc, ◌+◌, ◌-◌, ◌*◌, ◌%◌, ◌^◌, Bool, true, false, not, ◌&&◌, ◌||◌, Option, none, some,
  List, [], ◌∷◌, ◌++◌, ltb, leb, ◌==◌, if◌then◌else◌, length, replicate, Run, ok, fault,
  out_of_fuel, ◌>>=◌,
}
use jinx_os.Strings.{strlen}
use jinx_os.Kernel.{store, null, einval}
use jinx_os.Print.{sprintputch, snprintnum, put_all}

-- What va_arg finds: the 64 bits from the argument's place on, or a string or NULL.
pub data Arg : Type 0 where
  number : ℕ → Arg
  text : Option (List ℕ) → Arg

-- The locals that a directive sets.
pub record Spec : Type 0 where
  pub padc : ℕ
  pub width : Option ℕ
  pub precision : Option ℕ
  pub lflag : ℕ
  pub altflag : Bool

abbrev pub no_spec : Spec
no_spec = record { padc = 32; width = none; precision = none; lflag = 0; altflag = false }

-- `for (precision = 0;; ++fmt)`: the digits of a field.
unfoldable pub read_field : ℕ → ℕ → List ℕ → Run (ℕ × List ℕ)
read_field precision ch [] = fault
read_field precision ch (next ∷ fmt) =
    let value = precision * 10 + (ch - 48) in
    let rest = read_field value next fmt in
    if not (ltb value (2 ^ 31))
    then fault
    else if ltb next 48 || ltb 57 next
    then ok (value, next ∷ fmt)
    else rest

-- process_precision
unfoldable pub process_precision : Spec → Spec
process_precision spec = elim (spec.width) [
  | none ↦ record spec { width = spec.precision; precision = none }
  | some w ↦ spec
]

-- getuint, and getint with its sign.
unfoldable pub getuint : ℕ → ℕ → ℕ
getuint lflag v = if ltb 1 lflag then v % 2 ^ 64 else v % 2 ^ 32

unfoldable pub getint : ℕ → ℕ → Bool × ℕ
getint lflag v =
    let bits = if ltb 1 lflag then 2 ^ 64 else 2 ^ 32 in
    let n = v % bits in if ltb (n * 2) bits then (false, n) else (true, bits - n)

unfoldable pub next_number : List Arg → Run (ℕ × List Arg)
next_number [] = fault
next_number (number v ∷ args) = ok (v, args)
next_number (text s ∷ args) = fault

unfoldable pub next_text : List Arg → Run (List ℕ × List Arg)
next_text [] = fault
next_text (number v ∷ args) = fault
next_text (text none ∷ args) = ok (40 ∷ 110 ∷ 117 ∷ 108 ∷ 108 ∷ 41 ∷ 0 ∷ [], args)
next_text (text (some s) ∷ args) = ok (s, args)

-- MAX(width, 0)
abbrev pub width_or_zero : Option ℕ → ℕ
width_or_zero none = 0
width_or_zero (some w) = w

-- A place in the format: in text, or in a directive.
pub record Cursor {ℓ} (S : Type ℓ) : Type ℓ where
  pub mode : Option Spec
  pub fmt : List ℕ
  pub args : List Arg
  pub out : S

module _ {ℓ} {S : Type ℓ} (putch : ℕ → S → Run S) where
  -- The characters of a string argument, and the width that is left.
  unfoldable pub put_chars : List ℕ → Option ℕ → Bool → ℕ → S → Run (ℕ × S)
  put_chars [] precision altflag width s = fault
  put_chars (ch ∷ p) precision altflag width s = if ch == 0 then ok (width, s) else elim precision [
    | some zero ↦ ok (width, s)
    | some (suc left) ↦ do
      t ← putch (if altflag && (ltb ch 32 || ltb 126 ch) then 63 else ch) s
      put_chars p (some left) altflag (width - 1) t
    | none ↦ do
      t ← putch (if altflag && (ltb ch 32 || ltb 126 ch) then 63 else ch) s
      put_chars p none altflag (width - 1) t
  ]

  unfoldable pub put_string : Spec → List ℕ → S → Run S
  put_string spec p s = do
    let width = width_or_zero spec.width
    let left = ltb 0 width && not (spec.padc == 45)
    len ← (if left then strlen p else ok 0)
    padded ← put_all putch (if left then replicate (width - len) spec.padc else []) s
    (rest, done) ← put_chars p spec.precision spec.altflag (if left then 0 else width) padded
    put_all putch (replicate rest 32) done

  -- A step of a directive that prints nothing, and one that ends it.
  abbrev on_with : Cursor S → Spec → Run (Cursor S)
  on_with c spec = ok (record c { mode = some spec })

  abbrev ends_with : Cursor S → List Arg → Run S → Run (Cursor S)
  ends_with c args printed = do s ← printed; ok (record c { mode = none; args = args; out = s })

  -- `number:` for an unsigned argument, and for 'b' and 'd', which read an int.
  unfoldable pub print_number : Cursor S → Spec → ℕ → Run (Cursor S)
  print_number c spec base = do
    (v, args) ← next_number c.args
    ends_with c args
        (snprintnum putch c.out (getuint spec.lflag v) base (width_or_zero spec.width) spec.padc)

  unfoldable pub print_binary : Cursor S → Spec → Run (Cursor S)
  print_binary c spec = do
    (v, args) ← next_number c.args
    let (negative, n) = getint spec.lflag v
    ends_with c args (
        snprintnum putch c.out (if negative then 2 ^ 64 - n else n) 2 (width_or_zero spec.width)
          spec.padc)

  unfoldable pub print_decimal : Cursor S → Spec → Run (Cursor S)
  print_decimal c spec = do
    (v, args) ← next_number c.args
    let (negative, n) = getint spec.lflag v
    s ← (if negative then putch 45 c.out else ok c.out)
    ends_with c args (snprintnum putch s n 10 (width_or_zero spec.width) spec.padc)

  unfoldable pub print_pointer : Cursor S → Spec → Run (Cursor S)
  print_pointer c spec = do
    s ← put_all putch (48 ∷ 120 ∷ []) c.out
    (v, args) ← next_number c.args
    ends_with c args (snprintnum putch s (v % 2 ^ 32) 16 (width_or_zero spec.width) spec.padc)

  -- `putch` keeps the low 8 bits.
  unfoldable pub print_char : Cursor S → Run (Cursor S)
  print_char c = do (v, args) ← next_number c.args; ends_with c args (putch (v % 2 ^ 8) c.out)

  unfoldable pub print_string : Cursor S → Spec → Run (Cursor S)
  print_string c spec = do (p, args) ← next_text c.args; ends_with c args (put_string spec p c.out)

  -- '*'; an int argument at or above 2 ^ 31 is negative.
  unfoldable pub star : Cursor S → Spec → Run (Cursor S)
  star c spec = do
    (v, args) ← next_number c.args
    let n = v % 2 ^ 32
    let given : Option ℕ = if ltb n (2 ^ 31) then some n else none
    on_with (record c { args = args }) (process_precision (record spec { precision = given }))

  unfoldable pub digits_of_field : Cursor S → Spec → ℕ → Run (Cursor S)
  digits_of_field c spec ch = do
    (value, fmt) ← read_field 0 ch c.fmt
    on_with (record c { fmt = fmt }) (process_precision (record spec { precision = some value }))

  -- The switch, on the character `ch` that has been read.
  unfoldable pub directive : Cursor S → Spec → ℕ → Run (Cursor S)
  directive c spec ch =
      if ch == 45
      then on_with c (record spec { padc = 45 })
      else if ch == 48
      then on_with c (record spec { padc = 48 })
      else if leb 49 ch && leb ch 57
      then digits_of_field c spec ch
      else if ch == 42
      then star c spec
      else if ch == 46
      then on_with c (record spec { width = some (width_or_zero spec.width) })
      else if ch == 35
      then on_with c (record spec { altflag = true })
      else if ch == 108
      then on_with c (record spec { lflag = spec.lflag + 1 })
      else if ch == 122
      then on_with c (record spec { lflag = 1 })
      else if ch == 99
      then print_char c
      else if ch == 115
      then print_string c spec
      else if ch == 98
      then print_binary c spec
      else if ch == 100
      then print_decimal c spec
      else if ch == 117
      then print_number c spec 10
      else if ch == 111
      then print_number c spec 8
      else if ch == 112
      then print_pointer c spec
      else if ch == 120
      then print_number c spec 16
      else if ch == 37
      then ends_with c c.args (putch ch c.out)
      else ends_with c c.args (put_all putch (37 ∷ (replicate spec.lflag 108 ++ ch ∷ [])) c.out)

  -- A character of the format; `none` is the return at the NUL.
  unfoldable pub format_step : Cursor S → Option Spec → ℕ → Run (Option (Cursor S))
  format_step c (some spec) ch = do next ← directive c spec ch; ok (some next)
  format_step c none ch =
      if ch == 37
      then ok (some (record c { mode = some no_spec }))
      else if ch == 0
      then ok none
      else (do s ← putch ch c.out; ok (some (record c { out = s })))

  unfoldable pub format_loop : ℕ → Cursor S → Run S
  format_loop zero c = out_of_fuel
  format_loop (suc fuel) c = elim (c.fmt) [
    | [] ↦ fault
    | ch ∷ fmt ↦ do
      next ← format_step (record c { fmt = fmt }) c.mode ch
      elim next [ none ↦ ok c.out | some d ↦ format_loop fuel d ]
  ]

  -- Every round takes a character of the format at least.
  unfoldable pub vsnprintfmt : List ℕ → List Arg → S → Run S
  vsnprintfmt fmt args s =
      format_loop (suc (length fmt)) (record { mode = none; fmt = fmt; args = args; out = s })

-- vsnprintf to the place `buf` of a block: what it returns, and the block. A NULL buffer is at 0.
unfoldable pub vsnprintf : List ℕ → ℕ → ℕ → List ℕ → List Arg → Run (ℕ × List ℕ)
vsnprintf memory buf n fmt args = if (buf == null) || ltb n 1 then ok (einval, memory) else (do
  b ←
      vsnprintfmt sprintputch fmt args
        (record { memory = memory; buf = buf; ebuf = buf + n - 1; cnt = 0 })
  ended ← store b.memory b.buf 0
  ok (b.cnt, ended))
