-- ===== src/Print/Directives.antt =====
-- klib/snprintf.c: text is printed as it stands, and "%u" as the number.
use jinx_os.Base.{
  ℕ, suc, ◌+◌, ◌-◌, ◌%◌, ◌^◌, ◌≡◌, ◌≢◌, refl, sym, ap, ◌∙◌, Option, none, some, List, [], ◌∷◌, ◌++◌,
  arith, ne→==, length, length-append, replicate, Run, ok, ◌>>=◌,
}
use jinx_os.Print.{number_text, snprintnum, put_all}
use jinx_os.Print.Digits.{IsNumeral, chars, number_text-IsNumeral}
use jinx_os.Print.Emission.{bind_assoc, bind_same, bind_ok, put_all-append, snprintnum-text}
use jinx_os.Print.Format.{
  Arg, number, Cursor, getuint, next_number, print_number, directive, format_step, format_loop,
  vsnprintfmt,
}

-- Neither '%' nor the NUL.
abbrev pub ArePlain : List ℕ → Type 0
ArePlain [] = Unit
ArePlain (c ∷ text) = (c ≢ 37) × (c ≢ 0) × ArePlain text

module _ {ℓ} {S : Type ℓ} (putch : ℕ → S → Run S) where
  abbrev text_at : List ℕ → List Arg → S → Cursor S
  text_at fmt args s = record { mode = none; fmt = fmt; args = args; out = s }

  -- The loop behind format_step.
  abbrev after_step : ℕ → S → Option (Cursor S) → Run S
  after_step n s next = elim next [ none ↦ ok s | some d ↦ format_loop putch n d ]

  char_step :
      (c n : ℕ) (fmt : List ℕ) (args : List Arg) (s : S)
      → c ≢ 37
      → c ≢ 0
      → format_loop putch (suc n) (text_at (c ∷ fmt) args s)
        ≡ (putch c s >>= λ t. format_loop putch n (text_at fmt args t))
  unfolding format_loop format_step
  char_step c n fmt args s percent nul =
      rw (ne→== c 37 percent, ne→== c 0 nul)
        (bind_assoc (putch c s) (λ t. ok (some (text_at fmt args t))) (after_step n s))

  nul_step :
      (n : ℕ) (rest : List ℕ) (args : List Arg) (s : S)
      → format_loop putch (suc n) (text_at (0 ∷ rest) args s) ≡ ok s
  unfolding format_loop format_step
  nul_step n rest args s = refl

  plain_loop :
      (text rest : List ℕ) (args : List Arg) (k : ℕ) (s : S)
      → ArePlain text
      → format_loop putch (length text + k) (text_at (text ++ rest) args s)
        ≡ (put_all putch text s >>= λ t. format_loop putch k (text_at rest args t))
  unfolding put_all
  plain_loop [] rest args k s p =
      ap (λ n. format_loop putch n (text_at rest args s)) {x = 0 + k} {y = k} (omega arith)
  plain_loop (c ∷ text) rest args k s (percent, nul, p) =
      ap (λ n. format_loop putch n (text_at (c ∷ (text ++ rest)) args s))
        {x = suc (length text) + k} {y = suc (length text + k)} (omega arith)
      ∙ char_step c (length text + k) (text ++ rest) args s percent nul
      ∙ bind_same (putch c s) (λ t. plain_loop text rest args k t p)
      ∙ sym (
          bind_assoc (putch c s) (put_all putch text)
            (λ t. format_loop putch k (text_at rest args t)))

  unsigned_step :
      (n v : ℕ) (fmt : List ℕ) (args : List Arg) (s : S) (digits : List ℕ)
      → number_text (v % 2 ^ 32) 10 ≡ ok digits
      → format_loop putch (suc (suc n)) (text_at (37 ∷ 117 ∷ fmt) (number v ∷ args) s)
        ≡ (put_all putch digits s >>= λ t. format_loop putch n (text_at fmt args t))
  unfolding format_loop format_step directive print_number next_number getuint
  unsigned_step n v fmt args s digits e =
      let printed : snprintnum putch s (v % 2 ^ 32) 10 0 32 ≡ put_all putch digits s =
        snprintnum-text putch s (v % 2 ^ 32) 10 0 32 digits e
        ∙ ap (λ k. put_all putch (replicate k 32 ++ digits) s) {x = 0 - length digits} {y = 0}
            (omega arith) in
      let cursor : S → Cursor S = λ t. text_at fmt args t in
      rw printed (
        bind_assoc (put_all putch digits s >>= λ t. ok (cursor t)) (λ d. ok (some d))
          (after_step n s)
        ∙ bind_assoc (put_all putch digits s) (λ t. ok (cursor t))
            (λ d. ok (some d) >>= after_step n s))

  pub unsigned_text :
      (before behind rest : List ℕ) (v : ℕ) (args : List Arg) (s : S) (digits : List ℕ)
      → ArePlain before
      → ArePlain behind
      → number_text (v % 2 ^ 32) 10 ≡ ok digits
      → vsnprintfmt putch (before ++ (37 ∷ 117 ∷ (behind ++ 0 ∷ rest))) (number v ∷ args) s
        ≡ put_all putch (before ++ (digits ++ behind)) s
  unfolding vsnprintfmt
  unsigned_text before behind rest v args s digits p q e =
      let tail = behind ++ 0 ∷ rest in
      let last = suc (length rest + 1) in
      ap (λ n. format_loop putch n (text_at (before ++ (37 ∷ 117 ∷ tail)) (number v ∷ args) s))
        {x = suc (length (before ++ (37 ∷ 117 ∷ tail)))}
        {y = length before + suc (suc (length behind + last))}
        (omega (arith, length-append before (37 ∷ 117 ∷ tail), length-append behind (0 ∷ rest)))
      ∙ plain_loop before (37 ∷ 117 ∷ tail) (number v ∷ args) (suc (suc (length behind + last))) s p
      ∙ bind_same (put_all putch before s) (λ t.
        unsigned_step (length behind + last) v tail args t digits e
        ∙ bind_same (put_all putch digits t) (λ u.
          plain_loop behind (0 ∷ rest) args last u q
          ∙ bind_same (put_all putch behind u) (λ w. nul_step (length rest + 1) rest args w)
          ∙ bind_ok (put_all putch behind u))
        ∙ sym (put_all-append putch digits behind t))
      ∙ sym (put_all-append putch before (digits ++ behind) s)

  -- vsnprintfmt of plain text, "%u" and plain text up to the NUL, with a number, puts the text, the
  -- decimal digits of the number's low 32 bits, without zeros before them, and the text.
  pub vsnprintfmt_lem :
      (before behind rest : List ℕ) (v : ℕ) (args : List Arg) (s : S)
      → ArePlain before
      → ArePlain behind
      → (ds : List ℕ) × IsNumeral 10 (v % 2 ^ 32) ds
        × (vsnprintfmt putch (before ++ (37 ∷ 117 ∷ (behind ++ 0 ∷ rest))) (number v ∷ args) s
            ≡ put_all putch (before ++ (chars ds ++ behind)) s)
  vsnprintfmt_lem before behind rest v args s p q =
      let (ds, is, run) =
        number_text-IsNumeral 10 (omega arith) (omega arith) (v % 2 ^ 32) (omega arith) in
      (ds, is, unsigned_text before behind rest v args s (chars ds) p q run)
