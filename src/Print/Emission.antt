-- ===== src/Print/Emission.antt =====
-- klib/snprintf.c: which characters snprintnum puts.
use jinx_os.Base.{
  ℕ, zero, suc, ◌-◌, ◌^◌, ◌<◌, ◌≤◌, ◌≡◌, refl, sym, ap, ◌∙◌, inl, inr, List, [], ◌∷◌, ◌++◌, arith,
  ltb, ltb→lt, ◌==◌, if◌then◌else◌, length, replicate, Bool-cases, Run, ok, panic, fault,
  out_of_fuel, ◌>>=◌,
}
use jinx_os.Print.Digits.{IsNumeral, chars, number_text-IsNumeral}
use jinx_os.Print.{number_text, pad_loop, text_loop, snprintnum, put_all}

pub bind_assoc {ℓ κ μ} :
    {A : Type ℓ} {B : Type κ} {C : Type μ} (m : Run A) (f : A → Run B) (g : B → Run C)
    → (m >>= f >>= g) ≡ (m >>= λ a. f a >>= g)
bind_assoc (ok a) f g = refl
bind_assoc panic f g = refl
bind_assoc fault f g = refl
bind_assoc out_of_fuel f g = refl

pub bind_ok {ℓ} : {A : Type ℓ} (m : Run A) → (m >>= λ a. ok a) ≡ m
bind_ok (ok a) = refl
bind_ok panic = refl
bind_ok fault = refl
bind_ok out_of_fuel = refl

pub bind_same {ℓ κ} :
    {A : Type ℓ} {B : Type κ} (m : Run A) {f g : A → Run B}
    → ((a : A) → f a ≡ g a)
    → (m >>= f) ≡ (m >>= g)
bind_same (ok a) h = h a
bind_same panic h = refl
bind_same fault h = refl
bind_same out_of_fuel h = refl

-- A number in a field: 45 is '-', which puts the blanks behind the number.
abbrev pub in_field : List ℕ → ℕ → ℕ → List ℕ
in_field text width padc =
    if padc == 45
    then text ++ replicate (width - length text) 32
    else replicate (width - length text) padc ++ text

-- The width that is left behind the padding.
abbrev width_left : ℕ → ℕ → ℕ
width_left zero len = zero
width_left (suc width) len = if ltb len (suc width) then width_left width len else suc width

module _ {ℓ} {S : Type ℓ} (putch : ℕ → S → Run S) where
  pub put_all-append :
      (xs ys : List ℕ) (s : S)
      → put_all putch (xs ++ ys) s ≡ (put_all putch xs s >>= put_all putch ys)
  unfolding put_all
  put_all-append [] ys s = refl
  put_all-append (x ∷ xs) ys s =
      bind_same (putch x s) (put_all-append xs ys)
      ∙ sym (bind_assoc (putch x s) (put_all putch xs) (put_all putch ys))

  text_loop_lem :
      (text : List ℕ) (width : ℕ) (s : S)
      → text_loop putch text width s ≡ (put_all putch text s >>= λ t. ok (width - length text, t))
  unfolding text_loop put_all
  text_loop_lem [] width s = ap (λ w. ok (w, s)) {x = width} {y = width - 0} (omega arith)
  text_loop_lem (c ∷ text) width s =
      bind_same (putch c s) (λ t.
        text_loop_lem text (width - 1) t
        ∙ ap (λ w. put_all putch text t >>= λ u. ok (w, u)) {x = width - 1 - length text}
            {y = width - suc (length text)} (omega arith))
      ∙ sym (bind_assoc (putch c s) (put_all putch text) (λ u. ok (width - suc (length text), u)))

  pad_loop_lem :
      (width len padc : ℕ) (s : S)
      → pad_loop putch width len padc s
        ≡ (put_all putch (replicate (width - len) padc) s >>= λ t. ok (width_left width len, t))
  unfolding pad_loop put_all
  pad_loop_lem zero len padc s = let none : 0 - len ≡ 0 = omega arith in rw none refl
  pad_loop_lem (suc width) len padc s = elim (Bool-cases (ltb len (suc width))) [
    | inl e ↦
        let more : suc width - len ≡ suc (width - len) = omega (arith, ltb→lt len (suc width) e) in
        rw (e, more)
          (bind_same (putch padc s) (pad_loop_lem width len padc)
            ∙ sym (
                bind_assoc (putch padc s) (put_all putch (replicate (width - len) padc))
                  (λ t. ok (width_left width len, t))))
    | inr e ↦ let none : suc width - len ≡ 0 = ground (arith, e) in rw (e, none) refl
  ]

  pad_end :
      (width : ℕ) (s : S)
      → (pad_loop putch width 0 32 s >>= λ q. ok q.1) ≡ put_all putch (replicate width 32) s
  pad_end width s = rw (pad_loop_lem width 0 32 s) (
      bind_assoc (put_all putch (replicate (width - 0) 32) s) (λ t. ok (width_left width 0, t))
        (λ q. ok q.1)
      ∙ bind_ok (put_all putch (replicate (width - 0) 32) s)
      ∙ ap (λ w. put_all putch (replicate w 32) s) {x = width - 0} {y = width} (omega arith))

  text_end :
      (text : List ℕ) (width : ℕ) (s : S)
      → (text_loop putch text width s >>= λ q. ok q.1) ≡ put_all putch text s
  text_end text width s = rw (text_loop_lem text width s) (
      bind_assoc (put_all putch text s) (λ t. ok (width - length text, t)) (λ q. ok q.1)
      ∙ bind_ok (put_all putch text s))

  print_left :
      (text : List ℕ) (s : S) (width : ℕ)
      → (text_loop putch text width s >>= λ r. pad_loop putch r.0 0 32 r.1 >>= λ q. ok q.1)
        ≡ put_all putch (text ++ replicate (width - length text) 32) s
  print_left text s width =
      let left = width - length text in
      rw (text_loop_lem text width s) (
        bind_assoc (put_all putch text s) (λ t. ok (left, t))
          (λ r. pad_loop putch r.0 0 32 r.1 >>= λ q. ok q.1)
        ∙ bind_same (put_all putch text s) (pad_end left)
        ∙ sym (put_all-append text (replicate left 32) s))

  print_right :
      (text : List ℕ) (s : S) (width padc : ℕ)
      → (pad_loop putch width (length text) padc s >>= λ r.
          text_loop putch text r.0 r.1 >>= λ q. ok q.1)
        ≡ put_all putch (replicate (width - length text) padc ++ text) s
  print_right text s width padc =
      let blanks = replicate (width - length text) padc in
      let left = width_left width (length text) in
      rw (pad_loop_lem width (length text) padc s) (
        bind_assoc (put_all putch blanks s) (λ t. ok (left, t))
          (λ r. text_loop putch text r.0 r.1 >>= λ q. ok q.1)
        ∙ bind_same (put_all putch blanks s) (text_end text left)
        ∙ sym (put_all-append blanks text s))

  pub snprintnum-text :
      (s : S) (num base width padc : ℕ) (text : List ℕ)
      → number_text num base ≡ ok text
      → snprintnum putch s num base width padc ≡ put_all putch (in_field text width padc) s
  unfolding snprintnum
  snprintnum-text s num base width padc text e = elim (Bool-cases (padc == 45)) [
    | inl left ↦ rw (e, left) (print_left text s width)
    | inr right ↦ rw (e, right) (print_right text s width padc)
  ]

  -- snprintnum of a number of 64 bits, in a base from 2 to 16, puts the digits of the number, the
  -- spelling in that base without zeros before it, right-aligned in the field behind `padc`s, or
  -- left-aligned before blanks where `padc` is '-', and nothing else.
  pub snprintnum_lem :
      (s : S) (num base width padc : ℕ)
      → num < 2 ^ 64
      → 2 ≤ base
      → base ≤ 16
      → (ds : List ℕ) × IsNumeral base num ds
        × (snprintnum putch s num base width padc
            ≡ put_all putch (in_field (chars ds) width padc) s)
  snprintnum_lem s num base width padc small two hex =
      let (ds, is, run) = number_text-IsNumeral base two hex num small in
      (ds, is, snprintnum-text s num base width padc (chars ds) run)
