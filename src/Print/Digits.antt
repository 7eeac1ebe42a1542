-- ===== src/Print/Digits.antt =====
-- klib/snprintf.c: the digits of a number.
use native.Mathlib.Nat.{
  add-mul, zero-mul, mul_assoc, mul_comm, pow-suc, pow-zero, mul-one, mod-lt, mul-le-mul_right,
}
use native.Mathlib.Omega.{div_any}
use jinx_os.Base.{
  ℕ, zero, suc, false, ◌+◌, ◌*◌, ◌/◌, ◌%◌, ◌^◌, ◌≤◌, ◌<◌, ◌≡◌, refl, sym, ap, ◌∙◌, inl, inr, List,
  [], ◌∷◌, arith, lt→ltb, ◌==◌, ==→eq, ne→==, if◌then◌else◌, length, get_or, get_elem?-get_or,
  Bool-cases, ok, Returns, returns, Returns-mono, Returns-bind, Returns-eq, subst,
}
use jinx_os.Print.{hex_digits, buf_size, push_char, digit_loop, number_text}

abbrev pub AreBelow : ℕ → List ℕ → Type 0
AreBelow base [] = Unit
AreBelow base (d ∷ ds) = (d < base) × AreBelow base ds

abbrev pub value_in : ℕ → List ℕ → ℕ
value_in base [] = 0
value_in base (d ∷ ds) = d * base ^ length ds + value_in base ds

abbrev pub chars : List ℕ → List ℕ
chars [] = []
chars (d ∷ ds) = get_or hex_digits d 0 ∷ chars ds

pub length-chars : (ds : List ℕ) → length (chars ds) ≡ length ds
length-chars [] = refl
length-chars (d ∷ ds) = ap suc (length-chars ds)

-- No digit, or one other than 0 first.
abbrev pub Tops : List ℕ → Type 0
Tops [] = Unit
Tops (d ∷ ds) = 0 < d

-- The digits of `n` in `base`, of which there is one such list only: no 0 stands before others.
pub record IsNumeral (base n : ℕ) (ds : List ℕ) : Type 0 where
  pub below : AreBelow base ds
  pub value_is : value_in base ds ≡ n
  pub some_digit : 0 < length ds
  pub leads : 1 < length ds → Tops ds

-- The digits `ds` stand for `n`, in at most `most` places.
pub record Spells (base n most : ℕ) (text : List ℕ) : Type 0 where
  pub ds : List ℕ
  pub text_is : text ≡ chars ds
  pub below : AreBelow base ds
  pub value_is : value_in base ds ≡ n
  pub short : length ds ≤ most
  pub leads : 1 < length ds → Tops ds

shrinks : (n base k : ℕ) → 2 ≤ base → n < 2 ^ suc k → n / base < 2 ^ k
shrinks n base k two h =
    omega (arith, div_any n base, mul-le-mul_right (n / base) two, pow-suc 2 k, mul_comm (2 ^ k) 2)

lt-of : (n : ℕ) → (n == 0) ≡ false → 0 < n
lt-of n e = ground (arith, e)

-- The last digit that the loop finds is not 0.
last_digit : (n base : ℕ) → 2 ≤ base → (n == 0) ≡ false → n / base ≡ 0 → 0 < n % base
last_digit n base two some_left none = omega (
  arith,
  div_any n base,
  ap (λ q. base * q) none,
  mul_comm base 0,
  zero-mul base,
  lt-of n some_left,
)

-- The next digit, in front of those that are there.
digit_value :
    (n base : ℕ) (ds : List ℕ)
    → (n / base) * base ^ suc (length ds) + value_in base ((n % base) ∷ ds)
      ≡ n * base ^ length ds + value_in base ds
digit_value n base ds =
    let p = base ^ length ds in
    let q = n / base in
    omega (
      arith,
      add-mul (base * q) (n % base) p,
      ap (λ x. x * p) (div_any n base),
      ap (λ x. q * x) (pow-suc base (length ds)),
      ap (λ x. q * x) (mul_comm p base),
      mul_assoc q base p,
      ap (λ x. x * p) (mul_comm q base),
    )

spelled :
    {base : ℕ} (n k : ℕ) (ds : List ℕ)
    → AreBelow base ds
    → Tops ds
    → n ≡ 0
    → Spells base (n * base ^ length ds + value_in base ds) (k + length ds) (chars ds)
spelled {base} n k ds b top none = record {
  ds = ds;
  text_is = refl;
  below = b;
  value_is = omega (arith, ap (λ x. x * base ^ length ds) none, zero-mul (base ^ length ds));
  short = omega arith;
  leads = λ many. top;
}

no_chars : (ds : List ℕ) → [] ≡ chars ds → ds ≡ []
no_chars [] e = refl
no_chars (d ∷ ds) e = absurd (cc e)

module _ (base : ℕ) (two : 2 ≤ base) (hex : base ≤ 16) where
  digit_loop_round :
      (fuel n : ℕ) (ds : List ℕ)
      → (n == 0) ≡ false
      → length ds < buf_size
      → digit_loop (suc fuel) n base (chars ds)
        ≡ digit_loop fuel (n / base) base (chars ((n % base) ∷ ds))
  unfolding digit_loop push_char
  digit_loop_round fuel n ds some_left room =
      rw
        (
          some_left,
          ne→== base 0 (λ e. omega (arith, two)),
          get_elem?-get_or hex_digits (n % base) 0
              (omega (arith, hex, mod-lt n {m = base} (omega (arith, two)))),
          lt→ltb (length (chars ds)) buf_size (omega (arith, length-chars ds, room)),
        )
        refl

  digit_loop_end : (fuel n : ℕ) (buf : List ℕ) → n ≡ 0 → digit_loop (suc fuel) n base buf ≡ ok buf
  unfolding digit_loop
  digit_loop_end fuel n buf e = rw e refl

  digit_loop_lem :
      (k fuel n : ℕ) (ds : List ℕ)
      → k < fuel
      → n < 2 ^ k
      → k + length ds ≤ buf_size
      → AreBelow base ds
      → (n ≡ 0 → Tops ds)
      → Returns
          (Spells base (n * base ^ length ds + value_in base ds) (k + length ds))
          (digit_loop fuel n base (chars ds))
  digit_loop_lem k zero n ds f h room b top = absurd (omega arith)
  digit_loop_lem zero (suc fuel) n ds f h room b top =
      let none : n ≡ 0 = omega arith in
      subst (Returns (Spells base (n * base ^ length ds + value_in base ds) (zero + length ds)))
        (sym (digit_loop_end fuel n (chars ds) none))
        (returns (spelled n zero ds b (top none) none))
  digit_loop_lem (suc k) (suc fuel) n ds f h room b top = elim (Bool-cases (n == 0)) [
    | inl e ↦
        let none = ==→eq n 0 e in
        subst (Returns (Spells base (n * base ^ length ds + value_in base ds) (suc k + length ds)))
          (sym (digit_loop_end fuel n (chars ds) none))
          (returns (spelled n (suc k) ds b (top none) none))
    | inr e ↦
        subst (Returns (Spells base (n * base ^ length ds + value_in base ds) (suc k + length ds)))
          (sym (digit_loop_round fuel n ds e (omega (arith, room))))
          (Returns-mono
            (digit_loop_lem k fuel (n / base) ((n % base) ∷ ds) (omega (arith, f))
              (shrinks n base k two h) (omega (arith, room))
              (mod-lt n {m = base} (omega (arith, two)), b) (last_digit n base two e))
            (λ text x. record {
              ds = x.ds;
              text_is = x.text_is;
              below = x.below;
              value_is = x.value_is ∙ digit_value n base ds;
              short = omega (arith, x.short);
              leads = x.leads;
            }))
  ]

  zero_text :
      (num : ℕ) (text : List ℕ)
      → Spells base num 64 text
      → Returns
          (λ t. Spells base num 64 t × (0 < length t))
          (if length text == 0 then push_char text 48 else ok text)
  unfolding push_char
  zero_text num [] x =
      let empty = no_chars x.ds x.text_is in
      let none : num ≡ 0 = sym x.value_is ∙ ap (value_in base) empty in
      returns (
        record {
          ds = 0 ∷ [];
          text_is = refl;
          below = (omega (arith, two), tt);
          value_is = omega (arith, none, zero-mul (base ^ 0));
          short = omega arith;
          leads = λ many. absurd (omega (arith, many));
        },
        omega arith,
      )
  zero_text num (c ∷ text) x =
      let some_digit : (suc (length text) == 0) ≡ false = ground arith in
      rw some_digit (returns (x, omega arith))

  -- number_text ends within its buffer, for every number of 64 bits in every base from 2 to 16, with
  -- one digit at least, and with digits that stand for the number.
  pub number_text_lem :
      (num : ℕ)
      → num < 2 ^ 64
      → Returns (λ t. Spells base num 64 t × (0 < length t)) (number_text num base)
  unfolding number_text
  number_text_lem num h =
      Returns-bind (digit_loop_lem 64 70 num [] (omega arith) h (omega arith) tt (λ e. tt))
        (λ text x. zero_text num text (record {
          ds = x.ds;
          text_is = x.text_is;
          below = x.below;
          value_is = x.value_is ∙ omega (arith, ap (λ y. num * y) (pow-zero base), mul-one num);
          short = omega (arith, x.short);
          leads = x.leads;
        }))

  -- The same, as the one spelling of the number.
  pub number_text-IsNumeral :
      (num : ℕ)
      → num < 2 ^ 64
      → (ds : List ℕ) × IsNumeral base num ds × (number_text num base ≡ ok (chars ds))
  number_text-IsNumeral num h =
      let (text, run, (x, some_text)) = Returns-eq (number_text_lem num h) in
      (
        x.ds,
        record {
          below = x.below;
          value_is = x.value_is;
          some_digit = omega (arith, some_text, ap length x.text_is, length-chars x.ds);
          leads = x.leads;
        },
        run ∙ ap ok x.text_is,
      )
