-- ===== src/Strings/Decimal.antt =====
-- klib/atoi.c: atoi reads the decimal value of a numeral.
use native.Mathlib.Nat.{add-mul, zero-mul, mul_assoc, mul_comm, pow-suc}
use jinx_os.Base.{
  ℕ, zero, suc, ◌+◌, ◌-◌, ◌*◌, ◌^◌, ◌<◌, ◌≡◌, ◌≢◌, ◌⊎◌, inl, inr, refl, ap, ◌∙◌, none, some, List,
  [], ◌∷◌, ◌++◌, arith, ne→==, eq→==, length, drop, ok,
}
use jinx_os.Kernel.{wrap}
use jinx_os.Strings.{strchr, digits, skip_whitespace, read_sign, read_digits, atoi}

-- A numeral: its digits as numbers, and the bytes that stand for them.
abbrev pub AreDigits : List ℕ → Type 0
AreDigits [] = Unit
AreDigits (d ∷ ds) = (d < 10) × AreDigits ds

abbrev pub numeral : List ℕ → List ℕ
numeral [] = []
numeral (d ∷ ds) = (48 + d) ∷ numeral ds

-- The value of a numeral, by place.
abbrev pub value : List ℕ → ℕ
value [] = 0
value (d ∷ ds) = d * 10 ^ length ds + value ds

-- A byte that ends a numeral.
abbrev pub Ends : ℕ → Type 0
Ends c = (c < 48) ⊎ (57 < c)

abbrev pub AreBlank : List ℕ → Type 0
AreBlank [] = Unit
AreBlank (c ∷ cs) = ((c ≡ 32) ⊎ (c ≡ 9)) × AreBlank cs

-- A property of the digits, digit by digit.
pub below_ten {ℓ} :
    (P : ℕ → Type ℓ)
    → P 0
    → P 1
    → P 2
    → P 3
    → P 4
    → P 5
    → P 6
    → P 7
    → P 8
    → P 9
    → (d : ℕ) → d < 10
    → P d
below_ten P p0 p1 p2 p3 p4 p5 p6 p7 p8 p9 zero h = p0
below_ten P p0 p1 p2 p3 p4 p5 p6 p7 p8 p9 (suc zero) h = p1
below_ten P p0 p1 p2 p3 p4 p5 p6 p7 p8 p9 (suc (suc zero)) h = p2
below_ten P p0 p1 p2 p3 p4 p5 p6 p7 p8 p9 (suc (suc (suc zero))) h = p3
below_ten P p0 p1 p2 p3 p4 p5 p6 p7 p8 p9 (suc (suc (suc (suc zero)))) h = p4
below_ten P p0 p1 p2 p3 p4 p5 p6 p7 p8 p9 (suc (suc (suc (suc (suc zero))))) h = p5
below_ten P p0 p1 p2 p3 p4 p5 p6 p7 p8 p9 (suc (suc (suc (suc (suc (suc zero)))))) h = p6
below_ten P p0 p1 p2 p3 p4 p5 p6 p7 p8 p9 (suc (suc (suc (suc (suc (suc (suc zero))))))) h = p7
below_ten P p0 p1 p2 p3 p4 p5 p6 p7 p8 p9 (suc (suc (suc (suc (suc (suc (suc (suc zero)))))))) h =
    p8
below_ten P p0 p1 p2 p3 p4 p5 p6 p7 p8 p9 (suc (suc (suc (suc (suc (suc (suc (suc (suc zero)))))))))
      h =
    p9
below_ten P p0 p1 p2 p3 p4 p5 p6 p7 p8 p9
      (suc (suc (suc (suc (suc (suc (suc (suc (suc (suc n)))))))))) h =
    absurd (omega arith)

strchr_digit : (d : ℕ) → d < 10 → strchr digits (48 + d) ≡ ok (some (drop d digits))
unfolding strchr
strchr_digit d h =
    below_ten (λ d. strchr digits (48 + d) ≡ ok (some (drop d digits))) refl refl refl refl refl
      refl refl refl refl refl d h

strchr_other : (c : ℕ) → Ends c → c ≢ 0 → strchr digits c ≡ ok none
unfolding strchr
strchr_other c e ne = ground arith

length-drop-digits : (d : ℕ) → d < 10 → length digits - length (drop d digits) ≡ d
length-drop-digits d h =
    below_ten (λ d. length digits - length (drop d digits) ≡ d) refl refl refl refl refl refl refl
      refl refl refl d h

-- What read_digits makes of a numeral on top of the value read so far.
read_digits-numeral :
    (ds : List ℕ) (x acc : ℕ) (rest : List ℕ)
    → AreDigits ds
    → Ends x
    → read_digits (numeral ds ++ x ∷ rest) (wrap acc) ≡ ok (wrap (acc * 10 ^ length ds + value ds))
unfolding read_digits
read_digits-numeral [] zero acc rest a e = ap ok (omega arith)
read_digits-numeral [] (suc x) acc rest a e =
    rw (ne→== (suc x) 0 (λ i. omega arith), strchr_other (suc x) e (λ i. omega arith))
      (ap ok (omega arith))
read_digits-numeral (d ∷ ds) x acc rest (h, a) e =
    let carry : wrap (wrap acc * 10 + d) ≡ wrap (acc * 10 + d) = omega arith in
    let place : (acc * 10 + d) * 10 ^ length ds + value ds
        ≡ acc * 10 ^ suc (length ds) + (d * 10 ^ length ds + value ds) =
      omega (
        arith,
        add-mul (acc * 10) d (10 ^ length ds),
        mul_assoc acc 10 (10 ^ length ds),
        ap (λ (k : ℕ). acc * k) (pow-suc 10 (length ds)),
        ap (λ (k : ℕ). acc * k) (mul_comm 10 (10 ^ length ds)),
      ) in
    rw (ne→== (48 + d) 0 (λ i. omega arith), strchr_digit d h, length-drop-digits d h, carry)
      (read_digits-numeral ds x (acc * 10 + d) rest a e ∙ ap (λ v. ok (wrap v)) place)

read_digits-value :
    (ds : List ℕ) (x : ℕ) (rest : List ℕ)
    → AreDigits ds
    → Ends x
    → read_digits (numeral ds ++ x ∷ rest) 0 ≡ ok (wrap (value ds))
read_digits-value ds x rest a e =
    read_digits-numeral ds x 0 rest a e
    ∙ ap (λ v. ok (wrap v)) {x = 0 * 10 ^ length ds + value ds} {y = value ds}
        (omega (arith, zero-mul (10 ^ length ds)))

skip_whitespace-blanks :
    (bs : List ℕ) (c : ℕ) (s : List ℕ)
    → AreBlank bs
    → c ≢ 32
    → c ≢ 9
    → skip_whitespace (bs ++ c ∷ s) ≡ ok (c ∷ s)
unfolding skip_whitespace
skip_whitespace-blanks [] c s h a b = rw (ne→== c 32 a, ne→== c 9 b) refl
skip_whitespace-blanks (d ∷ bs) c s (h, hs) a b = elim h [
  | inl e ↦ rw (eq→== d 32 e) (skip_whitespace-blanks bs c s hs a b)
  | inr e ↦ rw (e) (skip_whitespace-blanks bs c s hs a b)
]

-- The sign before a numeral: none, `+` or `-`.
pub data Sign : Type 0 where
  absent : Sign
  plus : Sign
  minus : Sign

abbrev pub sign_bytes : Sign → List ℕ
sign_bytes absent = []
sign_bytes plus = 43 ∷ []
sign_bytes minus = 45 ∷ []

-- The 32 bits of a numeral with its sign.
abbrev pub signed : Sign → ℕ → ℕ
signed absent v = wrap v
signed plus v = wrap v
signed minus v = wrap (2 ^ 32 - wrap v)

-- atoi on blanks, an optional sign and a numeral of at least one digit, ended by a byte that is no
-- digit, returns the numeral's value with its sign, modulo 2 ^ 32, whatever follows.
pub atoi_lem :
    (blanks : List ℕ) (sign : Sign) (d : ℕ) (ds : List ℕ) (x : ℕ) (rest : List ℕ)
    → AreBlank blanks
    → AreDigits (d ∷ ds)
    → Ends x
    → atoi (blanks ++ (sign_bytes sign ++ (numeral (d ∷ ds) ++ x ∷ rest)))
      ≡ ok (signed sign (value (d ∷ ds)))
unfolding atoi read_sign
atoi_lem blanks absent d ds x rest b (h, a) e =
    rw
      (
        skip_whitespace-blanks blanks (48 + d) (numeral ds ++ x ∷ rest) b (λ i. omega arith)
            (λ i. omega arith),
        ne→== (48 + d) 45 (λ i. omega arith),
        ne→== (48 + d) 43 (λ i. omega arith),
        read_digits-value (d ∷ ds) x rest (h, a) e,
      )
      refl
atoi_lem blanks plus d ds x rest b a e =
    rw
      (
        skip_whitespace-blanks blanks 43 (numeral (d ∷ ds) ++ x ∷ rest) b (λ i. omega arith)
            (λ i. omega arith),
        read_digits-value (d ∷ ds) x rest a e,
      )
      refl
atoi_lem blanks minus d ds x rest b a e =
    rw
      (
        skip_whitespace-blanks blanks 45 (numeral (d ∷ ds) ++ x ∷ rest) b (λ i. omega arith)
            (λ i. omega arith),
        read_digits-value (d ∷ ds) x rest a e,
      )
      refl
