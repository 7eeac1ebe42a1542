-- ===== src/Tests/StringTests.antt =====
-- klib/string.c and klib/atoi.c on short strings.
use jinx_os.Base.{ℕ, ◌≡◌, inl, refl, List, [], ◌∷◌, fault, arith, ok}
use jinx_os.Strings.{strlen, strchr, skip_whitespace, read_sign, read_digits, atoi}
use jinx_os.Strings.Copy.{strcpy, strncpy, strncpy_overruns}
use jinx_os.Strings.Compare.{memcmp}
use jinx_os.Strings.Decimal.{minus, atoi_lem, signed, value}

-- " -42!"
abbrev text : List ℕ
text = 32 ∷ 45 ∷ 52 ∷ 50 ∷ 33 ∷ 0 ∷ []

strlen-text : strlen text ≡ ok 5
unfolding strlen
strlen-text = refl

-- -42 in 32 bits
atoi-text : atoi text ≡ ok 4294967254
unfolding atoi skip_whitespace read_sign read_digits strchr
atoi-text = refl

atoi_lem_example : atoi text ≡ ok (signed minus (value (4 ∷ 2 ∷ [])))
atoi_lem_example =
    atoi_lem (32 ∷ []) minus 4 (2 ∷ []) 33 (0 ∷ []) (inl refl, tt) (omega arith, (omega arith, tt))
      (inl (omega arith))

-- A buffer of four bytes.
abbrev buffer : List ℕ
buffer = 7 ∷ 7 ∷ 7 ∷ 7 ∷ []

strcpy-text : strcpy buffer (97 ∷ 98 ∷ 0 ∷ []) ≡ ok (97 ∷ 98 ∷ 0 ∷ 7 ∷ [])
unfolding strcpy
strcpy-text = refl

-- Four bytes into four.
strncpy_overruns_example : strncpy buffer (97 ∷ 98 ∷ 99 ∷ 100 ∷ 0 ∷ []) 4 ≡ fault
strncpy_overruns_example =
    strncpy_overruns buffer (97 ∷ 98 ∷ 99 ∷ 100 ∷ []) [] 4
      ((λ e. omega arith), ((λ e. omega arith), ((λ e. omega arith), ((λ e. omega arith), tt))))
      (omega arith) (omega arith)

memcmp-text : memcmp (1 ∷ 9 ∷ []) (1 ∷ 4 ∷ []) 2 ≡ ok 5
unfolding memcmp
memcmp-text = refl
