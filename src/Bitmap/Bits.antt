-- ===== src/Bitmap/Bits.antt =====
-- The bits of a byte, and of a list of bytes. The laws of one byte are checked by evaluation.
use Prim.Native.Nat.{bit_and, bit_or}
use jinx_os.Base.{
  ℕ, zero, suc, ◌-◌, ◌/◌, ◌%◌, ◌<◌, ◌≡◌, refl, ap, ◌∙◌, Bool, true, false, not, ◌&&◌, ◌||◌, List,
  arith, ltb, ltb→lt, ◌==◌, ==→eq, if◌then◌else◌, get_or, length, set, get_or-set,
}
use jinx_os.Bitmap.{mask, mark_extra}

-- A test that passes at every index under a bound, run by evaluation.
every : ℕ → (ℕ → Bool) → Bool
every zero passes = true
every (suc bound) passes = if passes bound then every bound passes else false

every_at :
    (bound : ℕ) (passes : ℕ → Bool) (i : ℕ)
    → every bound passes ≡ true
    → i < bound
    → passes i ≡ true
unfolding every
every_at zero passes i run below = absurd (omega arith)
every_at (suc bound) passes i run below = ground (arith, every_at bound passes i)

-- Whether bit `n` of a byte is set.
unfoldable pub test : ℕ → ℕ → Bool
test byte n = not (bit_and byte (mask n) == 0)

agree : Bool → Bool → Bool
agree true b = b
agree false b = not b

agree_eq : (a b : Bool) → agree a b ≡ true → a ≡ b
unfolding agree
agree_eq true true h = refl
agree_eq true false h = cc
agree_eq false true h = cc
agree_eq false false h = refl

or_table :
    every 256 (λ b. every 8 (λ n.
      ltb (bit_or b (mask n)) 256
      && every 8 (λ m. agree (test (bit_or b (mask n)) m) ((n == m) || test b m))))
    ≡ true
unfolding every agree test
or_table = refl

and_table :
    every 256 (λ b. every 8 (λ n.
      ltb (bit_and b (255 - mask n)) 256
      && every 8 (λ m. agree (test (bit_and b (255 - mask n)) m) (not (n == m) && test b m))))
    ≡ true
unfolding every agree test
and_table = refl

and_true : (a b : Bool) → (a && b) ≡ true → (a ≡ true) × (b ≡ true)
and_true true b h = (refl, h)
and_true false b h = cc

-- Setting bit `n`.
pub test-or :
    (b n m : ℕ) → b < 256 → n < 8 → m < 8 → test (bit_or b (mask n)) m ≡ ((n == m) || test b m)
test-or b n m hb hn hm =
    let row = every_at 8 _ n (every_at 256 _ b or_table hb) hn in
    agree_eq _ _ (every_at 8 _ m (and_true _ _ row).1 hm)

pub or-lt : (b n : ℕ) → b < 256 → n < 8 → bit_or b (mask n) < 256
or-lt b n hb hn =
    let row = every_at 8 _ n (every_at 256 _ b or_table hb) hn in ltb→lt _ _ (and_true _ _ row).0

-- Clearing bit `n`.
pub test-and :
    (b n m : ℕ)
    → b < 256
    → n < 8
    → m < 8
    → test (bit_and b (255 - mask n)) m ≡ (not (n == m) && test b m)
test-and b n m hb hn hm =
    let row = every_at 8 _ n (every_at 256 _ b and_table hb) hn in
    agree_eq _ _ (every_at 8 _ m (and_true _ _ row).1 hm)

pub and-lt : (b n : ℕ) → b < 256 → n < 8 → bit_and b (255 - mask n) < 256
and-lt b n hb hn =
    let row = every_at 8 _ n (every_at 256 _ b and_table hb) hn in ltb→lt _ _ (and_true _ _ row).0

full_table :
    every 256 (λ b. agree (b == 255) (
      test b 0 && test b 1 && test b 2 && test b 3 && test b 4 && test b 5 && test b 6 && test b 7))
    ≡ true
unfolding every agree test
full_table = refl

-- A byte is 0xFF exactly when all its bits are set.
pub full_iff :
    (b : ℕ)
    → b < 256
    → (b == 255) ≡ (
        test b 0
        && test b 1
        && test b 2
        && test b 3
        && test b 4
        && test b 5
        && test b 6
        && test b 7)
full_iff b h = agree_eq _ _ (every_at 256 _ b full_table h)

extra_table :
    every 8 (λ extra.
      ltb (mark_extra (8 - extra) 0 extra) 256
      && every 8 (λ n. agree (test (mark_extra (8 - extra) 0 extra) n) (not (ltb n extra))))
    ≡ true
unfolding every agree test mark_extra
extra_table = refl

-- The last byte of a new bitmap: marked from bit `extra` on.
pub test-mark_extra :
    (extra n : ℕ) → extra < 8 → n < 8 → test (mark_extra (8 - extra) 0 extra) n ≡ not (ltb n extra)
test-mark_extra extra n he hn =
    agree_eq _ _ (every_at 8 _ n (and_true _ _ (every_at 8 _ extra extra_table he)).1 hn)

pub mark_extra-lt : (extra : ℕ) → extra < 8 → mark_extra (8 - extra) 0 extra < 256
mark_extra-lt extra he = ltb→lt _ _ (and_true _ _ (every_at 8 _ extra extra_table he)).0

zero_table : every 8 (λ n. agree (test 0 n) false) ≡ true
unfolding every agree test
zero_table = refl

pub test-zero : (n : ℕ) → n < 8 → test 0 n ≡ false
test-zero n h = agree_eq _ _ (every_at 8 _ n zero_table h)

-- Bit `j` of a list of bytes.
unfoldable pub bit : List ℕ → ℕ → Bool
bit bytes j = test (get_or bytes (j / 8) 0) (j % 8)

abbrev pub AreBytes : List ℕ → Type 0
AreBytes bytes = (i : ℕ) → get_or bytes i 0 < 256

pub AreBytes-set :
    (bytes : List ℕ) (i x : ℕ)
    → AreBytes bytes
    → i < length bytes
    → x < 256
    → AreBytes (set bytes i x)
AreBytes-set bytes i x h hi hx j = ground (arith, get_or-set bytes i x 0 j, h j)

-- A write to one byte, read bit by bit.
pub bit-set :
    (bytes : List ℕ) (i x j : ℕ)
    → i < length bytes
    → bit (set bytes i x) j ≡ (if i == j / 8 then test x (j % 8) else bit bytes j)
unfolding bit
bit-set bytes i x j hi = ground (arith, get_or-set bytes i x 0 (j / 8))

ones_table : every 8 (λ m. test 255 m) ≡ true
unfolding every test
ones_table = refl

pub test-full : (b m : ℕ) → (b == 255) ≡ true → m < 8 → test b m ≡ true
test-full b m e h = ap (λ x. test x m) (==→eq b 255 e) ∙ every_at 8 _ m ones_table h

-- A byte with all its bits set is 0xFF.
pub full_of_test : (b : ℕ) → b < 256 → ((m : ℕ) → m < 8 → test b m ≡ true) → (b == 255) ≡ true
full_of_test b h all =
    full_iff b h
    ∙ rw (
      all 0 (omega arith),
      all 1 (omega arith),
      all 2 (omega arith),
      all 3 (omega arith),
      all 4 (omega arith),
      all 5 (omega arith),
      all 6 (omega arith),
      all 7 (omega arith),
    )
