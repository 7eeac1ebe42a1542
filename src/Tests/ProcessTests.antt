-- ===== src/Tests/ProcessTests.antt =====
-- proc/pidreg.c and its theorems at a new registrar and at one without a number left.
use jinx_os.Base.{
  ℕ, suc, ◌+◌, ◌%◌, ◌/◌, ◌≤◌, ◌<◌, ◌≡◌, inl, inr, refl, true, false, some, [], ◌∷◌, arith, ltb,
  ltb→lt, Bool-cases, zero, ◌*◌, ap, ◌∙◌, get_or, replicate, ok,
}
use jinx_os.Bitmap.{Bitmap}
use jinx_os.Bitmap.Bits.{bit, test, test-zero, test-and, test-full}
use jinx_os.Bitmap.Create.{get_or-zeros}
use jinx_os.PidRegistry.{PidRegistrar, pidreg_create, pidreg_getpid}
use jinx_os.PidRegistry.Numbers.{in_use, IsRegistrar, Issued}
use jinx_os.PidRegistry.Issue.{pidreg_create_lem, pidreg_getpid_lem, pidreg_getpid_exhausted}
use jinx_os.Tests.ArrayTests.{always}

pidreg_create_lem_example :
    (r : PidRegistrar) × (pidreg_create true always ≡ ok r)
    × IsRegistrar r
    × ((i : ℕ) → i < 1024 → in_use r i ≡ false)
pidreg_create_lem_example = pidreg_create_lem always (λ n. refl)

abbrev zeros : Bitmap
zeros = record { bits = 1024; bytes = replicate 128 0 }

abbrev new_registrar : PidRegistrar
new_registrar = record { lk = 0; pmap = zeros; pid_reuse = []; pcounter = 1 }

zeros-clear : (i : ℕ) → in_use new_registrar i ≡ false
unfolding bit
zeros-clear i =
    ap (λ byte. test byte (i % 8)) (get_or-zeros 128 (i / 8)) ∙ test-zero (i % 8) (omega arith)

new_registrar-IsRegistrar : IsRegistrar new_registrar
new_registrar-IsRegistrar = record {
  map = record {
    small = omega arith;
    room = refl;
    bytes = λ i. omega (arith, get_or-zeros 128 i);
    padding = λ j p q. absurd (omega (arith, p, q));
  };
  size = refl;
  low = omega arith;
  high = omega arith;
  issued = λ i small e. absurd (cc (zeros-clear i, e));
  waits = λ i e. cc e;
  once = tt;
  complete = λ i pos below. absurd (omega (arith, pos, below));
}

pidreg_getpid_lem_example :
    (pid : ℕ) × (g : PidRegistrar) × (pidreg_getpid true always (some new_registrar) ≡ ok (pid, g))
    × (1 ≤ pid)
    × (pid < 1024)
    × (in_use new_registrar pid ≡ false)
    × Issued new_registrar pid true g
pidreg_getpid_lem_example =
    pidreg_getpid_lem true always new_registrar new_registrar-IsRegistrar (inl (omega arith))

-- Every number but 0 is in use.
abbrev ones : Bitmap
ones = record { bits = 1024; bytes = 254 ∷ replicate 127 255 }

abbrev full_registrar : PidRegistrar
full_registrar = record { lk = 0; pmap = ones; pid_reuse = []; pcounter = 1024 }

get_or-ones : (n i : ℕ) → i < n → ◌≡◌ {A = ℕ} (get_or (replicate n 255) i 0) 255
get_or-ones zero i h = absurd (omega arith)
get_or-ones (suc n) zero h = refl
get_or-ones (suc n) (suc i) h = get_or-ones n i (omega arith)

get_or-past : (n i : ℕ) → n ≤ i → ◌≡◌ {A = ℕ} (get_or (replicate n 255) i 0) 0
get_or-past zero i h = refl
get_or-past (suc n) zero h = absurd (omega arith)
get_or-past (suc n) (suc i) h = get_or-past n i (omega arith)

ones-byte : (k : ℕ) → get_or ones.bytes k 0 < 256
ones-byte zero = omega arith
ones-byte (suc k) = elim (Bool-cases (ltb k 127)) [
  | inl e ↦ omega (arith, get_or-ones 127 k (ltb→lt _ _ e))
  | inr e ↦ omega (arith, get_or-past 127 k (ground (arith, e)))
]

low_bits : (m : ℕ) → 1 ≤ m → m < 8 → test 254 m ≡ true
low_bits m pos h =
    test-and 255 0 m (omega arith) (omega arith) h ∙ ground (arith, pos, test-full 255 m refl h)

ones-byte_set : (k m : ℕ) → k < 128 → m < 8 → 1 ≤ k * 8 + m → test (get_or ones.bytes k 0) m ≡ true
ones-byte_set zero m hk hm pos = low_bits m (omega arith) hm
ones-byte_set (suc k) m hk hm pos =
    ap (λ byte. test byte m) (get_or-ones 127 k (omega arith)) ∙ test-full 255 m refl hm

ones-set : (i : ℕ) → 1 ≤ i → i < 1024 → in_use full_registrar i ≡ true
unfolding bit
ones-set i pos h = ones-byte_set (i / 8) (i % 8) (omega arith) (omega arith) (omega (arith, pos))

zero-free : in_use full_registrar 0 ≡ false
unfolding bit test
zero-free = refl

used-pos : (i : ℕ) → in_use full_registrar i ≡ true → 1 ≤ i
used-pos zero e = absurd (cc (zero-free, e))
used-pos (suc i) e = omega arith

full_registrar-IsRegistrar : IsRegistrar full_registrar
full_registrar-IsRegistrar = record {
  map = record {
    small = omega arith;
    room = refl;
    bytes = ones-byte;
    padding = λ j p q. absurd (omega (arith, p, q));
  };
  size = refl;
  low = omega arith;
  high = omega arith;
  issued = λ i small e. (used-pos i e, small);
  waits = λ i e. cc e;
  once = tt;
  complete = λ i pos below. inl (ones-set i pos below);
}

pidreg_getpid_exhausted_example :
    (g : PidRegistrar) × (pidreg_getpid true always (some full_registrar) ≡ ok (6, g))
    × (g.lk ≡ 1)
    × (in_use full_registrar 6 ≡ true)
pidreg_getpid_exhausted_example =
    pidreg_getpid_exhausted true always full_registrar full_registrar-IsRegistrar refl refl
