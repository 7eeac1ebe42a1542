-- ===== src/HashTable/Keys.antt =====
-- klib/hashtable.c: the hash function and the comparator on C strings, and that they are a hash and a
-- comparator of the strings themselves where the key's length is that of its string.
use Prim.Native.Nat.{lt, eq, gt}
use jinx_os.Base.{
  ℕ, zero, suc, ◌+◌, ◌*◌, ◌-◌, ◌^◌, ◌≡◌, refl, ap, subst, ◌↔◌, Bool, true, false, ◌&&◌, List, [],
  ◌∷◌, ◌++◌, arith, ltb, ◌==◌, ==→eq, eq→==, if◌then◌else◌, Bool-cases, inl, inr, length, Run, ok,
  fault, ◌>>=◌,
}
use jinx_os.Kernel.{wrap}
use jinx_os.Strings.Length.{NoNul}
use jinx_os.Strings.Compare.{strcmp, lexicographic, strcmp_lem}
use jinx_os.HashTable.Chains.{IsComparator}

-- A char, which is signed, as the 32 bits that it is widened to.
abbrev pub widen : ℕ → ℕ
widen c = if ltb c 128 then c else wrap (2 ^ 32 - 256 + c)

-- One round of djb2.
abbrev pub hash_round : ℕ → ℕ → ℕ
hash_round hashval c = wrap (wrap (wrap (hashval * 2 ^ 5) + hashval) + widen c)

-- The loop of hash, over the bytes left.
unfoldable pub hash_loop : ℕ → List ℕ → ℕ → Run ℕ
hash_loop zero key hashval = ok hashval
hash_loop (suc rounds) [] hashval = fault
hash_loop (suc rounds) (c ∷ key) hashval = hash_loop rounds key (hash_round hashval c)

unfoldable pub hash : List ℕ → ℕ → Run ℕ
hash key keylen = hash_loop keylen key 5381

-- key_comparator, as the test that it returns 0: two different lengths have a difference.
unfoldable pub key_comparator : List ℕ → ℕ → List ℕ → ℕ → Run Bool
key_comparator l_key l_keylen r_key r_keylen =
    if l_keylen == r_keylen
    then (do order ← strcmp l_key r_key; ok (elim order [ lt ↦ false | eq ↦ true | gt ↦ false ]))
    else ok false

-- The hash of a string, from its bytes.
abbrev pub djb2 : ℕ → List ℕ → ℕ
djb2 hashval [] = hashval
djb2 hashval (c ∷ s) = djb2 (hash_round hashval c) s

abbrev pub string_hash : List ℕ → ℕ
string_hash = djb2 5381

abbrev pub same_string : List ℕ → List ℕ → Bool
same_string [] [] = true
same_string [] (b ∷ t) = false
same_string (a ∷ s) [] = false
same_string (a ∷ s) (b ∷ t) = (a == b) && same_string s t

hash_loop_lem :
    (s q : List ℕ) (hashval : ℕ) → hash_loop (length s) (s ++ q) hashval ≡ ok (djb2 hashval s)
unfolding hash_loop
hash_loop_lem [] q hashval = refl
hash_loop_lem (c ∷ s) q hashval = hash_loop_lem s q (hash_round hashval c)

same_string_refl : (s : List ℕ) → same_string s s ≡ true
same_string_refl [] = refl
same_string_refl (a ∷ s) = rw (eq→== a a refl) (same_string_refl s)

same_string_eq : (s t : List ℕ) → same_string s t ≡ true → s ≡ t
same_string_eq [] [] e = refl
same_string_eq [] (b ∷ t) e = cc e
same_string_eq (a ∷ s) [] e = cc e
same_string_eq (a ∷ s) (b ∷ t) e = elim (Bool-cases (a == b)) [
  | inl h ↦ let tails : s ≡ t = same_string_eq s t (rw h at e) in cc (==→eq a b h, tails)
  | inr h ↦ cc (rw h at e)
]

pub same_string-IsComparator : IsComparator same_string
same_string-IsComparator = record { same_refl = same_string_refl; same_eq = same_string_eq }

order-same :
    (s t : List ℕ)
    → (elim (lexicographic s t) as (λ x. Bool) [ lt ↦ false | eq ↦ true | gt ↦ false ])
      ≡ same_string s t
order-same [] [] = refl
order-same [] (b ∷ t) = refl
order-same (a ∷ s) [] = refl
order-same (a ∷ s) (b ∷ t) = ground (arith, order-same s t)

same_string-length : (s t : List ℕ) → (length s == length t) ≡ false → same_string s t ≡ false
same_string-length s t e = elim (Bool-cases (same_string s t)) [
  | inl h ↦ absurd (cc (eq→== _ _ (ap length (same_string_eq s t h)), e))
  | inr h ↦ h
]

-- For strings `s` and `t` whose lengths are passed as the keys' lengths, whatever follows their NULs:
-- hash ends with a number that depends on the string alone, and key_comparator ends with the
-- test that the strings are equal.
pub key_functions_lem :
    (s t q r : List ℕ)
    → NoNul s
    → NoNul t
    → (hash (s ++ 0 ∷ q) (length s) ≡ ok (string_hash s))
      × (key_comparator (s ++ 0 ∷ q) (length s) (t ++ 0 ∷ r) (length t) ≡ ok (same_string s t))
      × (same_string s t ≡ true ↔ s ≡ t)
unfolding hash key_comparator
key_functions_lem s t q r hs ht = (
  hash_loop_lem s (0 ∷ q) 5381,
  elim (Bool-cases (length s == length t)) [
    | inl e ↦ rw (e, strcmp_lem s t q r hs ht) (ap ok (order-same s t))
    | inr e ↦ rw (e, same_string-length s t e) refl
  ],
  (same_string_eq s t, λ e. subst (λ z. same_string s z ≡ true) e (same_string_refl s)),
)
