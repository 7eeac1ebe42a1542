-- ===== src/HashTable/Valid.antt =====
-- klib/hashtable.c: a well-formed table, and the map that it stands for.
use jinx_os.Base.{
  ℕ, ◌+◌, ◌*◌, ◌%◌, ◌^◌, ◌≤◌, ◌<◌, ◌≡◌, refl, ap, subst, ◌∙◌, Bool, true, false, Option, some, List,
  [], arith, ◌==◌, ne→==, if◌then◌else◌, length, length-set, get_or, get_or-set, set, get_elem?,
  get_elem?-get_or, ok,
}
use jinx_os.HashTable.{KvPair, HashTable, hashtable_type, slot}
use jinx_os.HashTable.Chains.{assoc, Unique, Placed}
use jinx_os.HashTable.Buckets.{total, total-set, AllPlaced, AllPlaced-get, AllPlaced-set}

-- The sizes that doubling the smallest array gives.
pub data IsArraysize : ℕ → Type 0 where
  smallest : IsArraysize 8
  doubled : {n : ℕ} → IsArraysize n → IsArraysize (n * 2)

module _ {K : Type 0} (hash : K → ℕ) (same : K → K → Bool) where
  -- The slots hold `size` pairs, each under its key's hash and no key twice.
  pub record IsTable (h : HashTable K) : Type 0 where
    pub live : h.datatype ≡ hashtable_type
    pub array : IsArraysize h.arraysize
    pub width : length h.vals ≡ h.arraysize
    pub small : h.arraysize ≤ 2 ^ 29
    pub placed : AllPlaced hash same h.arraysize 0 h.vals
    pub counted : total h.vals ≡ h.size

  -- The chain of a key.
  abbrev pub chain_of : HashTable K → K → List (KvPair K)
  chain_of h q = get_or h.vals (hash q % h.arraysize) []

  -- The map that a table stands for.
  abbrev pub view : HashTable K → K → Option ℕ
  view h q = assoc same (chain_of h q) q

if_ap :
    {A : Type 0} {B : Type 0} (f : A → B) (b : Bool) (x y : A)
    → f (if b then x else y) ≡ (if b then f x else f y)
if_ap f true x y = refl
if_ap f false x y = refl

pub IsArraysize-pos : (n : ℕ) → IsArraysize n → 8 ≤ n
IsArraysize-pos n smallest = omega arith
IsArraysize-pos n (doubled {n = m} a) = omega (arith, IsArraysize-pos m a)

module _ {K : Type 0} (hash : K → ℕ) {same : K → K → Bool} (h : HashTable K)
    (v : IsTable hash same h) where
  pub slot_lt : (q : K) → hash q % h.arraysize < length h.vals
  slot_lt q = omega (arith, v.width, IsArraysize-pos h.arraysize v.array)

  pub slot_lem : (q : K) → slot hash h q ≡ ok (hash q % h.arraysize)
  unfolding slot
  slot_lem q = rw (ne→== h.arraysize 0 (omega (arith, IsArraysize-pos h.arraysize v.array))) refl

  pub get-chain : (q : K) → get_elem? h.vals (hash q % h.arraysize) ≡ some (chain_of hash same h q)
  get-chain q = get_elem?-get_or h.vals (hash q % h.arraysize) [] (slot_lt q)

  -- A table with the chain of `k` replaced.
  abbrev pub replaced : K → List (KvPair K) → ℕ → HashTable K
  replaced k chain size = record h { vals = set h.vals (hash k % h.arraysize) chain; size = size }

  pub replaced-IsTable :
      (k : K) (chain : List (KvPair K)) (size : ℕ)
      → Placed hash h.arraysize (hash k % h.arraysize) chain
      → Unique same chain
      → size + length (chain_of hash same h k) ≡ h.size + length chain
      → IsTable hash same (replaced k chain size)
  replaced-IsTable k chain size at u count = record {
    live = v.live;
    array = v.array;
    width = length-set h.vals (hash k % h.arraysize) chain ∙ v.width;
    small = v.small;
    placed =
        AllPlaced-set hash same h.arraysize 0 h.vals (hash k % h.arraysize) chain v.placed
          (subst (λ z. Placed hash h.arraysize z chain) {x = hash k % h.arraysize}
            {y = 0 + hash k % h.arraysize} (omega arith) at)
          u;
    counted =
        omega (arith, total-set h.vals (hash k % h.arraysize) chain (slot_lt k), v.counted, count);
  }

  pub view-replaced :
      (k : K) (chain : List (KvPair K)) (size : ℕ) (q : K)
      → view hash same (replaced k chain size) q ≡ (
          if hash k % h.arraysize == hash q % h.arraysize
          then assoc same chain q
          else view hash same h q)
  view-replaced k chain size q =
      ap (λ c. assoc same c q)
        (get_or-set h.vals (hash k % h.arraysize) chain [] (hash q % h.arraysize) (slot_lt k))
      ∙ if_ap (λ c. assoc same c q) (hash k % h.arraysize == hash q % h.arraysize) chain _

  -- The chain of a key is in its place.
  pub chain_of-Placed :
      (k : K)
      → Placed hash h.arraysize (hash k % h.arraysize) (chain_of hash same h k)
        × Unique same (chain_of hash same h k)
  chain_of-Placed k =
      subst
        (λ z.
          Placed hash h.arraysize z (chain_of hash same h k) × Unique same (chain_of hash same h k))
        {x = 0 + hash k % h.arraysize} {y = hash k % h.arraysize} (omega arith)
        (AllPlaced-get hash same h.arraysize 0 h.vals (hash k % h.arraysize) v.placed (slot_lt k))
