-- ===== src/HashTable/Buckets.antt =====
-- klib/hashtable.c: an array of chains as a map from keys to values.
use jinx_os.Base.{
  ℕ, zero, suc, ◌+◌, ◌-◌, ◌%◌, ◌≤◌, ◌<◌, ◌≡◌, ◌≢◌, ◌⊎◌, inl, inr, refl, ap, ◌∙◌, Bool, Option, none,
  List, [], ◌∷◌, arith, ◌==◌, ==→eq, Bool-cases, length, get_or, set, replicate, subst,
}
use jinx_os.HashTable.{KvPair}
use jinx_os.HashTable.Chains.{IsComparator, first, first_none, assoc, Unique, Placed, assoc-Placed}

abbrev pub total : {K : Type 0} → List (List (KvPair K)) → ℕ
total [] = 0
total (chain ∷ vals) = length chain + total vals

pub total-set :
    {K : Type 0} (vals : List (List (KvPair K))) (j : ℕ) (chain : List (KvPair K))
    → j < length vals
    → total (set vals j chain) + length (get_or vals j []) ≡ total vals + length chain
total-set [] j chain h = absurd (omega arith)
total-set (c ∷ vals) zero chain h = omega arith
total-set (c ∷ vals) (suc j) chain h = omega (arith, total-set vals j chain (omega arith))

pub total-empty : (K : Type 0) (slots : ℕ) → total {K = K} (replicate slots []) ≡ 0
total-empty K zero = refl
total-empty K (suc slots) = omega (arith, total-empty K slots)

pub get_or-empty :
    (K : Type 0) (slots j : ℕ) → get_or {A = List (KvPair K)} (replicate slots []) j [] ≡ []
get_or-empty K zero j = refl
get_or-empty K (suc slots) zero = refl
get_or-empty K (suc slots) (suc j) = get_or-empty K slots j

module _ {K : Type 0} (hash : K → ℕ) (same : K → K → Bool) where
  -- From slot `i` on, the chains hold the keys of their slots, each once.
  abbrev pub AllPlaced : ℕ → ℕ → List (List (KvPair K)) → Type 0
  AllPlaced n i [] = Unit
  AllPlaced n i (chain ∷ vals) =
      (Placed hash n i chain × Unique same chain) × AllPlaced n (i + 1) vals

  -- The value of a key in any of the chains.
  unfoldable pub assoc_all : List (List (KvPair K)) → K → Option ℕ
  assoc_all [] q = none
  assoc_all (chain ∷ vals) q = first (assoc same chain q) (assoc_all vals q)

  pub AllPlaced-get :
      (n i : ℕ) (vals : List (List (KvPair K))) (j : ℕ)
      → AllPlaced n i vals
      → j < length vals
      → Placed hash n (i + j) (get_or vals j []) × Unique same (get_or vals j [])
  AllPlaced-get n i [] j p h = absurd (omega arith)
  AllPlaced-get n i (chain ∷ vals) zero (here, p) h =
      subst (λ z. Placed hash n z chain × Unique same chain) {x = i} {y = i + 0} (omega arith) here
  AllPlaced-get n i (chain ∷ vals) (suc j) (here, p) h =
      subst (λ z. Placed hash n z (get_or vals j []) × Unique same (get_or vals j []))
        {x = i + 1 + j} {y = i + suc j} (omega arith)
        (AllPlaced-get n (i + 1) vals j p (omega arith))

  pub AllPlaced-set :
      (n i : ℕ) (vals : List (List (KvPair K))) (j : ℕ) (chain : List (KvPair K))
      → AllPlaced n i vals
      → Placed hash n (i + j) chain
      → Unique same chain
      → AllPlaced n i (set vals j chain)
  AllPlaced-set n i [] j chain p at u = tt
  AllPlaced-set n i (c ∷ vals) zero chain (here, p) at u =
      ((subst (λ z. Placed hash n z chain) {x = i + 0} {y = i} (omega arith) at, u), p)
  AllPlaced-set n i (c ∷ vals) (suc j) chain (here, p) at u = (
    here,
    AllPlaced-set n (i + 1) vals j chain p
        (subst (λ z. Placed hash n z chain) {x = i + suc j} {y = i + 1 + j} (omega arith) at) u,
  )

  pub AllPlaced-empty : (n i slots : ℕ) → AllPlaced n i (replicate slots [])
  AllPlaced-empty n i zero = tt
  AllPlaced-empty n i (suc slots) = ((tt, tt), AllPlaced-empty n (i + 1) slots)

module _ {K : Type 0} (hash : K → ℕ) {same : K → K → Bool} (is : IsComparator same) (n : ℕ) where
  -- A key of an earlier slot is in none of the chains.
  pub assoc_all-below :
      (i : ℕ) (vals : List (List (KvPair K))) (q : K)
      → AllPlaced hash same n i vals
      → hash q % n < i
      → assoc_all hash same vals q ≡ none
  unfolding assoc_all
  assoc_all-below i [] q p h = refl
  assoc_all-below i (chain ∷ vals) q ((at, u), p) h =
      rw (assoc-Placed hash is n i chain q at (λ e. omega (arith, e, h)))
        (assoc_all-below (i + 1) vals q p (omega arith))

  pub assoc_all-slot :
      (i : ℕ) (vals : List (List (KvPair K))) (q : K)
      → AllPlaced hash same n i vals
      → i ≤ hash q % n
      → hash q % n < i + length vals
      → assoc_all hash same vals q ≡ assoc same (get_or vals (hash q % n - i) []) q
  unfolding assoc_all
  assoc_all-slot i [] q p low high = absurd (omega arith)
  assoc_all-slot i (chain ∷ vals) q ((at, u), p) low high = elim (Bool-cases (hash q % n == i)) [
    | inl e ↦
        let here : hash q % n ≡ i = ==→eq _ _ e in
        ap (first (assoc same chain q)) (assoc_all-below (i + 1) vals q p (omega arith))
        ∙ first_none _
        ∙ ap (λ j. assoc same (get_or (chain ∷ vals) j []) q) {x = 0} {y = hash q % n - i}
            (omega arith)
    | inr e ↦
        let other : hash q % n ≢ i = ground (arith, e) in
        ap (λ z. first z (assoc_all hash same vals q)) (assoc-Placed hash is n i chain q at other)
        ∙ assoc_all-slot (i + 1) vals q p (ground (arith, low, other)) (omega arith)
        ∙ ap (λ j. assoc same (get_or (chain ∷ vals) j []) q) {x = suc (hash q % n - (i + 1))}
            {y = hash q % n - i} (ground (arith, low, other))
  ]

  -- No key is both in a chain and in a later one.
  pub assoc_all-apart :
      (i : ℕ) (chain : List (KvPair K)) (vals : List (List (KvPair K))) (q : K)
      → AllPlaced hash same n i (chain ∷ vals)
      → (assoc same chain q ≡ none) ⊎ (assoc_all hash same vals q ≡ none)
  assoc_all-apart i chain vals q ((at, u), p) = elim (Bool-cases (hash q % n == i)) [
    | inl e ↦ inr (assoc_all-below (i + 1) vals q p (omega (arith, ==→eq _ _ e)))
    | inr e ↦ inl (assoc-Placed hash is n i chain q at (ground (arith, e)))
  ]
