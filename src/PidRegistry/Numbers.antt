-- ===== src/PidRegistry/Numbers.antt =====
-- proc/pidreg.c: a well-formed registrar, and what handing a number out or back does to it.
use jinx_os.Base.{
  ℕ, ◌+◌, ◌≤◌, ◌<◌, ◌≡◌, ◌⊎◌, refl, ap, subst, ◌∙◌, Bool, true, false, ◌||◌, List, [], ◌∷◌, ◌++◌,
  arith, ◌==◌, eq→==, if◌then◌else◌,
}
use jinx_os.Bitmap.{Bitmap}
use jinx_os.Bitmap.Bits.{bit}
use jinx_os.Bitmap.Marks.{IsValid, Changed}
use jinx_os.PidRegistry.{PidRegistrar}

abbrev pub occurs : ℕ → List ℕ → Bool
occurs x [] = false
occurs x (y ∷ ys) = if y == x then true else occurs x ys

abbrev pub NoRepeat : List ℕ → Type 0
NoRepeat [] = Unit
NoRepeat (x ∷ xs) = (occurs x xs ≡ false) × NoRepeat xs

-- Whether a number is handed out.
abbrev pub in_use : PidRegistrar → ℕ → Bool
in_use r pid = bit r.pmap.bytes pid

-- Every number below `pcounter` but 0 is either handed out or waits, once, to be used again.
pub record IsRegistrar (r : PidRegistrar) : Type 0 where
  pub map : IsValid r.pmap
  pub size : r.pmap.bits ≡ 1024
  pub low : 1 ≤ r.pcounter
  pub high : r.pcounter ≤ 1024
  pub issued : (i : ℕ) → i < 1024 → in_use r i ≡ true → (1 ≤ i) × (i < r.pcounter)
  pub waits :
      (i : ℕ) → occurs i r.pid_reuse ≡ true → (1 ≤ i) × (i < r.pcounter) × (in_use r i ≡ false)
  pub once : NoRepeat r.pid_reuse
  pub complete :
      (i : ℕ) → 1 ≤ i → i < r.pcounter → (in_use r i ≡ true) ⊎ (occurs i r.pid_reuse ≡ true)

-- `g` is `r` after the number was handed out (`true`) or given back (`false`).
pub record Issued (r : PidRegistrar) (pid : ℕ) (x : Bool) (g : PidRegistrar) : Type 0 where
  pub valid : IsRegistrar g
  pub only : (i : ℕ) → in_use g i ≡ (if pid == i then x else in_use r i)
  pub unlocked : g.lk ≡ r.lk

pub occurs-snoc :
    (i : ℕ) (xs : List ℕ) (x : ℕ) → occurs i (xs ++ x ∷ []) ≡ (occurs i xs || (x == i))
occurs-snoc i [] x = ground arith
occurs-snoc i (y ∷ xs) x = ground (arith, occurs-snoc i xs x)

NoRepeat-snoc : (xs : List ℕ) (x : ℕ) → NoRepeat xs → occurs x xs ≡ false → NoRepeat (xs ++ x ∷ [])
NoRepeat-snoc [] x u new = (refl, tt)
NoRepeat-snoc (y ∷ xs) x (fresh, u) new =
    (occurs-snoc y xs x ∙ ground (arith, fresh, new), NoRepeat-snoc xs x u (ground (arith, new)))

-- Handing out a new number, whatever the lock's count is afterwards.
pub new-Issued :
    (r : PidRegistrar) (pmap : Bitmap) (n : ℕ)
    → IsRegistrar r
    → r.pcounter < 1024
    → Changed r.pmap r.pcounter true pmap
    → r.pid_reuse ≡ []
    → IsRegistrar (record { lk = n; pmap = pmap; pid_reuse = []; pcounter = r.pcounter + 1 })
new-Issued r pmap n v more c none_wait = record {
  map = c.valid;
  size = c.size ∙ v.size;
  low = omega (arith, v.low);
  high = omega arith;
  issued = λ i small e. ground (arith, v.low, v.issued i small, c.bits i, e);
  waits = λ i e. cc e;
  once = tt;
  complete = λ i pos below. ground (arith, v.complete i pos, c.bits i, ap (occurs i) none_wait);
}

-- Handing out a number that waits.
pub reuse-Issued :
    (r : PidRegistrar) (pmap : Bitmap) (n pid : ℕ) (rest : List ℕ)
    → IsRegistrar r
    → Changed r.pmap pid true pmap
    → r.pid_reuse ≡ pid ∷ rest
    → IsRegistrar (record r { lk = n; pmap = pmap; pid_reuse = rest })
reuse-Issued r pmap n pid rest v c first =
    let was : (i : ℕ) → occurs i r.pid_reuse ≡ (if pid == i then true else occurs i rest) =
      λ i. ap (occurs i) first in
    let once : NoRepeat (pid ∷ rest) = subst NoRepeat first v.once in
    let own = v.waits pid (was pid ∙ rw (eq→== pid pid refl) refl) in
    record {
      map = c.valid;
      size = c.size ∙ v.size;
      low = v.low;
      high = v.high;
      issued = λ i small e. ground (arith, own, v.issued i small, c.bits i, e);
      waits = λ i e. ground (arith, once.0, e, v.waits i, was i, c.bits i);
      once = once.1;
      complete = λ i pos below. ground (arith, v.complete i pos below, was i, c.bits i);
    }

-- Giving a number back.
pub back-Issued :
    (r : PidRegistrar) (pmap : Bitmap) (n pid : ℕ)
    → IsRegistrar r
    → pid < 1024
    → in_use r pid ≡ true
    → Changed r.pmap pid false pmap
    → IsRegistrar (record r { lk = n; pmap = pmap; pid_reuse = r.pid_reuse ++ pid ∷ [] })
back-Issued r pmap n pid v small used c =
    let own = v.issued pid small used in
    record {
      map = c.valid;
      size = c.size ∙ v.size;
      low = v.low;
      high = v.high;
      issued = λ i few e. ground (arith, v.issued i few, c.bits i, e);
      waits = λ i e. ground (arith, occurs-snoc i r.pid_reuse pid, e, v.waits i, own, c.bits i);
      once = NoRepeat-snoc r.pid_reuse pid v.once (ground (arith, v.waits pid, used));
      complete = λ i pos below.
          ground (arith, v.complete i pos below, occurs-snoc i r.pid_reuse pid, c.bits i);
    }
