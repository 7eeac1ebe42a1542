-- ===== src/LinkedList/Chain.antt =====
-- What a list of klib/list.c stands for: its nodes, in order, as pairs of an address and a value.
use mathlib.Core.Bool.{or_assoc}
use jinx_os.Base.{
  ℕ, suc, ◌^◌, ◌<◌, ◌≡◌, ◌≢◌, refl, ap, ◌∙◌, Bool, true, false, ◌||◌, Option, none, some, List, [],
  ◌∷◌, ◌++◌, arith, ◌==◌, length, ok,
}
use jinx_os.Kernel.{null}
use jinx_os.LinkedList.{Node, LinkedList, Store, node, write, load, list_type}

abbrev pub Cells : Type 0
Cells = List (ℕ × ℕ)

abbrev pub has : ℕ → Cells → Bool
has a [] = false
has a ((b, _) ∷ cs) = (a == b) || has a cs

-- The values, in order.
abbrev pub values : Cells → List ℕ
values [] = []
values ((_, v) ∷ cs) = v ∷ values cs

-- The address of the last node, or `a` if there is none.
abbrev pub last_addr : ℕ → Cells → ℕ
last_addr a [] = a
last_addr a ((b, _) ∷ cs) = last_addr b cs

abbrev pub Distinct : Cells → Type 0
Distinct [] = Unit
Distinct ((a, _) ∷ cs) = (has a cs ≡ false) × Distinct cs

-- From `p` the `next` pointers lead through the nodes `cs` to `stop`.
abbrev pub Chain : Store → ℕ → Cells → ℕ → Type 0
Chain s p [] stop = p ≡ stop
Chain s p ((a, v) ∷ cs) stop =
    (p ≡ a) × (a ≢ null) × ((n : ℕ) × (s a ≡ some (node v n)) × Chain s n cs stop)

-- `l` is a live list of exactly the nodes `cs`.
pub record IsList (s : Store) (l : LinkedList) (cs : Cells) : Type 0 where
  pub live : l.datatype ≡ list_type
  pub chain : Chain s l.head cs null
  pub distinct : Distinct cs
  pub last : l.tail ≡ last_addr null cs
  pub size : l.size ≡ length cs
  pub bounded : length cs < 2 ^ 32

-- A chain survives any change that spares its own nodes.
pub Chain-frame :
    (s g : Store) (p : ℕ) (cs : Cells) (stop : ℕ)
    → Chain s p cs stop
    → ((a : ℕ) → has a cs ≡ true → g a ≡ s a)
    → Chain g p cs stop
Chain-frame s g p [] stop e same = e
Chain-frame s g p ((a, v) ∷ cs) stop (e, ne, (n, at, rest)) same = (
  e,
  ne,
  (n, same a (ground arith) ∙ at, Chain-frame s g n cs stop rest (λ b h. same b (ground arith))),
)

pub Chain-write :
    (s : Store) (b : ℕ) (c : Option Node) (p : ℕ) (cs : Cells) (stop : ℕ)
    → Chain s p cs stop
    → has b cs ≡ false
    → Chain (write s b c) p cs stop
unfolding write
Chain-write s b c p cs stop h out = Chain-frame s _ p cs stop h (λ a i. ground arith)

pub Chain-append :
    (s : Store) (p q : ℕ) (cs ds : Cells) (stop : ℕ)
    → Chain s p cs q
    → Chain s q ds stop
    → Chain s p (cs ++ ds) stop
Chain-append s p q [] ds stop e d = rw e d
Chain-append s p q ((a, v) ∷ cs) ds stop (e, ne, (n, at, rest)) d =
    (e, ne, (n, at, Chain-append s n q cs ds stop rest d))

pub has-append : (a : ℕ) (cs ds : Cells) → has a (cs ++ ds) ≡ (has a cs || has a ds)
has-append a [] ds = refl
has-append a ((b, _) ∷ cs) ds = rw (has-append a cs ds, or_assoc)

pub has-last_addr : (a v : ℕ) (cs : Cells) → has (last_addr a cs) ((a, v) ∷ cs) ≡ true
has-last_addr a v [] = ground arith
has-last_addr a v ((b, w) ∷ cs) = ground (arith, has-last_addr b w cs)

pub last_addr-append : (a b v : ℕ) (cs : Cells) → last_addr a (cs ++ (b, v) ∷ []) ≡ b
last_addr-append a b v [] = refl
last_addr-append a b v ((c, _) ∷ cs) = last_addr-append c b v cs

pub values-append : (cs ds : Cells) → values (cs ++ ds) ≡ values cs ++ values ds
values-append [] ds = refl
values-append ((a, v) ∷ cs) ds = ap (◌∷◌ v) (values-append cs ds)

pub length-values : (cs : Cells) → length (values cs) ≡ length cs
length-values [] = refl
length-values (c ∷ cs) = ap suc (length-values cs)

pub Distinct-append :
    (cs : Cells) (b v : ℕ) → Distinct cs → has b cs ≡ false → Distinct (cs ++ (b, v) ∷ [])
Distinct-append [] b v d out = (refl, tt)
Distinct-append ((a, w) ∷ cs) b v (new, d) out =
    (rw has-append (ground arith), Distinct-append cs b v d (ground arith))

-- A node that the store holds can be loaded.
pub load_lem : (s : Store) (a v n : ℕ) → s a ≡ some (node v n) → load s a ≡ ok (node v n)
unfolding load
load_lem s a v n e = rw e

-- An address that holds no node is none of a chain's.
pub not-has-unused :
    (s : Store) (b p : ℕ) (cs : Cells) (stop : ℕ)
    → Chain s p cs stop
    → s b ≡ none
    → has b cs ≡ false
not-has-unused s b p [] stop e unused = refl
not-has-unused s b p ((a, v) ∷ cs) stop (e, ne, (n, at, rest)) unused =
    ground (arith, not-has-unused s b n cs stop rest unused)
