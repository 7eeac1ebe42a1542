-- ===== src/Thread/Tables.antt =====
-- thread/thread.c: how often a thread stands on lists, and tables of threads.
use mathlib.Core.Path.{fun_ext}
use jinx_os.Base.{
  ℕ, ◌+◌, ◌≡◌, ◌≢◌, refl, Option, List, [], ◌∷◌, ◌++◌, arith, ◌==◌, ne→==, eq→==, if◌then◌else◌,
}
use jinx_os.Thread.{Thread, Threads, put}

abbrev pub one_at : ℕ → ℕ → ℕ
one_at x t = if x == t then 1 else 0

abbrev pub occurs : ℕ → List ℕ → ℕ
occurs t [] = 0
occurs t (x ∷ xs) = one_at x t + occurs t xs

pub occurs-append : (t : ℕ) (xs ys : List ℕ) → occurs t (xs ++ ys) ≡ occurs t xs + occurs t ys
occurs-append t [] ys = omega arith
occurs-append t (x ∷ xs) ys = omega (arith, occurs-append t xs ys)

pub put_self : (ts : Threads) (a : ℕ) (x : Option Thread) → put ts a x a ≡ x
unfolding put
put_self ts a x = rw (eq→== a a refl) refl

pub put_other : (ts : Threads) (a t : ℕ) (x : Option Thread) → t ≢ a → put ts a x t ≡ ts t
unfolding put
put_other ts a t x h = rw (ne→== t a h) refl

pub put-put : (ts : Threads) (a : ℕ) (x y : Option Thread) → put (put ts a x) a y ≡ put ts a y
unfolding put
put-put ts a x y = fun_ext (λ t. ground arith)
