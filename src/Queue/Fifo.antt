-- ===== src/Queue/Fifo.antt =====
-- klib/queue.c refines a FIFO queue: the abstract state is the list of the values, oldest first.
use jinx_os.Base.{
  ℕ, suc, ◌^◌, ◌<◌, ◌≡◌, ◌≢◌, refl, sym, ap, ◌∙◌, none, List, [], ◌∷◌, ◌++◌, arith, ◌==◌, eq→==,
  length, ok, Returns, returns, Returns-bind,
}
use jinx_os.Kernel.{null, success}
use jinx_os.LinkedList.{Store, LinkedList, list_isempty, list_getsize}
use jinx_os.LinkedList.Chain.{Cells, values, values-append, length-values, not-has-unused, IsList}
use jinx_os.LinkedList.Ends.{
  list_push_back_lem, list_pop_front_lem, list_front_lem, first_value, PoppedFront,
}
use jinx_os.Queue.{
  Queue, queue_type, queue_push, queue_pop, queue_front, queue_isempty, queue_getsize,
}

-- The queue holds the values `xs`, oldest first, in some nodes of the store.
pub record Holds (s : Store) (q : Queue) (xs : List ℕ) : Type 0 where
  pub live : q.datatype ≡ queue_type
  pub cells : Cells
  pub list : IsList s q.vals cells
  pub shown : values cells ≡ xs

-- The abstract queue.
pub abstract_front : List ℕ → ℕ
abstract_front [] = null
abstract_front (x ∷ xs) = x

pub abstract_pop : List ℕ → List ℕ
abstract_pop [] = []
abstract_pop (x ∷ xs) = xs

first : (cs : Cells) → first_value cs ≡ abstract_front (values cs)
unfolding abstract_front
first [] = refl
first (c ∷ cs) = refl

popped-values :
    (s g : Store) (cs : Cells) (l : LinkedList)
    → PoppedFront s cs (l, g)
    → (ds : Cells) × IsList g l ds × (values ds ≡ abstract_pop (values cs))
unfolding abstract_pop
popped-values s g [] l (is, same) = ([], is, refl)
popped-values s g ((a, v) ∷ cs) l (is, same) = (cs, is, refl)

-- On a queue that holds `xs`, of fewer than 2 ^ 32 - 1 values, queue_push with memory at an address
-- that the store does not use ends with success, and the queue holds `xs` with the value behind it.
pub queue_push_lem :
    (s : Store) (q : Queue) (xs : List ℕ) (fresh x : ℕ)
    → Holds s q xs
    → fresh ≢ null
    → s fresh ≡ none
    → suc (length xs) < 2 ^ 32
    → Returns (λ (err, q', g). (err ≡ success) × Holds g q' (xs ++ x ∷ [])) (queue_push s q fresh x)
unfolding queue_push
queue_push_lem s q xs fresh x h ne unused room =
    let n : length h.cells ≡ length xs = sym (length-values h.cells) ∙ ap length h.shown in
    rw (eq→== _ _ h.live) (
      Returns-bind
        (list_push_back_lem s q.vals h.cells fresh x h.list ne
          (not-has-unused s fresh q.vals.head h.cells null h.list.chain unused)
          (omega (arith, n, room)))
        λ (err, l, g) p. returns (
          p.0,
          record {
            live = h.live;
            cells = h.cells ++ (fresh, x) ∷ [];
            list = p.1;
            shown = values-append h.cells ((fresh, x) ∷ []) ∙ ap (λ ys. ys ++ x ∷ []) h.shown;
          },
        ))

-- On a queue that holds a list of values queue_front returns the oldest one, and NULL for an empty
-- queue.
pub queue_front_lem :
    (s : Store) (q : Queue) (xs : List ℕ) → Holds s q xs → queue_front s q ≡ ok (abstract_front xs)
unfolding queue_front abstract_front
queue_front_lem s q xs h =
    rw (eq→== _ _ h.live)
      (list_front_lem s q.vals h.cells h.list ∙ ap ok (first h.cells ∙ ap abstract_front h.shown))

-- On a queue that holds a list of values queue_pop ends, and the queue holds the list without its
-- oldest value; an empty queue stays empty.
pub queue_pop_lem :
    (s : Store) (q : Queue) (xs : List ℕ)
    → Holds s q xs
    → Returns (λ (q', g). Holds g q' (abstract_pop xs)) (queue_pop s q)
unfolding queue_pop abstract_pop
queue_pop_lem s q xs h = rw (eq→== _ _ h.live) (
    Returns-bind (list_pop_front_lem s q.vals h.cells h.list) λ (l, g) p.
      let (ds, is, e) = popped-values s g h.cells l p in
      returns
        (record { live = h.live; cells = ds; list = is; shown = e ∙ ap abstract_pop h.shown }))

-- queue_isempty and queue_getsize agree with the abstract queue.
pub queue_getsize_lem :
    (s : Store) (q : Queue) (xs : List ℕ)
    → Holds s q xs
    → (queue_getsize q ≡ ok (length xs)) × (queue_isempty q ≡ ok (length xs == 0))
unfolding queue_getsize queue_isempty list_getsize list_isempty
queue_getsize_lem s q xs h =
    let n : q.vals.size ≡ length xs =
      h.list.size ∙ sym (length-values h.cells) ∙ ap length h.shown in
    (
      rw (eq→== _ _ h.live, eq→== _ _ h.list.live) (ap ok n),
      rw (eq→== _ _ h.live, eq→== _ _ h.list.live) (ap (λ (k : ℕ). ok (k == 0)) n),
    )
