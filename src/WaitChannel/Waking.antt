-- ===== src/WaitChannel/Waking.antt =====
-- synch/wchan.c: whom a wake-up wakes.
use jinx_os.Base.{
  ℕ, ◌≡◌, refl, sym, ap, ◌∙◌, Bool, ◌&&◌, true, false, List, [], ◌∷◌, ◌++◌, append-nil,
  append_assoc, ok,
}
use jinx_os.Spinlock.{Machine, Spinlock, spinlock_held}
use jinx_os.WaitChannel.{run_queue_round, wchan_wakeone, wchan_wakeall, move_threads, wake_threads}

-- The first sleeper, if there is one, goes to the tail of the run queue.
abbrev pub woken : List ℕ → List ℕ → List ℕ × List ℕ
woken [] runnable = ([], runnable)
woken (target ∷ rest) runnable = (rest, runnable ++ target ∷ [])

-- The processor after a wake-up: `iflag` is written over where there was a sleeper.
abbrev is_empty : List ℕ → Bool
is_empty [] = true
is_empty (t ∷ rest) = false

abbrev pub stirred : Machine → List ℕ → Machine
stirred m threads = record m { iflag = is_empty threads && m.iflag }

pub wchan_wakeone_lem :
    (m : Machine) (lk : Spinlock) (threads runnable : List ℕ)
    → spinlock_held m lk ≡ true
    → wchan_wakeone m lk threads runnable
      ≡ ok (stirred m threads, (woken threads runnable).0, (woken threads runnable).1)
unfolding wchan_wakeone run_queue_round
wchan_wakeone_lem m lk [] runnable h = rw h refl
wchan_wakeone_lem m lk (t ∷ rest) runnable h = rw h refl

without_iflag : (m : Machine) → m.iflag ≡ false → record m { iflag = false } ≡ m
without_iflag m off = ap (λ b. record m { iflag = b }) (sym off)

-- Where `iflag` is false already, as in a section inside another.
pub wchan_wakeone_masked :
    (m : Machine) (lk : Spinlock) (threads runnable : List ℕ)
    → m.iflag ≡ false
    → spinlock_held m lk ≡ true
    → wchan_wakeone m lk threads runnable
      ≡ ok (m, (woken threads runnable).0, (woken threads runnable).1)
unfolding wchan_wakeone run_queue_round
wchan_wakeone_masked m lk [] runnable off h = rw h refl
wchan_wakeone_masked m lk (t ∷ rest) runnable off h =
    rw h (ap (λ x. ok (x, rest, runnable ++ t ∷ [])) (without_iflag m off))

wake_threads_lem :
    (m : Machine) (from to : List ℕ) → m.iflag ≡ false → wake_threads m from to ≡ (m, to ++ from)
unfolding wake_threads run_queue_round
wake_threads_lem m [] to off = ap (λ l. (m, l)) (sym (append-nil to))
wake_threads_lem m (t ∷ from) to off =
    wake_threads_lem (record m { iflag = false }) from (to ++ t ∷ []) refl
    ∙ ap (λ x. (x, (to ++ t ∷ []) ++ from)) (without_iflag m off)
    ∙ ap (λ l. (m, l)) (append_assoc to (t ∷ []) from)

move_threads_lem : (from to : List ℕ) → move_threads from to ≡ to ++ from
unfolding move_threads
move_threads_lem [] to = sym (append-nil to)
move_threads_lem (t ∷ from) to =
    move_threads_lem from (to ++ t ∷ []) ∙ append_assoc to (t ∷ []) from

-- wchan_wakeall, under the channel's spinlock and with `iflag` false, empties the channel and puts its threads behind the
-- run queue in the order in which they went to sleep.
pub wchan_wakeall_lem :
    (m : Machine) (lk : Spinlock) (threads runnable : List ℕ)
    → m.iflag ≡ false
    → spinlock_held m lk ≡ true
    → wchan_wakeall m lk threads runnable ≡ ok (m, [], runnable ++ threads)
unfolding wchan_wakeall
wchan_wakeall_lem m lk threads runnable off h =
    rw (h, move_threads_lem threads [], wake_threads_lem m threads runnable off) refl
