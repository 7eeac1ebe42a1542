-- ===== src/Time/Creation.antt =====
-- klib/time.c: how timer_create picks a slot of the table, and what it returns without one.
use jinx_os.Base.{
  ℕ, suc, ◌+◌, ◌<◌, ◌≡◌, ◌⊎◌, inl, inr, refl, ap, subst, ◌∙◌, Bool, true, false, none, some, [],
  ◌∷◌, arith, get_elem?, set, length, panic, zero,
}
use jinx_os.Kernel.{entimer, kmalloc_ok}
use jinx_os.Time.{Timer, Timers, ntimers, free_timer, timer_create, timer_at, timer_start}
use jinx_os.Time.Timing.{Holds, get_elem?-lt}

-- free_timer finds the first empty slot, or there is none.
free_timer-cases :
    (timers : Timers) (base : ℕ)
    → ((i : ℕ) × (free_timer timers base ≡ some (base + i))
        × (get_elem? timers i ≡ some none)
        × ((j : ℕ) → j < i → (t : Timer) × Holds timers j t))
      ⊎ ((free_timer timers base ≡ none)
          × ((j : ℕ) → j < length timers → (t : Timer) × Holds timers j t))
unfolding free_timer
free_timer-cases [] base = inr (refl, λ j h. absurd (omega arith))
free_timer-cases (none ∷ rest) base =
    inl (0, ap some (omega arith), refl, λ j h. absurd (omega arith))
free_timer-cases (some t ∷ rest) base = elim (free_timer-cases rest (base + 1)) [
  | inl (i, found, empty, before) ↦ inl (
    suc i,
    found ∙ ap some (omega arith),
    empty,
    λ j h.
        elim j as (λ j. j < suc i → (t' : Timer) × Holds (some t ∷ rest) j t') [
          | zero ↦ λ k. (t, refl)
          | suc m ↦ λ k. before m (omega arith)
        ]
          h,
  )
  | inr (found, full) ↦ inr (
    found,
    λ j h.
        elim j as (λ j. j < length (some t ∷ rest) → (t' : Timer) × Holds (some t ∷ rest) j t') [
          | zero ↦ λ k. (t, refl)
          | suc m ↦ λ k. full m (omega arith)
        ]
          h,
  )
]

first_free :
    (timers : Timers)
    → ((i : ℕ) × (free_timer timers 0 ≡ some i)
        × (get_elem? timers i ≡ some none)
        × ((j : ℕ) → j < i → (t : Timer) × Holds timers j t))
      ⊎ ((free_timer timers 0 ≡ none)
          × ((j : ℕ) → j < length timers → (t : Timer) × Holds timers j t))
first_free timers = elim (free_timer-cases timers 0) [
  | inl (i, found, empty, before) ↦ inl (i, found ∙ ap some (omega arith), empty, before)
  | inr r ↦ inr r
]

-- With memory at hand timer_create puts a new idle timer in the first empty slot and returns its
-- number, or it returns ENTIMER with nothing changed, and then every slot is in use.
pub timer_create_lem :
    (granted : ℕ → Bool) (timers : Timers)
    → kmalloc_ok granted 12 ≡ true
    → ((i : ℕ) × (get_elem? timers i ≡ some none)
        × ((j : ℕ) → j < i → (t : Timer) × Holds timers j t)
        × (timer_create granted timers ≡ (
          i,
          set timers i (some (record { start_ticks = 0; stop_ticks = 0; active = false })),
        )))
      ⊎ (((j : ℕ) → j < length timers → (t : Timer) × Holds timers j t)
          × (timer_create granted timers ≡ (entimer, timers)))
unfolding timer_create
timer_create_lem granted timers given = elim (first_free timers) [
  | inl (i, found, empty, before) ↦ inl (i, empty, before, rw (timer_create, found, given) refl)
  | inr (found, full) ↦ inr (full, rw (timer_create, found) refl)
]

-- With all 128 timers in use, the error number that timer_create returns is a timer in use.
pub timer_create_ambiguous :
    (granted : ℕ → Bool) (timers : Timers)
    → length timers ≡ ntimers
    → ((j : ℕ) → j < length timers → (t : Timer) × Holds timers j t)
    → (t : Timer) × Holds timers (timer_create granted timers).0 t
unfolding timer_create
timer_create_ambiguous granted timers size full = elim (first_free timers) [
  | inl (i, found, empty, before) ↦
      let (t, used) = full i (get_elem?-lt timers i none empty) in absurd (cc (used, empty))
  | inr (found, all) ↦ rw (timer_create, found) (full entimer (omega arith))
]

-- Without memory timer_create returns the number of an empty slot as if it had made a timer, and
-- starting that timer stops the kernel.
pub timer_create_no_memory :
    (granted : ℕ → Bool) (timers : Timers) (i now : ℕ)
    → kmalloc_ok granted 12 ≡ false
    → free_timer timers 0 ≡ some i
    → (timer_create granted timers ≡ (i, timers)) × (timer_start timers now i ≡ panic)
unfolding timer_create timer_start timer_at
timer_create_no_memory granted timers i now refused first = elim (first_free timers) [
  | inl (k, found, empty, before) ↦
      let same : k ≡ i = cc (found, first) in
      let at : get_elem? timers i ≡ some none =
        subst (λ x. get_elem? timers x ≡ some none) same empty in
      (rw (timer_create, first, refused) refl, rw at refl)
  | inr (found, all) ↦ absurd (cc (found, first))
]
