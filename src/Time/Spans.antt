-- ===== src/Time/Spans.antt =====
-- klib/time.c: milliseconds and the parts of a span of time.
use jinx_os.Base.{
  ℕ, ◌+◌, ◌-◌, ◌*◌, ◌/◌, ◌%◌, ◌^◌, ◌<◌, ◌≡◌, sym, ap, subst, ◌∙◌, arith, ltb, inl, inr, Bool-cases,
  ltb→lt,
}
use jinx_os.Kernel.{wrap}
use jinx_os.Time.{Time, msec2time, time2msec, time_diff}

-- Every part but the hours is below the next one's unit.
pub record IsNormal (t : Time) : Type 0 where
  pub msec : t.msec < 1000
  pub sec : t.sec < 60
  pub min : t.min < 60

-- The milliseconds of a span, without wrap-around.
abbrev pub total : Time → ℕ
total t = ((t.hr * 60 + t.min) * 60 + t.sec) * 1000 + t.msec

-- The tests of msec2time only leave out divisions of 0.
msec2time_lem :
    (m : ℕ)
    → msec2time m ≡ record {
      msec = m % 1000;
      sec = m / 1000 % 60;
      min = m / 1000 / 60 % 60;
      hr = m / 1000 / 60 / 60;
    }
unfolding msec2time
msec2time_lem m = ground arith

pub msec2time-IsNormal : (m : ℕ) → IsNormal (msec2time m)
msec2time-IsNormal m =
    rw (msec2time_lem m) (record { msec = omega arith; sec = omega arith; min = omega arith })

-- Milliseconds below 2 ^ 32, split by msec2time, come back from time2msec.
pub time2msec-msec2time : (m : ℕ) → m < 2 ^ 32 → time2msec (msec2time m) ≡ m
unfolding time2msec
time2msec-msec2time m h = rw (msec2time_lem m) (omega arith)

-- A span in normal form below 2 ^ 32 milliseconds comes back part for part.
pub msec2time-time2msec : (t : Time) → IsNormal t → total t < 2 ^ 32 → msec2time (time2msec t) ≡ t
unfolding time2msec
msec2time-time2msec t v h =
    let m = time2msec t in
    let parts = msec2time_lem m in
    let ms : m % 1000 ≡ t.msec = omega (arith, v.msec, h) in
    let ss : m / 1000 % 60 ≡ t.sec = omega (arith, v.msec, v.sec, h) in
    let ns : m / 1000 / 60 % 60 ≡ t.min = omega (arith, v.msec, v.sec, v.min, h) in
    let hs : m / 1000 / 60 / 60 ≡ t.hr = omega (arith, v.msec, v.sec, v.min, h) in
    parts ∙ (λ i. record { msec = ms i; sec = ss i; min = ns i; hr = hs i })

abbrev distance : ℕ → ℕ → ℕ
distance a b = (a - b) + (b - a)

time2msec-lt : (t : Time) → time2msec t < 2 ^ 32
unfolding time2msec
time2msec-lt t = omega arith

time_diff-distance : (a b : Time) → time_diff a b ≡ msec2time (distance (time2msec a) (time2msec b))
unfolding time_diff
time_diff-distance a b =
    let x = time2msec a in
    let y = time2msec b in
    let hx = time2msec-lt a in
    let hy = time2msec-lt b in
    elim (Bool-cases (ltb x y)) [
      | inl e ↦ rw e (
          ap msec2time {x = wrap (y + 2 ^ 32 - x)} {y = distance x y} (omega (arith, ltb→lt x y e)))
      | inr e ↦ rw e (ap msec2time {x = wrap (x + 2 ^ 32 - y)} {y = distance x y} (ground arith))
    ]

-- For all spans time_diff is the distance of their milliseconds, in normal form, and the same
-- whichever is given first.
pub time_diff_lem :
    (a b : Time)
    → (time2msec (time_diff a b) ≡ (time2msec a - time2msec b) + (time2msec b - time2msec a))
      × IsNormal (time_diff a b)
      × (time_diff a b ≡ time_diff b a)
time_diff_lem a b =
    let hx = time2msec-lt a in
    let hy = time2msec-lt b in
    let d = distance (time2msec a) (time2msec b) in
    (
      ap time2msec (time_diff-distance a b) ∙ time2msec-msec2time d (omega arith),
      subst IsNormal (sym (time_diff-distance a b)) (msec2time-IsNormal d),
      time_diff-distance a b
          ∙ ap msec2time {x = d} {y = distance (time2msec b) (time2msec a)} (omega arith)
          ∙ sym (time_diff-distance b a),
    )
