-- ===== src/Print/Bounds.antt =====
-- klib/snprintf.c: vsnprintf stays within its buffer.
use jinx_os.Base.{
  ℕ, zero, suc, ◌+◌, ◌-◌, ◌^◌, ◌≤◌, ◌<◌, ◌≡◌, ◌≢◌, refl, ap, ◌∙◌, Bool-cases, inl, inr, some, List,
  [], ◌∷◌, arith, ltb, lt→ltb, le→ltb, ltb→lt, ◌==◌, ne→==, if◌then◌else◌, length, length-set, set,
  get_elem?, get_elem?-set, ok, Returns, returns, Returns-mono, Returns-bind,
}
use jinx_os.Kernel.{null, store}
use jinx_os.Print.Format.{Arg, vsnprintfmt, vsnprintf}
use jinx_os.Print.{SprintBuf, sprintputch, put_all}

-- What `b` becomes by the characters of `text`: each goes to the next byte, as long as one is left
-- before `ebuf`, all are counted, and no other byte is touched.
pub record Filled (b : SprintBuf) (text : List ℕ) (b' : SprintBuf) : Type 0 where
  pub same_end : b'.ebuf ≡ b.ebuf
  pub within : (b.buf ≤ b'.buf) × (b'.buf ≤ b.ebuf)
  pub counted : b'.cnt ≡ b.cnt + length text
  pub same_length : length b'.memory ≡ length b.memory
  pub moved : b'.buf ≡ (if ltb (b.buf + length text) b.ebuf then b.buf + length text else b.ebuf)
  pub bytes :
      (i : ℕ)
      → get_elem? b'.memory i ≡ (
          if ltb i b.buf
          then get_elem? b.memory i
          else if ltb i b'.buf
          then get_elem? text (i - b.buf)
          else get_elem? b.memory i)

pub record IsOpen (b : SprintBuf) : Type 0 where
  pub ordered : b.buf ≤ b.ebuf
  pub inside : b.ebuf < length b.memory

-- A character is written, or only counted.
abbrev written : ℕ → SprintBuf → SprintBuf
written c b = record b { memory = set b.memory b.buf c; buf = b.buf + 1; cnt = b.cnt + 1 }

abbrev dropped : SprintBuf → SprintBuf
dropped b = record b { cnt = b.cnt + 1 }

module _ (c : ℕ) (b : SprintBuf) (o : IsOpen b) (room : b.cnt + 1 < 2 ^ 31) where
  sprintputch_write : b.buf < b.ebuf → sprintputch c b ≡ ok (written c b)
  unfolding sprintputch store
  sprintputch_write h =
      rw
        (
          lt→ltb (b.cnt + 1) (2 ^ 31) room,
          lt→ltb b.buf b.ebuf h,
          lt→ltb b.buf (length b.memory) (omega (arith, o, h)),
        )
        refl

  sprintputch_drop : b.ebuf ≤ b.buf → sprintputch c b ≡ ok (dropped b)
  unfolding sprintputch
  sprintputch_drop h = rw (lt→ltb (b.cnt + 1) (2 ^ 31) room, le→ltb b.buf b.ebuf h) refl

cons_at :
    (c : ℕ) (text : List ℕ) (k : ℕ)
    → get_elem? (c ∷ text) k ≡ (if k == 0 then some c else get_elem? text (k - 1))
cons_at c text zero = ground arith
cons_at c text (suc k) = ground arith

module _ (c : ℕ) (text : List ℕ) (b b' : SprintBuf) (o : IsOpen b) where
  Filled-written : b.buf < b.ebuf → Filled (written c b) text b' → Filled b (c ∷ text) b'
  Filled-written h f = record {
    same_end = f.same_end;
    within = (omega (arith, f.within.0), f.within.1);
    counted = omega (arith, f.counted);
    same_length = f.same_length ∙ length-set b.memory b.buf c;
    moved = ground (arith, f.moved);
    bytes = λ i. ground (
      arith,
      h,
      f.within.0,
      f.bytes i,
      get_elem?-set b.memory b.buf c i (omega (arith, o, h)),
      cons_at c text (i - b.buf),
      ap (get_elem? text) {x = i - b.buf - 1} {y = i - (b.buf + 1)} (omega arith),
    );
  }

  Filled-dropped : b.ebuf ≤ b.buf → Filled (dropped b) text b' → Filled b (c ∷ text) b'
  Filled-dropped h f = record {
    same_end = f.same_end;
    within = f.within;
    counted = omega (arith, f.counted);
    same_length = f.same_length;
    moved = ground (arith, f.moved);
    bytes = λ i. ground (arith, h, f.within, f.bytes i);
  }

put_all_lem :
    (text : List ℕ) (b : SprintBuf)
    → IsOpen b
    → b.cnt + length text < 2 ^ 31
    → Returns (Filled b text) (put_all sprintputch text b)
unfolding put_all
put_all_lem [] b o room = returns (record {
  same_end = refl;
  within = (omega arith, o.ordered);
  counted = omega arith;
  same_length = refl;
  moved = ground (arith, o);
  bytes = λ i. ground arith;
})
put_all_lem (c ∷ text) b o room = elim (Bool-cases (ltb b.buf b.ebuf)) [
  | inl e ↦
      let h = ltb→lt b.buf b.ebuf e in
      let o' : IsOpen (written c b) = record {
        ordered = omega (arith, h);
        inside = omega (arith, o, length-set b.memory b.buf c);
      } in
      rw (sprintputch_write c b o (omega (arith, room)) h) (
        Returns-mono (put_all_lem text (written c b) o' (omega (arith, room)))
          (λ b' f. Filled-written c text b b' o h f))
  | inr e ↦
      let h : b.ebuf ≤ b.buf = ground (arith, e) in
      rw (sprintputch_drop c b o (omega (arith, room)) h) (
        Returns-mono
          (put_all_lem text (dropped b) (record { ordered = o.ordered; inside = o.inside })
            (omega (arith, room)))
          (λ b' f. Filled-dropped c text b b' o h f))
]

-- The block behind vsnprintf: in the `n` bytes from `buf` the first characters, n - 1 of them at most,
-- and a NUL; the rest of the block is as it was.
pub record Printed (memory : List ℕ) (buf n : ℕ) (text : List ℕ) (r : ℕ × List ℕ) : Type 0 where
  pub count : r.0 ≡ length text
  pub size : length r.1 ≡ length memory
  pub bytes :
      (i : ℕ)
      → get_elem? r.1 i ≡ (
          if ltb i buf
          then get_elem? memory i
          else if ltb i (buf + (if ltb (length text) n then length text else n - 1))
          then get_elem? text (i - buf)
          else if i == buf + (if ltb (length text) n then length text else n - 1)
          then some 0
          else get_elem? memory i)

-- vsnprintf with a buffer of at least one byte, and a format that puts the characters of `text`,
-- returns the number of them all, also of those that did not fit, has put a NUL behind those that
-- did, and has touched no byte outside its buffer.
pub vsnprintf_lem :
    (memory : List ℕ) (buf n : ℕ) (fmt : List ℕ) (args : List Arg) (text : List ℕ)
    → buf ≢ null
    → 0 < n
    → buf + n ≤ length memory
    → length text < 2 ^ 31
    → ((b : SprintBuf) → vsnprintfmt sprintputch fmt args b ≡ put_all sprintputch text b)
    → Returns (Printed memory buf n text) (vsnprintf memory buf n fmt args)
unfolding vsnprintf store
vsnprintf_lem memory buf n fmt args text real some_room fits short puts =
    let start : SprintBuf = record { memory = memory; buf = buf; ebuf = buf + n - 1; cnt = 0 } in
    let o : IsOpen start = record { ordered = omega arith; inside = omega arith } in
    rw (ne→== buf null real, le→ltb n 1 (omega arith), puts start)
      (Returns-bind (put_all_lem text start o (omega arith)) (λ b f.
        rw (lt→ltb b.buf (length b.memory) (omega (arith, f.same_length, f.within))) (
          returns (record {
            count = omega (arith, f.counted);
            size = length-set b.memory b.buf 0 ∙ f.same_length;
            bytes = λ i. ground (
              arith,
              f.moved,
              f.bytes i,
              get_elem?-set b.memory b.buf 0 i (omega (arith, f.same_length, f.within)),
            );
          }))))
