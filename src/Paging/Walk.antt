-- ===== src/Paging/Walk.antt =====
-- mem/vmm.c: pgdir_walk makes the table that an entry stands in.
use jinx_os.Base.{
  ℕ, ◌<◌, ◌≤◌, ◌^◌, ◌≡◌, ◌≢◌, inl, inr, refl, sym, ap, ◌∙◌, subst, Bool, true, false, not, arith,
  ◌==◌, ==→eq, eq→==, ne→==, if◌then◌else◌, Bool-cases, ok, ◌>>=◌, Returns, returns, Returns-bind,
}
use jinx_os.Bitmap.{Bitmap}
use jinx_os.Bitmap.Bits.{bit}
use jinx_os.Bitmap.Marks.{IsValid, Changed}
use jinx_os.Bitmap.Alloc.{bitmap_alloc_lem}
use jinx_os.Frames.{Entry, empty_entry, Physical, clear_frame, pm2va, pp_alloc}
use jinx_os.Paging.{pdx, ptx, set_entry, mapping, assigned, pgdir_walk}
use jinx_os.Paging.Directory.{
  at, through, translate, IsDirectory, at-set_entry, length-set_entry, at-clear_frame,
  length-clear_frame, entry_at_lem, pm2va_lem, assigned_lem,
}

-- Some frame is not in use.
abbrev pub HasRoom : Physical → Type 0
HasRoom p = (j : ℕ) × (j < p.physmap.bits) × (bit p.physmap.bytes j ≡ false)

-- A frame of zeros that was not in use, and is now; all else is as it was.
pub record Allotted (p : Physical) (r : ℕ × Physical) : Type 0 where
  pub map : Bitmap
  pub is : r.1 ≡ record p { physmap = map; frames = clear_frame p.frames r.0 }
  pub fresh : bit p.physmap.bytes r.0 ≡ false
  pub in_range : r.0 < p.physmap.bits
  pub taken : Changed p.physmap r.0 true map

-- pp_alloc with a free frame, of at most 2 ^ 18 frames in all, returns a frame that was not in use and
-- is zeroed, marks it and no other, and leaves what stands in the others.
pub pp_alloc_lem :
    (p : Physical)
    → IsValid p.physmap
    → p.physmap.bits ≤ 2 ^ 18
    → HasRoom p
    → Returns (Allotted p) (pp_alloc p)
unfolding pp_alloc
pp_alloc_lem p v few (j, below, free) = Returns-bind (bitmap_alloc_lem p.physmap v) (λ r a. elim a [
  | inl found ↦
      rw (found.2, found.1, pm2va_lem found.0 (omega (arith, found.3, few)))
        (returns
          (record { map = r.2; is = refl; fresh = found.4; in_range = found.3; taken = found.6 }))
  | inr full ↦ absurd (cc (full.3 j below, free))
])

-- What pgdir_walk comes to: the directory has a table for the page, and translates as before.
pub record Walked (p : Physical) (pd va : ℕ) (r : ℕ × ℕ × Physical) : Type 0 where
  pub inv : IsDirectory r.2 pd
  pub index : r.1 ≡ ptx va
  pub there : (at r.2 pd (pdx va)).present ≡ true
  pub points : (at r.2 pd (pdx va)).addr ≡ r.0
  pub same : (va' : ℕ) → translate r.2 pd va' ≡ translate p pd va'

module _ (p : Physical) (pd va : ℕ) (v : IsDirectory p pd) (write user : Bool) where
  walk_present :
      (at p pd (pdx va)).present ≡ true
      → Returns (Walked p pd va) (pgdir_walk p pd va write user true)
  unfolding pgdir_walk
  walk_present there =
      rw
        (
          entry_at_lem p pd (pdx va) (v.tables pd) (omega arith),
          ap not there,
          pm2va_lem _ (v.table_small (pdx va) there),
        )
        (returns
          (record { inv = v; index = refl; there = there; points = refl; same = λ va'. refl }))

  -- A new table.
  module _ (absent : (at p pd (pdx va)).present ≡ false) (r : ℕ × Physical)
      (new : Allotted p r) where
    abbrev cleared : Physical
    cleared = record p { physmap = new.map; frames = clear_frame p.frames r.0 }

    abbrev made : Physical
    made = set_entry cleared pd (pdx va) (mapping write user r.0)

    not_pd : r.0 ≢ pd
    not_pd e = absurd (cc (ap (bit p.physmap.bytes) e, new.fresh, v.used))

    not_table : (i : ℕ) → (at p pd i).present ≡ true → (at p pd i).addr ≢ r.0
    not_table i there e = absurd (cc (ap (bit p.physmap.bytes) e, new.fresh, v.table_used i there))

    made_at :
        (a j : ℕ)
        → at made a j ≡ (
            if a == pd
            then (if pdx va == j then mapping write user r.0 else at p pd j)
            else if a == r.0
            then empty_entry
            else at p a j)
    made_at a j =
        at-set_entry cleared pd (pdx va) (mapping write user r.0) a j
          (omega (arith, length-clear_frame p.frames r.0 pd (v.tables pd)))
        ∙ rw
            (
              at-clear_frame p new.map r.0 pd j,
              at-clear_frame p new.map r.0 a j,
              ne→== pd r.0 (λ e. not_pd (sym e)),
            )
            refl

    made_here : at made pd (pdx va) ≡ mapping write user r.0
    made_here = made_at pd (pdx va) ∙ rw (eq→== pd pd refl, eq→== (pdx va) (pdx va) refl) refl

    made_there : (i : ℕ) → pdx va ≢ i → at made pd i ≡ at p pd i
    made_there i h = made_at pd i ∙ rw (eq→== pd pd refl, ne→== (pdx va) i h) refl

    made_other : (a j : ℕ) → a ≢ pd → a ≢ r.0 → at made a j ≡ at p a j
    made_other a j h k = made_at a j ∙ rw (ne→== a pd h, ne→== a r.0 k) refl

    made_new : (j : ℕ) → at made r.0 j ≡ empty_entry
    made_new j = made_at r.0 j ∙ rw (ne→== r.0 pd not_pd, eq→== r.0 r.0 refl) refl

    -- An entry of the directory is the new one, or an old one that is left as it was.
    by_entry {ℓ} :
        (P : ℕ → Entry → Type ℓ) (i : ℕ)
        → P (pdx va) (mapping write user r.0)
        → (pdx va ≢ i → P i (at p pd i))
        → P i (at made pd i)
    by_entry P i new_one old = elim (Bool-cases (pdx va == i)) [
      | inl e ↦
          subst (λ k. P k (at made pd k)) (==→eq (pdx va) i e)
            (subst (P (pdx va)) (sym made_here) new_one)
      | inr e ↦
          let h : pdx va ≢ i = λ same. absurd (cc (eq→== (pdx va) i same, e)) in
          subst (P i) (sym (made_there i h)) (old h)
    ]

    still_used : (a : ℕ) → bit p.physmap.bytes a ≡ true → bit new.map.bytes a ≡ true
    still_used a h = ground (arith, new.taken.bits a, h)

    made-IsDirectory : IsDirectory made pd
    unfolding set_entry
    made-IsDirectory = record {
      valid = new.taken.valid;
      tables = λ a.
          length-set_entry cleared pd (pdx va) (mapping write user r.0) a
          ∙ length-clear_frame p.frames r.0 a (v.tables a);
      used = still_used pd v.used;
      small = omega (arith, v.small, new.taken.size);
      table_small = λ i.
          by_entry (λ k e. e.present ≡ true → e.addr < 2 ^ 18) i
            (λ there. omega (arith, new.in_range, v.small)) (λ h. v.table_small i);
      table_used = λ i.
          by_entry (λ k e. e.present ≡ true → bit new.map.bytes e.addr ≡ true) i
            (λ there. ground (arith, new.taken.bits r.0))
            (λ h there. still_used (at p pd i).addr (v.table_used i there));
      table_apart = λ i.
          by_entry (λ k e. e.present ≡ true → e.addr ≢ pd) i (λ there. not_pd)
            (λ h. v.table_apart i);
      table_own = λ i j.
          by_entry
            (λ k e.
              e.present ≡ true
              → (at made pd j).present ≡ true
              → e.addr ≡ (at made pd j).addr
              → k ≡ j)
            i
            (by_entry (λ k e. true ≡ true → e.present ≡ true → r.0 ≡ e.addr → pdx va ≡ k) j
              (λ a b c. refl) (λ h a b c. absurd (not_table j b (sym c))))
            (λ h.
              by_entry
                (λ k e.
                  (at p pd i).present ≡ true → e.present ≡ true → (at p pd i).addr ≡ e.addr → i ≡ k)
                j (λ a b c. absurd (not_table i a c)) (λ h' a b c. v.table_own i j a b c));
    }

    made_same : (va' : ℕ) → translate made pd va' ≡ translate p pd va'
    unfolding translate
    made_same va' =
        by_entry (λ k e. through made e (ptx va') ≡ through p (at p pd k) (ptx va')) (pdx va')
          (rw (made_new (ptx va'), absent) refl)
          (λ h. elim (Bool-cases (at p pd (pdx va')).present) [
            | inl e ↦
                rw
                  (made_other (at p pd (pdx va')).addr (ptx va') (v.table_apart (pdx va') e)
                    (not_table (pdx va') e))
                  refl
            | inr e ↦ rw e refl
          ])

  fits' : (r : ℕ × Physical) → Allotted p r → r.0 < 2 ^ 18
  fits' r new = omega (arith, new.in_range, v.small)

  fits : (r : ℕ × Physical) → Allotted p r → r.0 < 2 ^ 20
  fits r new = omega (arith, new.in_range, v.small)

  walk_absent :
      HasRoom p
      → (at p pd (pdx va)).present ≡ false
      → Returns (Walked p pd va) (pgdir_walk p pd va write user true)
  unfolding pgdir_walk
  walk_absent room absent =
      rw (entry_at_lem p pd (pdx va) (v.tables pd) (omega arith), ap not absent)
        (Returns-bind (pp_alloc_lem p v.valid v.small room) (λ r new.
          subst
            (λ q. Returns (Walked p pd va) (do
              table ← pm2va (assigned write user r.0).addr
              ok (table, ptx va, set_entry q pd (pdx va) (assigned write user r.0))))
            (sym new.is)
            (rw (assigned_lem write user r.0 (fits r new), pm2va_lem r.0 (fits' r new))
              (returns (record {
                inv = made-IsDirectory absent r new;
                index = refl;
                there = ap (λ e. e.present) (made_here absent r new);
                points = ap (λ e. e.addr) (made_here absent r new);
                same = made_same absent r new;
              })))))

  -- pgdir_walk that may allocate, with a free frame, returns the place of the page's entry in a table of its
  -- own; it keeps the directory in order and changes no translation.
  pub pgdir_walk_lem : HasRoom p → Returns (Walked p pd va) (pgdir_walk p pd va write user true)
  pgdir_walk_lem room = elim (Bool-cases (at p pd (pdx va)).present) [
    | inl there ↦ walk_present there
    | inr absent ↦ walk_absent room absent
  ]
