-- ===== src/Paging/Insertion.antt =====
-- mem/vmm.c: page_insert adds one page to what a directory translates.
use jinx_os.Base.{
  ℕ, ◌/◌, ◌^◌, ◌<◌, ◌≡◌, ◌≢◌, inl, inr, refl, sym, ap, ◌∙◌, subst, Bool, true, false, not, ◌&&◌,
  none, some, arith, ◌==◌, ==→eq, eq→==, ne→==, if◌then◌else◌, Bool-cases, panic, Returns, returns,
  Returns-bind, Returns-eq,
}
use jinx_os.Kernel.{success}
use jinx_os.Bitmap.Bits.{bit}
use jinx_os.Frames.{Physical}
use jinx_os.Paging.{pdx, ptx, set_entry, mapping, page_insert}
use jinx_os.Paging.Directory.{
  at, through, translate, IsDirectory, at-set_entry, length-set_entry, entry_at_lem, assigned_lem,
}
use jinx_os.Paging.Walk.{HasRoom, Walked, pgdir_walk_lem}

-- The entry `ptx va` of table `t` maps `pno`.
module _ (q : Physical) (pd va t pno : ℕ) (write user : Bool) (v : IsDirectory q pd)
    (there : (at q pd (pdx va)).present ≡ true) (points : (at q pd (pdx va)).addr ≡ t) where
  abbrev inserted : Physical
  inserted = set_entry q t (ptx va) (mapping write user pno)

  not_pd : t ≢ pd
  not_pd e = v.table_apart (pdx va) there (points ∙ e)

  inserted_at :
      (a j : ℕ)
      → at inserted a j
        ≡ (if a == t then (if ptx va == j then mapping write user pno else at q t j) else at q a j)
  inserted_at a j =
      at-set_entry q t (ptx va) (mapping write user pno) a j (omega (arith, v.tables t))

  same_directory : (i : ℕ) → at inserted pd i ≡ at q pd i
  same_directory i = inserted_at pd i ∙ rw (ne→== pd t (λ e. not_pd (sym e))) refl

  inserted-IsDirectory : IsDirectory inserted pd
  unfolding set_entry
  inserted-IsDirectory = record {
    valid = v.valid;
    tables = λ a. length-set_entry q t (ptx va) (mapping write user pno) a ∙ v.tables a;
    used = v.used;
    small = v.small;
    table_small = λ i.
        subst (λ e. e.present ≡ true → e.addr < 2 ^ 18) (sym (same_directory i)) (v.table_small i);
    table_used = λ i.
        subst (λ e. e.present ≡ true → bit q.physmap.bytes e.addr ≡ true) (sym (same_directory i))
          (v.table_used i);
    table_apart =
        λ i. subst (λ e. e.present ≡ true → e.addr ≢ pd) (sym (same_directory i)) (v.table_apart i);
    table_own = λ i j.
        subst
          (λ e.
            e.present ≡ true
            → (at inserted pd j).present ≡ true
            → e.addr ≡ (at inserted pd j).addr
            → i ≡ j)
          (sym (same_directory i))
          (subst
            (λ e. (at q pd i).present ≡ true → e.present ≡ true → (at q pd i).addr ≡ e.addr → i ≡ j)
            (sym (same_directory j)) (v.table_own i j));
  }

  inserted_here :
      (i : ℕ)
      → through inserted (at q pd (pdx va)) i
        ≡ (if ptx va == i then some pno else through q (at q pd (pdx va)) i)
  inserted_here i = elim (Bool-cases (ptx va == i)) [
    | inl e ↦ rw (there, points, inserted_at t i, eq→== t t refl, e) refl
    | inr e ↦ rw (there, points, inserted_at t i, eq→== t t refl, e) refl
  ]

  inserted_elsewhere :
      (k i : ℕ) → pdx va ≢ k → through inserted (at q pd k) i ≡ through q (at q pd k) i
  inserted_elsewhere k i h = elim (Bool-cases (at q pd k).present) [
    | inl e ↦
        let apart : (at q pd k).addr ≢ t =
          λ same. h (v.table_own (pdx va) k there e (points ∙ sym same)) in
        rw (inserted_at (at q pd k).addr i, ne→== (at q pd k).addr t apart) refl
    | inr e ↦ rw e refl
  ]

  -- The page of `va` leads to `pno`, any other page to where it led.
  inserted-through :
      (k i : ℕ)
      → through inserted (at inserted pd k) i
        ≡ (if (pdx va == k) && (ptx va == i) then some pno else through q (at q pd k) i)
  inserted-through k i =
      subst
        (λ e.
          through inserted e i
          ≡ (if (pdx va == k) && (ptx va == i) then some pno else through q (at q pd k) i))
        (sym (same_directory k))
        (elim (Bool-cases (pdx va == k)) [
          | inl e ↦
              subst
                (λ j.
                  through inserted (at q pd j) i
                  ≡ (if (pdx va == j) && (ptx va == i) then some pno else through q (at q pd j) i))
                (==→eq (pdx va) k e) (rw (eq→== (pdx va) (pdx va) refl) (inserted_here i))
          | inr e ↦ rw e (inserted_elsewhere k i (λ same. absurd (cc (eq→== (pdx va) k same, e))))
        ])

-- Two addresses are in the same page.
abbrev pub same_page : ℕ → ℕ → Bool
same_page a b = a / 2 ^ 12 == b / 2 ^ 12

page_indices :
    (a b : ℕ) → a < 2 ^ 32 → b < 2 ^ 32 → ((pdx a == pdx b) && (ptx a == ptx b)) ≡ same_page a b
page_indices a b h k = ground arith

-- The directory behind page_insert.
pub record Inserted (p : Physical) (pd va pno : ℕ) (r : ℕ × Physical) : Type 0 where
  pub succeeds : r.0 ≡ success
  pub inv : IsDirectory r.1 pd
  pub maps :
      (va' : ℕ)
      → va' < 2 ^ 32
      → translate r.1 pd va' ≡ (if same_page va va' then some pno else translate p pd va')

module _ (p : Physical) (pd va pno : ℕ) (write user : Bool) (v : IsDirectory p pd)
    (room : HasRoom p) where
  entry_unused :
      (r : ℕ × ℕ × Physical)
      → Walked p pd va r
      → translate p pd va ≡ none
      → (at r.2 r.0 (ptx va)).present ≡ false
  unfolding translate
  entry_unused r w e = elim (Bool-cases (at r.2 r.0 (ptx va)).present) [
    | inl on ↦
        let leads : through r.2 (at r.2 pd (pdx va)) (ptx va) ≡ some (at r.2 r.0 (ptx va)).addr =
          rw (w.there, w.points, on) refl in
        absurd (cc (leads, w.same va, e))
    | inr off ↦ off
  ]

  entry_taken :
      (r : ℕ × ℕ × Physical)
      → Walked p pd va r
      → (frame : ℕ) → translate p pd va ≡ some frame
      → (at r.2 r.0 (ptx va)).present ≡ true
  unfolding translate
  entry_taken r w frame e = elim (Bool-cases (at r.2 r.0 (ptx va)).present) [
    | inl on ↦ on
    | inr off ↦
        let leads : through r.2 (at r.2 pd (pdx va)) (ptx va) ≡ none =
          rw (w.there, w.points, off) refl in
        absurd (cc (leads, w.same va, e))
  ]

  maps_to :
      (r : ℕ × ℕ × Physical) (w : Walked p pd va r)
      → va < 2 ^ 32
      → (va' : ℕ) → va' < 2 ^ 32
      → translate (inserted r.2 pd va r.0 pno write user w.inv w.there w.points) pd va'
        ≡ (if same_page va va' then some pno else translate p pd va')
  unfolding translate
  maps_to r w small va' small' =
      inserted-through r.2 pd va r.0 pno write user w.inv w.there w.points (pdx va') (ptx va')
      ∙ rw (page_indices va va' small small', w.same va') refl

  -- page_insert, where a frame is free, of a frame below 2 ^ 20 at a page that the directory does not
  -- translate, of at most 2 ^ 18 frames in all, succeeds: the page
  -- is translated to the frame then, every other page as before, and the directory is in order.
  pub page_insert_lem :
      va < 2 ^ 32
      → pno < 2 ^ 20
      → translate p pd va ≡ none
      → Returns (Inserted p pd va pno) (page_insert p pd pno va write user)
  unfolding page_insert
  page_insert_lem small fits unused =
      Returns-bind (pgdir_walk_lem p pd va v write user room) (λ r w.
        rw
          (
            w.index,
            entry_at_lem r.2 r.0 (ptx va) (w.inv.tables r.0) (omega arith),
            ap not (entry_unused r w unused),
            assigned_lem write user pno fits,
          )
          (returns (record {
            succeeds = refl;
            inv = inserted-IsDirectory r.2 pd va r.0 pno write user w.inv w.there w.points;
            maps = λ va' small'. maps_to r w small va' small';
          })))

  -- page_insert stops the kernel at a page that is translated already.
  pub page_insert_twice :
      (frame : ℕ) → translate p pd va ≡ some frame → page_insert p pd pno va write user ≡ panic
  unfolding page_insert
  page_insert_twice frame mapped =
      let (r, run, w) = Returns-eq (pgdir_walk_lem p pd va v write user room) in
      rw
        (
          run,
          w.index,
          entry_at_lem r.2 r.0 (ptx va) (w.inv.tables r.0) (omega arith),
          ap not (entry_taken r w frame mapped),
        )
        refl
