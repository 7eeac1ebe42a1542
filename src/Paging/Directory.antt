-- ===== src/Paging/Directory.antt =====
-- mem/vmm.c: a page directory as a map from pages to frames.
use jinx_os.Base.{
  ℕ, zero, suc, ◌+◌, ◌-◌, ◌*◌, ◌/◌, ◌%◌, ◌^◌, ◌<◌, ◌≤◌, ◌≡◌, ◌≢◌, inl, inr, refl, sym, ap, ◌∙◌,
  Bool, true, false, ltb, Option, none, some, List, arith, ◌==◌, if◌then◌else◌, length, length-set,
  length-replicate, get_or, get_or-set, ==→eq, get_elem?-get_or, replicate, Bool-cases, ok,
}
use jinx_os.Bitmap.{Bitmap}
use jinx_os.Bitmap.Bits.{bit}
use jinx_os.Bitmap.Marks.{IsValid}
use jinx_os.Frames.{Entry, empty_entry, tbl_size, Physical, clear_frame, kaddr, frame_at, pm2va}
use jinx_os.Kernel.{wrap}
use jinx_os.Paging.{pdx, ptx, entry_at, set_entry, mapping, assigned}

-- Entry `i` of the table in frame `table`.
abbrev pub at : Physical → ℕ → ℕ → Entry
at p table i = get_or (p.frames table) i empty_entry

-- Where an entry of a directory leads to, by entry `i` of its table.
abbrev pub through : Physical → Entry → ℕ → Option ℕ
through p pde i =
    if pde.present
    then (if (at p pde.addr i).present then some (at p pde.addr i).addr else none)
    else none

-- What the processor makes of the page of `va`: the frame, or a page fault.
unfoldable pub translate : Physical → ℕ → ℕ → Option ℕ
translate p pd va = through p (at p pd (pdx va)) (ptx va)

-- There are at most 2 ^ 18 frames, the directory's is in use, and each of its tables is another frame in use of its own.
pub record IsDirectory (p : Physical) (pd : ℕ) : Type 0 where
  pub valid : IsValid p.physmap
  pub tables : (a : ℕ) → length (p.frames a) ≡ tbl_size
  pub used : bit p.physmap.bytes pd ≡ true
  pub small : p.physmap.bits ≤ 2 ^ 18
  pub table_small : (i : ℕ) → (at p pd i).present ≡ true → (at p pd i).addr < 2 ^ 18
  pub table_used :
      (i : ℕ) → (at p pd i).present ≡ true → bit p.physmap.bytes (at p pd i).addr ≡ true
  pub table_apart : (i : ℕ) → (at p pd i).present ≡ true → (at p pd i).addr ≢ pd
  pub table_own :
      (i j : ℕ)
      → (at p pd i).present ≡ true
      → (at p pd j).present ≡ true
      → (at p pd i).addr ≡ (at p pd j).addr
      → i ≡ j

-- Entries behind an assignment, and behind the clearing of a frame.
pub at-set_entry :
    (p : Physical) (table i : ℕ) (e : Entry) (a j : ℕ)
    → i < length (p.frames table)
    → at (set_entry p table i e) a j
      ≡ (if a == table then (if i == j then e else at p table j) else at p a j)
unfolding set_entry
at-set_entry p table i e a j h = elim (Bool-cases (a == table)) [
  | inl same ↦ rw same (get_or-set (p.frames table) i e empty_entry j h)
  | inr other ↦ rw other refl
]

pub length-set_entry :
    (p : Physical) (table i : ℕ) (e : Entry) (a : ℕ)
    → length ((set_entry p table i e).frames a) ≡ length (p.frames a)
unfolding set_entry
length-set_entry p table i e a = elim (Bool-cases (a == table)) [
  | inl same ↦
      rw same
        (length-set (p.frames table) i e ∙ ap (λ x. length (p.frames x)) (sym (==→eq a table same)))
  | inr other ↦ rw other refl
]

pub empties : (n j : ℕ) → get_or (replicate n empty_entry) j empty_entry ≡ empty_entry
empties zero j = refl
empties (suc n) zero = refl
empties (suc n) (suc j) = empties n j

pub at-clear_frame :
    (p : Physical) (b : Bitmap) (idx a j : ℕ)
    → at (record p { physmap = b; frames = clear_frame p.frames idx }) a j
      ≡ (if a == idx then empty_entry else at p a j)
unfolding clear_frame
at-clear_frame p b idx a j = elim (Bool-cases (a == idx)) [
  | inl same ↦ rw same (empties tbl_size j)
  | inr other ↦ rw other refl
]

pub length-clear_frame :
    (frames : ℕ → List Entry) (idx a : ℕ)
    → length (frames a) ≡ tbl_size
    → length (clear_frame frames idx a) ≡ tbl_size
unfolding clear_frame
length-clear_frame frames idx a h = elim (Bool-cases (a == idx)) [
  | inl same ↦ rw same (length-replicate tbl_size empty_entry)
  | inr other ↦ rw other h
]

pub entry_at_lem :
    (p : Physical) (table i : ℕ)
    → length (p.frames table) ≡ tbl_size
    → i < tbl_size
    → entry_at p table i ≡ ok (at p table i)
unfolding entry_at
entry_at_lem p table i h k =
    rw (get_elem?-get_or (p.frames table) i empty_entry (omega (arith, h, k))) refl

-- The kernel reaches the frames below 2 ^ 18.
pub pm2va_lem : (pm : ℕ) → pm < 2 ^ 18 → pm2va pm ≡ ok pm
unfolding pm2va frame_at
pm2va_lem pm small =
    let va : wrap (wrap (pm * 2 ^ 12) + kaddr) ≡ pm * 2 ^ 12 + kaddr = omega (arith, small) in
    let above : ltb (pm * 2 ^ 12 + kaddr) kaddr ≡ false = ground arith in
    rw (va, above) (ap ok {x = (pm * 2 ^ 12 + kaddr - kaddr) / 2 ^ 12} {y = pm} (omega arith))

-- An entry holds the frames below 2 ^ 20.
pub assigned_lem :
    (write user : Bool) (pno : ℕ) → pno < 2 ^ 20 → assigned write user pno ≡ mapping write user pno
unfolding assigned
assigned_lem write user pno small =
    ap (mapping write user) {x = pno % 2 ^ 20} {y = pno} (omega (arith, small))
