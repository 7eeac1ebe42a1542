-- ===== src/Memory/Regions.antt =====
-- mem/mem.c and mem/kmm.c: the regions that a sequence of calls of mem_sbrk and kpalloc hands out.
use jinx_os.Base.{
  ℕ, ◌+◌, ◌-◌, ◌^◌, ◌≤◌, ◌<◌, ◌≡◌, ◌⊎◌, inl, inr, sym, subst, ◌∙◌, List, [], ◌∷◌, arith, ltb,
  ltb→lt, Bool-cases, ok, ok_injective,
}
use jinx_os.Memory.{Memory, init_mem, mem_sbrk, kpalloc}
use jinx_os.Memory.Breaks.{IsMemory, page_bytes, mem_sbrk_lem, kpalloc_lem, init_mem_lem}

-- A region from its first address up to the one behind its last.
pub record Region : Type 0 where
  pub from : ℕ
  pub to : ℕ

-- mem_sbrk hands the bytes between the breaks out, and kpalloc a page while one is free.
pub data Step (m : Memory) : Memory → Region → Type 0 where
  sbrk :
      (incr : ℕ) {old : ℕ} {after : Memory}
      → incr ≤ 2 ^ 24
      → mem_sbrk m incr ≡ ok (old, after)
      → Step m after (record { from = old; to = after.kbrk })
  palloc :
      m.kbrk + 4096 ≤ m.kbrk_max
      → Step m (kpalloc m).1 (record { from = (kpalloc m).0; to = (kpalloc m).0 + 4096 })

-- The memory after the calls, and the regions that they handed out.
pub data Reach (kheap : ℕ) : Memory → List Region → Type 0 where
  start : Reach kheap (init_mem kheap) []
  later :
      {m after : Memory} {region : Region} {regions : List Region}
      → Reach kheap m regions
      → Step m after region
      → Reach kheap after (region ∷ regions)

abbrev pub Apart : Region → Region → Type 0
Apart a b = (a.to ≤ b.from) ⊎ (b.to ≤ a.from)

abbrev pub All : (Region → Type 0) → List Region → Type 0
All P [] = Unit
All P (r ∷ rs) = P r × All P rs

abbrev pub AllApart : List Region → Type 0
AllApart [] = Unit
AllApart (r ∷ rs) = All (Apart r) rs × AllApart rs

-- A region lies in the heap, or above the pages that are free.
abbrev pub Inside : Memory → Region → Type 0
Inside m r = (r.to ≤ m.kbrk) ⊎ (m.kbrk_max ≤ r.from)

All-map :
    {P Q : Region → Type 0} (rs : List Region) → ((r : Region) → P r → Q r) → All P rs → All Q rs
All-map [] f all = tt
All-map (r ∷ rs) f (p, all) = (f r p, All-map rs f all)

pub record Inv (m : Memory) (regions : List Region) : Type 0 where
  pub memory : IsMemory m
  pub inside : All (Inside m) regions
  pub apart : AllApart regions

sbrk-Inv :
    (m : Memory) (size : ℕ) (regions : List Region)
    → Inv m regions
    → IsMemory (record m { kbrk = m.kbrk + size })
    → m.kbrk + size ≤ m.kbrk_max
    → Inv
        (record m { kbrk = m.kbrk + size })
        (record { from = m.kbrk; to = m.kbrk + size } ∷ regions)
sbrk-Inv m size regions v after room = record {
  memory = after;
  inside = (inl (omega arith), All-map regions (λ r p. ground (arith, p)) v.inside);
  apart = (All-map regions (λ r p. ground (arith, p, room)) v.inside, v.apart);
}

palloc-Inv :
    (m : Memory) (regions : List Region)
    → Inv m regions
    → m.kbrk + 4096 ≤ m.kbrk_max
    → Inv (kpalloc m).1 (record { from = (kpalloc m).0; to = (kpalloc m).0 + 4096 } ∷ regions)
unfolding kpalloc
palloc-Inv m regions v room =
    let (top, clear, after) = kpalloc_lem m v.memory room in
    record {
      memory = after;
      inside = (inr (omega arith), All-map regions (λ r p. ground (arith, p, top)) v.inside);
      apart = (All-map regions (λ r p. ground (arith, p, top, clear)) v.inside, v.apart);
    }

pub Step-Inv :
    (m after : Memory) (region : Region) (regions : List Region)
    → Step m after region
    → Inv m regions
    → Inv after (region ∷ regions)
Step-Inv m after region regions (sbrk incr small run) v =
    elim (Bool-cases (ltb m.kbrk_max (m.kbrk + page_bytes incr))) [
      | inl e ↦ absurd (cc ((mem_sbrk_lem m incr v.memory small).1 (ltb→lt _ _ e), run))
      | inr e ↦
          let room : m.kbrk + page_bytes incr ≤ m.kbrk_max = ground (arith, e) in
          let (ran, is) = (mem_sbrk_lem m incr v.memory small).0 room in
          subst (λ (p : ℕ × Memory). Inv p.1 (record { from = p.0; to = p.1.kbrk } ∷ regions))
            (ok_injective (sym ran ∙ run)) (sbrk-Inv m (page_bytes incr) regions v is room)
    ]
Step-Inv m after region regions (palloc room) v = palloc-Inv m regions v room

Reach-Inv :
    (kheap : ℕ) (m : Memory) (regions : List Region)
    → 0 < kheap
    → kheap < 2 ^ 32 - 2 ^ 25
    → Reach kheap m regions
    → Inv m regions
Reach-Inv kheap m regions pos small start = record {
  memory = (init_mem_lem kheap pos small).0;
  inside = tt;
  apart = tt;
}
Reach-Inv kheap m regions pos small (later {m = before} {region = r} {regions = rs} reach step) =
    Step-Inv before m r rs step (Reach-Inv kheap before rs pos small reach)

-- For an end of the kernel's image from 1 on and below 2 ^ 32 - 2 ^ 25, and however calls of mem_sbrk for
-- at most 16 MB and calls of kpalloc with a free page left follow each other after init_mem: no two
-- of the regions that they handed out overlap, and none reaches into the memory between the
-- breaks.
pub regions_apart :
    (kheap : ℕ) (m : Memory) (regions : List Region)
    → 0 < kheap
    → kheap < 2 ^ 32 - 2 ^ 25
    → Reach kheap m regions
    → AllApart regions × All (Inside m) regions
regions_apart kheap m regions pos small reach =
    let v = Reach-Inv kheap m regions pos small reach in (v.apart, v.inside)
