-- ===== src/PidRegistry/Issue.antt =====
-- proc/pidreg.c: which numbers are handed out.
use jinx_os.Base.{
  ℕ, ◌+◌, ◌-◌, ◌≤◌, ◌<◌, ◌≡◌, ◌≢◌, ◌⊎◌, inl, inr, refl, ap, ◌∙◌, Bool, true, false, ◌||◌, some,
  List, [], ◌∷◌, ◌++◌, arith, ltb, lt→ltb, eq→==, ok, Returns-eq,
}
use jinx_os.Kernel.{emproc}
use jinx_os.Bitmap.{Bitmap, bitmap_mark, bitmap_unmark, bitmap_isset}
use jinx_os.Bitmap.{bitmap_create}
use jinx_os.Bitmap.Create.{bitmap_create_lem}
use jinx_os.Bitmap.Marks.{bitmap_isset_lem, bitmap_mark_lem, bitmap_unmark_lem}
use jinx_os.PidRegistry.{
  PidRegistrar, pid_available, pidreg_getpid, pid_used, pidreg_returnpid, pidreg_create,
}
use jinx_os.PidRegistry.Numbers.{
  occurs, in_use, IsRegistrar, Issued, new-Issued, reuse-Issued, back-Issued,
}

or_true : (b : Bool) → (b || true) ≡ true
or_true true = refl
or_true false = refl

module _ (served : Bool) (granted : ℕ → Bool) (n : ℕ) (b : Bitmap) (c : ℕ) where
  new_run :
      (pmap : Bitmap)
      → c < 1024
      → bitmap_isset b c ≡ ok false
      → bitmap_mark b c ≡ ok pmap
      → pidreg_getpid served granted
          (some (record { lk = n; pmap = b; pid_reuse = []; pcounter = c }))
        ≡ ok (c, record { lk = n + 1 + 1 - 1 - 1; pmap = pmap; pid_reuse = []; pcounter = c + 1 })
  unfolding pidreg_getpid pid_available
  new_run pmap more clear run =
      rw
        (
          lt→ltb 0 (n + 1 + 1) (omega arith),
          lt→ltb _ _ more,
          clear,
          run,
          lt→ltb 0 (n + 1 + 1 - 1) (omega arith),
        )
        refl

  reuse_run :
      (pmap : Bitmap) (pid : ℕ) (rest : List ℕ)
      → bitmap_isset b pid ≡ ok false
      → bitmap_mark b pid ≡ ok pmap
      → pidreg_getpid served granted
          (some (record { lk = n; pmap = b; pid_reuse = pid ∷ rest; pcounter = c }))
        ≡ ok (pid, record { lk = n + 1 + 1 - 1 - 1; pmap = pmap; pid_reuse = rest; pcounter = c })
  unfolding pidreg_getpid pid_available
  reuse_run pmap pid rest clear run =
      rw
        (
          lt→ltb 0 (n + 1 + 1) (omega arith),
          or_true (ltb c 1024),
          clear,
          run,
          lt→ltb 0 (n + 1 + 1 - 1) (omega arith),
        )
        refl

  none_run :
      pidreg_getpid served granted
        (some (record { lk = n; pmap = b; pid_reuse = []; pcounter = 1024 }))
      ≡ ok (emproc, record { lk = n + 1; pmap = b; pid_reuse = []; pcounter = 1024 })
  unfolding pidreg_getpid pid_available
  none_run = rw (lt→ltb 0 (n + 1 + 1) (omega arith)) (
      ap (λ k. ok (emproc, record { lk = k; pmap = b; pid_reuse = []; pcounter = 1024 }))
        {x = n + 1 + 1 - 1} {y = n + 1} (omega arith))

module _ (served : Bool) (granted : ℕ → Bool) (r : PidRegistrar) (v : IsRegistrar r) where
  -- What pidreg_getpid leaves where a number is at hand.
  abbrev Got : Type 0
  Got =
      (pid : ℕ) × (g : PidRegistrar) × (pidreg_getpid served granted (some r) ≡ ok (pid, g))
      × (1 ≤ pid)
      × (pid < 1024)
      × (in_use r pid ≡ false)
      × Issued r pid true g

  -- The call, with what the queue holds written out.
  called :
      (w : List ℕ)
      → r.pid_reuse ≡ w
      → pidreg_getpid served granted (some r)
        ≡ pidreg_getpid served granted (some (record r { pid_reuse = w }))
  called w e = ap (λ z. pidreg_getpid served granted (some (record r { pid_reuse = z }))) e

  got : (w : List ℕ) → r.pid_reuse ≡ w → (r.pcounter < 1024) ⊎ (r.pid_reuse ≢ []) → Got
  got [] none_wait at_hand =
      let more : r.pcounter < 1024 = elim at_hand [ inl h ↦ h | inr h ↦ absurd (h none_wait) ] in
      let clear : in_use r r.pcounter ≡ false = ground (arith, v.issued r.pcounter more) in
      let (pmap, run, changed) =
        Returns-eq (bitmap_mark_lem r.pmap v.map r.pcounter (omega (arith, v.size)) clear) in
      (
        r.pcounter,
        record {
          lk = r.lk + 1 + 1 - 1 - 1;
          pmap = pmap;
          pid_reuse = [];
          pcounter = r.pcounter + 1;
        },
        called [] none_wait
            ∙ new_run served granted r.lk r.pmap r.pcounter pmap more
                (bitmap_isset_lem r.pmap v.map r.pcounter (omega (arith, v.size)) ∙ ap ok clear)
                run,
        v.low,
        more,
        clear,
        record {
          valid = new-Issued r pmap _ v more changed none_wait;
          only = changed.bits;
          unlocked = omega arith;
        },
      )
  got (pid ∷ rest) first at_hand =
      let own = v.waits pid (ap (occurs pid) first ∙ rw (eq→== pid pid refl) refl) in
      let small : pid < 1024 = omega (arith, own, v.high) in
      let (pmap, run, changed) =
        Returns-eq (bitmap_mark_lem r.pmap v.map pid (omega (arith, small, v.size)) own.2) in
      (
        pid,
        record r { lk = r.lk + 1 + 1 - 1 - 1; pmap = pmap; pid_reuse = rest },
        called (pid ∷ rest) first
            ∙ reuse_run served granted r.lk r.pmap r.pcounter pmap pid rest
                (bitmap_isset_lem r.pmap v.map pid (omega (arith, small, v.size)) ∙ ap ok own.2)
                run,
        own.0,
        small,
        own.2,
        record {
          valid = reuse-Issued r pmap _ pid rest v changed first;
          only = changed.bits;
          unlocked = omega arith;
        },
      )

-- While a number is left, pidreg_getpid on a well-formed registrar ends: it returns a number from 1
-- to 1023 that is not in use, which is in use afterwards and no other number's use changes; the
-- registrar stays well-formed and its lock is given back.
pub pidreg_getpid_lem :
    (served : Bool) (granted : ℕ → Bool) (r : PidRegistrar)
    → IsRegistrar r
    → (r.pcounter < 1024) ⊎ (r.pid_reuse ≢ [])
    → (pid : ℕ) × (g : PidRegistrar) × (pidreg_getpid served granted (some r) ≡ ok (pid, g))
      × (1 ≤ pid)
      × (pid < 1024)
      × (in_use r pid ≡ false)
      × Issued r pid true g
pidreg_getpid_lem served granted r v at_hand = got served granted r v r.pid_reuse refl at_hand

-- On a well-formed registrar whose numbers are all in use, pidreg_getpid returns EMPROC, which is
-- the number 6 of a process that lives, and keeps the registrar's lock.
pub pidreg_getpid_exhausted :
    (served : Bool) (granted : ℕ → Bool) (r : PidRegistrar)
    → IsRegistrar r
    → r.pcounter ≡ 1024
    → r.pid_reuse ≡ []
    → (g : PidRegistrar) × (pidreg_getpid served granted (some r) ≡ ok (6, g))
      × (g.lk ≡ r.lk + 1)
      × (in_use r 6 ≡ true)
pidreg_getpid_exhausted served granted r v all none_wait = (
  record { lk = r.lk + 1; pmap = r.pmap; pid_reuse = []; pcounter = 1024 },
  called served granted r v [] none_wait
      ∙ ap (λ c. pidreg_getpid served granted (some (record r { pid_reuse = []; pcounter = c })))
          all
      ∙ none_run served granted r.lk r.pmap 1024,
  refl,
  elim (v.complete 6 (omega arith) (omega (arith, all))) [
    | inl e ↦ e
    | inr e ↦ cc (ap (occurs 6) none_wait, e)
  ],
)

back_run :
    (r : PidRegistrar) (pid : ℕ) (pmap : Bitmap)
    → pid < 1024
    → pid < r.pcounter
    → bitmap_isset r.pmap pid ≡ ok true
    → bitmap_unmark r.pmap pid ≡ ok pmap
    → pidreg_returnpid true r pid
      ≡ ok
          (record r { lk = r.lk + 1 - 1 + 1 - 1; pmap = pmap; pid_reuse = r.pid_reuse ++ pid ∷ [] })
unfolding pidreg_returnpid pid_used
back_run r pid pmap small below used run =
    rw
      (
        lt→ltb pid 1024 small,
        lt→ltb pid r.pcounter below,
        used,
        lt→ltb 0 (r.lk + 1) (omega arith),
        run,
        lt→ltb 0 (r.lk + 1 - 1 + 1) (omega arith),
      )
      refl

-- pidreg_returnpid of a number in use, with memory at hand, ends: the number is free again, no other
-- number's use changes, and the registrar stays well-formed.
pub pidreg_returnpid_lem :
    (r : PidRegistrar) (pid : ℕ)
    → IsRegistrar r
    → pid < 1024
    → in_use r pid ≡ true
    → (g : PidRegistrar) × (pidreg_returnpid true r pid ≡ ok g) × Issued r pid false g
pidreg_returnpid_lem r pid v small used =
    let here : pid < r.pmap.bits = omega (arith, small, v.size) in
    let (pmap, run, changed) = Returns-eq (bitmap_unmark_lem r.pmap v.map pid here used) in
    (
      record r { lk = r.lk + 1 - 1 + 1 - 1; pmap = pmap; pid_reuse = r.pid_reuse ++ pid ∷ [] },
      back_run r pid pmap small (v.issued pid small used).1
          (bitmap_isset_lem r.pmap v.map pid here ∙ ap ok used) run,
      record {
        valid = back-Issued r pmap _ pid v small used changed;
        only = changed.bits;
        unlocked = omega arith;
      },
    )

created :
    (granted : ℕ → Bool) (b : Bitmap)
    → bitmap_create granted 1024 ≡ ok (some b)
    → pidreg_create true granted ≡ ok (record { lk = 0; pmap = b; pid_reuse = []; pcounter = 1 })
unfolding pidreg_create
created granted b run = rw run refl

-- With memory at hand pidreg_create ends, with a well-formed registrar of which no number is in use.
pub pidreg_create_lem :
    (granted : ℕ → Bool)
    → ((size : ℕ) → granted size ≡ true)
    → (r : PidRegistrar) × (pidreg_create true granted ≡ ok r)
      × IsRegistrar r
      × ((i : ℕ) → i < 1024 → in_use r i ≡ false)
pidreg_create_lem granted given =
    let (made, run, (b, at, clear)) =
      Returns-eq (bitmap_create_lem granted 1024 (omega arith) (omega arith) given) in
    (
      record { lk = 0; pmap = b; pid_reuse = []; pcounter = 1 },
      created granted b (run ∙ ap ok at),
      record {
        map = clear.valid;
        size = clear.size;
        low = omega arith;
        high = omega arith;
        issued = λ i small e. absurd (cc (clear.clear i small, e));
        waits = λ i e. cc e;
        once = tt;
        complete = λ i pos below. absurd (omega (arith, pos, below));
      },
      clear.clear,
    )
