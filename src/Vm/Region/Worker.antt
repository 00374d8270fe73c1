-- ===== src/Vm/Region/Worker.antt =====
-- The adaptive worker, between calls of advance_hwm in any order.
use memory_allocator.Base.{
  ℕ, ◌+◌, ◌-◌, ◌*◌, ◌%◌, ◌^◌, ◌≤◌, ◌<◌, ◌≡◌, refl, sym, ap, subst, ◌∙◌, min, ltb, ltb→lt, ltb→ge,
  true, false, Bool-cases, inl, inr, List, [], ◌∷◌, ◌++◌, append-nil, append_assoc, arith,
}
use memory_allocator.Base.Bits.{add64, sub64}
use memory_allocator.Vm.Region.{
  Call, mmap, munmap, madvise_hugepage, madvise_populate, mlock, munlock, write, VmemRegion,
  watermark_pages, advance_hwm, target_of, worker_round,
}

pub data Step : Type 0 where
  advance : ℕ → Step
  round : Step

abbrev pub step : ℕ → VmemRegion × ℕ × List Call → Step → VmemRegion × ℕ × List Call
step page (r, off, log) (advance n) = (advance_hwm r n, off, log)
step page (r, off, log) round = worker_round page r off log

unfoldable pub run : ℕ → VmemRegion × ℕ × List Call → List Step → VmemRegion × ℕ × List Call
run page s [] = s
run page s (x ∷ xs) = run page (step page s x) xs

-- The calls prefault one range after the other, from an offset to another.
unfoldable pub Ranges : ℕ → ℕ → ℕ → List Call → Type 0
Ranges base from to [] = from ≡ to
Ranges base from to (mmap n p h ∷ calls) = ⊥
Ranges base from to (munmap a n ∷ calls) = ⊥
Ranges base from to (madvise_hugepage a n ∷ calls) = ⊥
Ranges base from to (madvise_populate a n ∷ calls) =
    (a ≡ base + from) × (0 < n) × Ranges base (from + n) to calls
Ranges base from to (mlock a n ∷ calls) = ⊥
Ranges base from to (munlock a n ∷ calls) = ⊥
Ranges base from to (write a ∷ calls) = ⊥

no_Ranges : (base : ℕ) → Ranges base 0 0 []
unfolding Ranges
no_Ranges base = refl

-- What holds of the worker of a region that started with a log.
pub record IsCovered (base size : ℕ) (log : List Call) (s : VmemRegion × ℕ × List Call)
    : Type 0 where
  pub base_is : s.0.base ≡ base
  pub size_is : s.0.size ≡ size
  pub runs : s.0.stop_bg ≡ false
  pub within : s.1 ≤ size
  pub known : s.0.prefaulted ≡ s.1
  pub calls : List Call
  pub ranges : Ranges base 0 s.1 calls
  pub logged : s.2 ≡ log ++ calls

Ranges-snoc :
    (base from to n : ℕ) (calls : List Call)
    → 0 < n
    → Ranges base from to calls
    → Ranges base from (to + n) (calls ++ madvise_populate (base + to) n ∷ [])
unfolding Ranges
Ranges-snoc base from to n [] l h = (ap (λ x. base + x) (sym h), l, ap (λ x. x + n) h)
Ranges-snoc base from to n (mmap a p h ∷ calls) l r = absurd r
Ranges-snoc base from to n (munmap a x ∷ calls) l r = absurd r
Ranges-snoc base from to n (madvise_hugepage a x ∷ calls) l r = absurd r
Ranges-snoc base from to n (madvise_populate a x ∷ calls) l (e, p, r) =
    (e, p, Ranges-snoc base (from + x) to n calls l r)
Ranges-snoc base from to n (mlock a x ∷ calls) l r = absurd r
Ranges-snoc base from to n (munlock a x ∷ calls) l r = absurd r
Ranges-snoc base from to n (write a ∷ calls) l r = absurd r

target-within : (page : ℕ) (r : VmemRegion) → target_of page r ≤ r.size
target-within page r =
    let target = add64 r.hwm_bytes ((watermark_pages * page) % 2 ^ 64) in
    elim (Bool-cases (ltb r.size target)) [
      | inl e ↦ rw e omega arith
      | inr e ↦ rw e (ltb→ge r.size target e)
    ]

target-reaches :
    (page : ℕ) (r : VmemRegion)
    → r.hwm_bytes + 64 * page < 2 ^ 64
    → min r.size (r.hwm_bytes + 64 * page) ≤ target_of page r
target-reaches page r bound =
    let target = add64 r.hwm_bytes ((watermark_pages * page) % 2 ^ 64) in
    let whole : target ≡ r.hwm_bytes + 64 * page = omega (arith, bound) in
    elim (Bool-cases (ltb r.size target)) [
      | inl e ↦ rw e omega arith
      | inr e ↦ rw e omega (arith, whole)
    ]

-- A round that has something to prefault does so up to the target.
round-prefaults :
    (page : ℕ) (r : VmemRegion) (off : ℕ) (log : List Call)
    → r.stop_bg ≡ false
    → off < target_of page r
    → worker_round page r off log ≡ (
      record r { prefaulted = target_of page r },
      target_of page r,
      log ++ madvise_populate (add64 r.base off) (sub64 (target_of page r) off) ∷ [],
    )
unfolding worker_round
round-prefaults page r off log runs l =
    let more : ltb off (target_of page r) ≡ true = ground (arith, l) in rw (runs, more) refl

round-rests :
    (page : ℕ) (r : VmemRegion) (off : ℕ) (log : List Call)
    → r.stop_bg ≡ false
    → ltb off (target_of page r) ≡ false
    → worker_round page r off log ≡ (r, off, log)
unfolding worker_round
round-rests page r off log runs e = rw (runs, e) refl

module _ (page base size : ℕ) (log : List Call) (fits : base + size < 2 ^ 64) where
  prefaulted-IsCovered :
      (r : VmemRegion) (off target : ℕ) (l : List Call)
      → off < target
      → target ≤ r.size
      → IsCovered base size log (r, off, l)
      → IsCovered base size log (
        record r { prefaulted = target },
        target,
        l ++ madvise_populate (add64 r.base off) (sub64 target off) ∷ [],
      )
  prefaulted-IsCovered r off target l less bounded c =
      let address : add64 r.base off ≡ base + off =
        omega (arith, fits, c.base_is, c.size_is, less, bounded) in
      let amount : sub64 target off ≡ target - off =
        omega (arith, fits, c.size_is, less, bounded) in
      let end : off + (target - off) ≡ target = omega (arith, less) in
      record {
        base_is = c.base_is;
        size_is = c.size_is;
        runs = c.runs;
        within = omega (arith, bounded, c.size_is);
        known = refl;
        calls = c.calls ++ madvise_populate (base + off) (target - off) ∷ [];
        ranges =
            subst
              (λ t. Ranges base 0 t (c.calls ++ madvise_populate (base + off) (target - off) ∷ []))
              end (Ranges-snoc base 0 off (target - off) c.calls (omega (arith, less)) c.ranges);
        logged =
            rw (address, amount)
              (ap (λ x. x ++ madvise_populate (base + off) (target - off) ∷ []) c.logged
                ∙ append_assoc log c.calls (madvise_populate (base + off) (target - off) ∷ []));
      }

  round-IsCovered :
      (r : VmemRegion) (off : ℕ) (l : List Call)
      → IsCovered base size log (r, off, l)
      → let s = worker_round page r off l in IsCovered base size log s × (target_of page r ≤ s.1)
  round-IsCovered r off l c = elim (Bool-cases (ltb off (target_of page r))) [
    | inl more ↦
        let less = ltb→lt off (target_of page r) more in
        subst (λ s. IsCovered base size log s × (target_of page r ≤ s.1))
          (sym (round-prefaults page r off l c.runs less))
          (
            prefaulted-IsCovered r off (target_of page r) l less (target-within page r) c,
            omega arith,
          )
    | inr rests ↦
        subst (λ s. IsCovered base size log s × (target_of page r ≤ s.1))
          (sym (round-rests page r off l c.runs rests)) (c, ltb→ge off (target_of page r) rests)
  ]

  step-IsCovered :
      (s : VmemRegion × ℕ × List Call) (x : Step)
      → IsCovered base size log s
      → IsCovered base size log (step page s x)
  unfolding advance_hwm
  step-IsCovered (r, off, l) (advance n) c = record {
    base_is = c.base_is;
    size_is = c.size_is;
    runs = c.runs;
    within = c.within;
    known = c.known;
    calls = c.calls;
    ranges = c.ranges;
    logged = c.logged;
  }
  step-IsCovered (r, off, l) round c = (round-IsCovered r off l c).0

  run-IsCovered :
      (xs : List Step) (s : VmemRegion × ℕ × List Call)
      → IsCovered base size log s
      → IsCovered base size log (run page s xs)
  unfolding run
  run-IsCovered [] s c = c
  run-IsCovered (x ∷ xs) s c = run-IsCovered xs (step page s x) (step-IsCovered s x c)

-- For a region that ends below 2^64 and whose worker runs from the start: after any sequence of
-- rounds and calls of advance_hwm, what was prefaulted is one range after the other from the base
-- on, ends within the region and is what prefaulted_bytes reports; and a round after the use of
-- `n` bytes was reported, where `n` and 64 pages are below 2^64, reaches 64 pages beyond `n`, or the
-- region's end.
pub worker_covers :
    (page : ℕ) (r : VmemRegion) (log : List Call) (xs : List Step) (n : ℕ)
    → r.base + r.size < 2 ^ 64
    → r.stop_bg ≡ false
    → r.prefaulted ≡ 0
    → n + 64 * page < 2 ^ 64
    → let s = run page (r, 0, log) xs in
      let t = step page (step page s (advance n)) round in
      IsCovered r.base r.size log s
      × IsCovered r.base r.size log t
      × (min r.size (n + 64 * page) ≤ t.0.prefaulted)
unfolding advance_hwm
worker_covers page r log xs n fits runs none_yet bound =
    let first : IsCovered r.base r.size log (r, 0, log) = record {
      base_is = refl;
      size_is = refl;
      runs = runs;
      within = omega arith;
      known = none_yet;
      calls = [];
      ranges = no_Ranges r.base;
      logged = sym (append-nil log);
    } in
    let s = run page (r, 0, log) xs in
    let c = run-IsCovered page r.base r.size log fits xs (r, 0, log) first in
    let d = step-IsCovered page r.base r.size log fits s (advance n) c in
    let (e, reached) =
      round-IsCovered page r.base r.size log fits (record s.0 { hwm_bytes = n }) s.1 s.2 d in
    let aim = target-reaches page (record s.0 { hwm_bytes = n }) bound in
    let same_size = c.size_is in (c, e, omega (arith, aim, reached, e.known, same_size))
