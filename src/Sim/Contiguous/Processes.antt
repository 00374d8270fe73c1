-- ===== src/Sim/Contiguous/Processes.antt =====
-- The contiguous demo as a whole: its run, and the memory that it leaves.
use memory_allocator.Base.{
  ℕ, zero, suc, ◌+◌, ◌-◌, ◌<◌, ◌≡◌, refl, sym, ap, subst, ◌∙◌, ◌==◌, ==_self, if◌then◌else◌, ◌&&◌,
  not, Bool, true, Bool-cases, inl, inr, ◌⊎◌, Option, none, some, List, [], ◌∷◌, All, arith,
}
use memory_allocator.Sched.Process.{new, Process}
use memory_allocator.Sim.FirstFit.{Block, construct, allocate}
use memory_allocator.Sim.FirstFit.Tiling.{IsTiled, allocate-IsTiled, construct-IsTiled}
use memory_allocator.Sim.Scheduling.{all_done}
use memory_allocator.Sim.Demo.{over}
use memory_allocator.Sim.Demo.Places.{
  Phase, fresh, live, ended, phase_of_state, phases, all_done-ended, put, IsKept,
}
use memory_allocator.Sim.Demo.Rounds.{run-IsSound}
use memory_allocator.Sim.Contiguous.{total, Machine, record_of, try_admit, resource, main}
use memory_allocator.Sim.Contiguous.Used.{used_at, allocate-used_at}
use memory_allocator.Sim.Contiguous.Shares.{IsShared, released-IsShared, admitted-IsShared}

-- The first block is used, or free.
used_at-here : (b : Block) (l : List Block) → used_at b.offset (b ∷ l) ≡ 0 → b.free ≡ true
used_at-here b l e =
    let self = ==_self b.offset in
    elim (Bool-cases b.free) [ inl opened ↦ opened | inr shut ↦ ground (arith, e, self, shut) ]

rest_zero : (m n : ℕ) → m + n ≡ 0 → n ≡ 0
rest_zero m n e = omega (arith, e)

-- Where no block is used, one free block is all there is.
nothing_used :
    (l : List Block) → IsTiled total l → ((x : ℕ) → used_at x l ≡ 0) → l ≡ construct total
unfolding IsTiled construct
nothing_used [] t h = absurd (omega (arith, t.0))
nothing_used (b ∷ []) t h =
    let size : b.size ≡ total = omega (arith, t.0.2) in
    ap (λ x. x ∷ []) (same b t.0.0 size (used_at-here b [] (h b.offset)))
  where
    same :
        (b : Block) {o n : ℕ} {f : Bool}
        → b.offset ≡ o
        → b.size ≡ n
        → b.free ≡ f
        → b ≡ record { offset = o; size = n; free = f }
    same b x y z = λ i. record { offset = x i; size = y i; free = z i }
nothing_used (b ∷ c ∷ l) t h =
    let first = used_at-here b (c ∷ l) (h b.offset) in
    let second = used_at-here c l (
      rest_zero (if not b.free && b.offset == c.offset then 1 else 0) (used_at c.offset (c ∷ l))
        (h c.offset)) in
    ground (arith, t.1.1.0, first, second)

module _ (mem_bytes : ℕ → ℕ) (positive : (i : ℕ) → 0 < mem_bytes i) where
  record_of-IsShared :
      (m m' : Machine) (ph : ℕ → Phase) (i : ℕ) (r : Option ℕ × List Block)
      → IsShared m ph
      → ph i ≡ fresh
      → IsTiled total r.1
      → ((p : ℕ)
          → r.0 ≡ some p
          → (x : ℕ)
          → (0 < p) × (used_at x r.1 ≡ (if x == (p - 1) then 1 else 0) + used_at x m.blocks))
      → record_of m i r ≡ some m'
      → IsShared m' (put ph i live)
  record_of-IsShared m m' ph i (none, r) s e t h q = ground (arith, q)
  record_of-IsShared m m' ph i (some p, r) s e t h q =
      subst (λ n. IsShared n (put ph i live)) (cc q)
        (admitted-IsShared m ph i p r s e t (h p refl 0).0 (λ x. (h p refl x).1))

  admit-IsShared :
      (m m' : Machine) (ph : ℕ → Phase) (i : ℕ)
      → IsShared m ph
      → ph i ≡ fresh
      → try_admit mem_bytes m i ≡ some m'
      → IsShared m' (put ph i live)
  unfolding try_admit IsTiled
  admit-IsShared m m' ph i s e q =
      record_of-IsShared m m' ph i (allocate m.blocks (mem_bytes i)) s e
        (allocate-IsTiled total (mem_bytes i) m.blocks (positive i) (omega arith) s.tiled)
        (λ p given x.
          allocate-used_at x (mem_bytes i) total p m.blocks (omega arith) s.tiled.0 given)
        q

  kept : IsKept (resource mem_bytes)
  unfolding resource
  kept = record {
    Holds = IsShared;
    admits = λ m m' ph i s e r. admit-IsShared m m' ph i s e r;
    accesses = λ m ph tick i s e. s;
    releases = λ m ph i s e. released-IsShared m ph i s e;
  }

  start-IsShared :
      (ph : ℕ → Phase)
      → ((i : ℕ) → (ph i ≡ fresh) ⊎ (ph i ≡ ended))
      → IsShared (record { blocks = construct total; allocs = λ i. none }) ph
  unfolding construct
  start-IsShared ph h = record {
    tiled = construct-IsTiled total (omega arith);
    has = λ i e. absurd (not_live i e);
    own = λ i j p e. absurd (not_live i e);
    whose = λ x used. absurd (omega (arith, used));
  }
    where
      not_live : (i : ℕ) → ph i ≡ live → ⊥
      not_live i e = elim (h i) [
        | inl f ↦ ground (arith, sym f ∙ e)
        | inr f ↦ ground (arith, sym f ∙ e)
      ]

  new_phases :
      (procs : List Process) (i : ℕ)
      → All (λ p. p.state ≡ new) procs
      → (phases procs i ≡ fresh) ⊎ (phases procs i ≡ ended)
  new_phases [] i h = inr refl
  new_phases (p ∷ procs) zero h = inl (ap phase_of_state h.0)
  new_phases (p ∷ procs) (suc i) h = new_phases procs i h.1

  none_used :
      (m : Machine) (ph : ℕ → Phase)
      → IsShared m ph
      → ((j : ℕ) → ph j ≡ ended)
      → m.blocks ≡ construct total
  none_used m ph s h = nothing_used m.blocks s.tiled (λ x. at x (used_at x m.blocks) refl)
    where
      at : (x n : ℕ) → used_at x m.blocks ≡ n → used_at x m.blocks ≡ 0
      at x zero e = e
      at x (suc n) e =
          let (i, live_i, _) = s.whose x (omega (arith, e)) in ground (arith, sym live_i ∙ h i)

  -- Of processes that are new and whose memory sizes are not 0: the loop of the demo ends, and then
  -- the blocks tile the memory with no two free neighbours, each process that was admitted and has
  -- not ended has a used block at its pointer, no two of them the same, each used block is one of
  -- theirs, and where all processes have ended one free block is all of the memory again.
  pub main-IsShared :
      (procs : List Process)
      → All (λ p. p.state ≡ new) procs
      → (over (resource mem_bytes) (main mem_bytes procs) ≡ true)
        × IsShared (main mem_bytes procs).resource (phases (main mem_bytes procs).procs)
        × (all_done (main mem_bytes procs).procs ≡ true
            → (main mem_bytes procs).resource.blocks ≡ construct total)
  unfolding main kept
  main-IsShared procs h =
      let (ends, (t, v)) =
        run-IsSound kept (record { blocks = construct total; allocs = λ i. none }) procs h
          (start-IsShared (phases procs) (λ i. new_phases procs i h)) in
      (
        ends,
        v.holds,
        λ d.
            none_used (main mem_bytes procs).resource (phases (main mem_bytes procs).procs) v.holds
              (all_done-ended (main mem_bytes procs).procs d),
      )
