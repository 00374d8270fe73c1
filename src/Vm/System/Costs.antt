-- ===== src/Vm/System/Costs.antt =====
-- What an access counts.
use memory_allocator.Base.{
  ℕ, ◌≡◌, refl, ap, subst, ◌∙◌, if◌then◌else◌, Bool, true, false, Bool-cases, inl, inr, Option,
  none, some, List, [], ◌∷◌, arith,
}
use memory_allocator.Base.Bits.{add64}
use memory_allocator.Vm.PageTable.{Pte}
use memory_allocator.Vm.FrameAllocator
use memory_allocator.Vm.FrameAllocator.{FrameAllocator, ok, bad_alloc}
use memory_allocator.Vm.Tlb
use memory_allocator.Vm.Tlb.{Tlb}
use memory_allocator.Vm.System.{
  Policy, AccessResult, VmSystem, holder, unload, unload_all, page_fault, load, load_evicted,
  load_allocated, evict, walk, walk_hit, mark_dirty, after_tlb, access, pte_of, touch_table,
}

-- The counters and the flags of a fault under way: `hits` and `faults` are what they were.
abbrev Faulting : {S : Type 0} → ℕ → ℕ → AccessResult × VmSystem S → Type 0
Faulting h f (r, s) = (s.hits ≡ h) × (s.faults ≡ f) × (r.page_fault ≡ true) × (r.tlb_hit ≡ false)

unload-Faulting :
    {S : Type 0} {h f : ℕ} (p : ℕ) (o : Option (ℕ × Pte)) (rs : AccessResult × VmSystem S)
    → Faulting h f rs
    → Faulting h f (unload p o rs)
unfolding unload
unload-Faulting p none (r, s) i = i
unload-Faulting p (some (vpn, e)) (r, s) i = elim (Bool-cases e.dirty) [
  | inl d ↦ rw d i
  | inr d ↦ rw d i
]

unload_all-Faulting :
    {S : Type 0} {h f : ℕ} (frame : ℕ) (l : List (ℕ × List (ℕ × Pte)))
    (rs : AccessResult × VmSystem S)
    → Faulting h f rs
    → Faulting h f (unload_all frame l rs)
unfolding unload_all
unload_all-Faulting frame [] rs i = i
unload_all-Faulting frame ((p, t) ∷ l) rs i =
    let o = holder frame t (rs.1.loaded_vpns p) in
    unload_all-Faulting frame l (unload p o rs) (unload-Faulting p o rs i)

module _ {S : Type 0} (policy : Policy S) (pid vpn : ℕ) (w : Bool) (h f : ℕ) where
  -- From counters `h` and `f`: exactly one of them goes up by one.
  abbrev pub Counted : Option (AccessResult × VmSystem S) → Type 0
  Counted none = Unit
  Counted (some (r, t)) =
      (t.hits ≡ (if r.page_fault then h else add64 h 1))
      × (t.faults ≡ (if r.page_fault then add64 f 1 else f))
      × (r.tlb_hit ≡ true → r.page_fault ≡ false)

  fault-Counted :
      (r : AccessResult) (s : VmSystem S) (frame : ℕ)
      → Faulting h (add64 f 1) (r, s)
      → Counted (some (load policy pid vpn w frame (r, s)))
  unfolding load
  fault-Counted r s frame (a, b, c, d) = (rw c a, rw c b, λ e. ground (arith, d, e))

  evict-Counted :
      (r : AccessResult) (s : VmSystem S) (v : Option ℕ × S)
      → Faulting h (add64 f 1) (r, s)
      → Counted (load_evicted policy pid vpn w (evict policy r s v))
  unfolding load_evicted evict
  evict-Counted r s (none, p) i = _
  evict-Counted r s (some frame, p) i =
      let out =
        unload_all frame s.page_tables (record r { evicted = true }, record s { policy = p }) in
      fault-Counted out.0 (record out.1 { policy = policy.on_evict out.1.policy frame }) frame
        (unload_all-Faulting frame s.page_tables
          (record r { evicted = true }, record s { policy = p }) i)

  allocated-Counted :
      (r : AccessResult) (s : VmSystem S) (a : FrameAllocator.Result (ℕ × FrameAllocator))
      → Faulting h (add64 f 1) (r, s)
      → Counted (load_allocated policy pid vpn w r s a)
  unfolding load_allocated
  allocated-Counted r s (ok (frame, a)) i = fault-Counted r (record s { frame_alloc = a }) frame i
  allocated-Counted r s bad_alloc i = evict-Counted r s (policy.victim s.policy) i

  walk-Counted :
      (r : AccessResult) (s : VmSystem S) (o : Option Pte)
      → s.hits ≡ h
      → s.faults ≡ f
      → r.page_fault ≡ false
      → r.tlb_hit ≡ false
      → Counted (walk policy pid vpn w r s o)
  unfolding walk walk_hit page_fault
  walk-Counted r s o a b c d = walked o
    where
      faulted : Counted (page_fault policy pid vpn w r s)
      faulted =
          allocated-Counted (record r { page_fault = true })
            (record s { faults = add64 s.faults 1 }) (FrameAllocator.alloc s.frame_alloc)
            (a, ap (λ n. add64 n 1) b, refl, d)

      walked : (o : Option Pte) → Counted (walk policy pid vpn w r s o)
      walked none = faulted
      walked (some e) = elim (Bool-cases e.present) [
        | inl here ↦ rw (here, c) (ap (λ n. add64 n 1) a, b, λ _. refl)
        | inr away ↦ rw away faulted
      ]

  mark-counters :
      (s : VmSystem S) (o : Option Pte)
      → ((mark_dirty pid vpn s o).hits ≡ s.hits) × ((mark_dirty pid vpn s o).faults ≡ s.faults)
  unfolding mark_dirty
  mark-counters s none = (refl, refl)
  mark-counters s (some e) = (refl, refl)

  tlb-Counted :
      (s : VmSystem S) (l : Option ℕ × Tlb)
      → s.hits ≡ h
      → s.faults ≡ f
      → Counted (after_tlb policy pid vpn w s l)
  unfolding after_tlb
  tlb-Counted s (none, t) a b =
      let s1 = touch_table (record s { tlb = Tlb.count_miss t }) pid in
      walk-Counted
        (record {
          tlb_hit = false;
          page_fault = false;
          evicted = false;
          dirty_evict = false;
          cost_ns = s.costs.tlb_ns;
        })
        s1 (pte_of s1 pid vpn) a b refl refl
  tlb-Counted s (some frame, t) a b =
      let touched = touch_table (record s { tlb = t }) pid in
      let (c, d) = mark-counters touched (pte_of touched pid vpn) in
      elim (Bool-cases w) [
        | inr read ↦ rw read (ap (λ n. add64 n 1) a, b, λ _. refl)
        | inl write ↦ rw write (ap (λ n. add64 n 1) (c ∙ a), d ∙ b, λ _. refl)
      ]

-- Whatever the policy: an access that returns counts a fault or a hit, whichever it reports, once,
-- and leaves the other counter alone; a TLB hit is not a fault.
pub access_counts :
    {S : Type 0} (policy : Policy S) (pid vpn : ℕ) (w : Bool) (s : VmSystem S) {r : AccessResult}
    {t : VmSystem S}
    → access policy s pid vpn w ≡ some (r, t)
    → (t.hits ≡ (if r.page_fault then s.hits else add64 s.hits 1))
      × (t.faults ≡ (if r.page_fault then add64 s.faults 1 else s.faults))
      × (r.tlb_hit ≡ true → r.page_fault ≡ false)
unfolding access
access_counts policy pid vpn w s e =
    subst (Counted policy pid vpn w s.hits s.faults) e
      (tlb-Counted policy pid vpn w s.hits s.faults s (Tlb.lookup s.tlb pid vpn) refl refl)
