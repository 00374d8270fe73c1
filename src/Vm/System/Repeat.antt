-- ===== src/Vm/System/Repeat.antt =====
-- What an access leaves in the TLB.
use memory_allocator.Base.{
  ℕ, ◌≡◌, refl, sym, ap, subst, ◌∙◌, Bool, true, false, Bool-cases, inl, inr, Option, none, some,
  arith,
}
use memory_allocator.Base.Bits
use memory_allocator.Vm.PageTable.{Pte}
use memory_allocator.Vm.FrameAllocator
use memory_allocator.Vm.FrameAllocator.{FrameAllocator, ok, bad_alloc}
use memory_allocator.Vm.Tlb
use memory_allocator.Vm.Tlb.{Tlb}
use memory_allocator.Vm.Tlb.Mapping.{maps, insert-maps, lookup-maps}
use memory_allocator.Vm.System.{
  Policy, AccessResult, VmSystem, page_fault, load, load_evicted, load_allocated, evict, walk,
  walk_hit, mark_dirty, after_tlb, access, pte_of, touch_table,
}

module _ {S : Type 0} (policy : Policy S) (pid vpn : ℕ) (w : Bool) where
  -- The outcome, if there is one, has the page in its TLB.
  abbrev Cached : Option (AccessResult × VmSystem S) → Type 0
  Cached none = Unit
  Cached (some (r, s)) = (frame : ℕ) × (maps s.tlb pid vpn ≡ some frame)

  evicted-Cached :
      (o : Option (ℕ × AccessResult × VmSystem S)) → Cached (load_evicted policy pid vpn w o)
  unfolding load_evicted load
  evicted-Cached none = _
  evicted-Cached (some (frame, r, s)) = (frame, (insert-maps s.tlb pid vpn frame).0)

  allocated-Cached :
      (r : AccessResult) (s : VmSystem S) (a : FrameAllocator.Result (ℕ × FrameAllocator))
      → Cached (load_allocated policy pid vpn w r s a)
  unfolding load_allocated load
  allocated-Cached r s (ok (frame, a)) = (frame, (insert-maps s.tlb pid vpn frame).0)
  allocated-Cached r s bad_alloc = evicted-Cached (evict policy r s (policy.victim s.policy))

  fault-Cached : (r : AccessResult) (s : VmSystem S) → Cached (page_fault policy pid vpn w r s)
  unfolding page_fault
  fault-Cached r s =
      allocated-Cached (record r { page_fault = true })
        (record s { faults = Bits.add64 s.faults 1 }) (FrameAllocator.alloc s.frame_alloc)

  walk-Cached :
      (r : AccessResult) (s : VmSystem S) (o : Option Pte) → Cached (walk policy pid vpn w r s o)
  unfolding walk walk_hit
  walk-Cached r s none = fault-Cached r s
  walk-Cached r s (some e) = elim (Bool-cases e.present) [
    | inl here ↦ rw here (e.frame, (insert-maps s.tlb pid vpn e.frame).0)
    | inr away ↦ rw away (fault-Cached r s)
  ]

  mark-tlb : (s : VmSystem S) (o : Option Pte) → (mark_dirty pid vpn s o).tlb ≡ s.tlb
  unfolding mark_dirty
  mark-tlb s none = refl
  mark-tlb s (some e) = refl

  tlb-Cached :
      (s : VmSystem S) (l : Option ℕ × Tlb)
      → l.0 ≡ maps l.1 pid vpn
      → Cached (after_tlb policy pid vpn w s l)
  unfolding after_tlb
  tlb-Cached s (none, t) h =
      let s1 = touch_table (record s { tlb = Tlb.count_miss t }) pid in
      walk-Cached
        (record {
          tlb_hit = false;
          page_fault = false;
          evicted = false;
          dirty_evict = false;
          cost_ns = s.costs.tlb_ns;
        })
        s1 (pte_of s1 pid vpn)
  tlb-Cached s (some frame, t) h = elim (Bool-cases w) [
    | inr read ↦ rw read (frame, sym h)
    | inl write ↦
        let touched = touch_table (record s { tlb = t }) pid in
        rw write
          (frame, ap (λ u. maps u pid vpn) (mark-tlb touched (pte_of touched pid vpn)) ∙ sym h)
  ]

  access-Cached : (s : VmSystem S) → Cached (access policy s pid vpn w)
  unfolding access
  access-Cached s =
      let (found, kept) = lookup-maps s.tlb pid vpn in
      tlb-Cached s (Tlb.lookup s.tlb pid vpn) (found ∙ sym (kept pid vpn))

  hit-outcome :
      (s : VmSystem S) (l : Option ℕ × Tlb) (frame : ℕ)
      → l.0 ≡ some frame
      → (q : AccessResult) × (u : VmSystem S) × (after_tlb policy pid vpn w s l ≡ some (q, u))
        × (q.tlb_hit ≡ true)
        × (q.page_fault ≡ false)
        × (q.cost_ns ≡ Bits.add64 s.costs.tlb_ns s.costs.mem_ns)
  unfolding after_tlb
  hit-outcome s (none, t) frame h = ground (arith, h)
  hit-outcome s (some f, t) frame h = (_, _, refl, refl, refl, refl)

-- Whatever the policy: a page that an access has returned is in the TLB, so that the access that
-- follows it is a TLB hit, at the cost of the TLB and of memory.
pub access_again :
    {S : Type 0} (policy : Policy S) (pid vpn : ℕ) (w w2 : Bool) (s : VmSystem S) {r : AccessResult}
    {t : VmSystem S}
    → access policy s pid vpn w ≡ some (r, t)
    → (q : AccessResult) × (u : VmSystem S) × (access policy t pid vpn w2 ≡ some (q, u))
      × (q.tlb_hit ≡ true)
      × (q.page_fault ≡ false)
      × (q.cost_ns ≡ Bits.add64 t.costs.tlb_ns t.costs.mem_ns)
unfolding access
access_again policy pid vpn w w2 s {r} {t} e =
    let (frame, h) = subst (Cached policy pid vpn w) e (access-Cached policy pid vpn w s) in
    hit-outcome policy pid vpn w2 t (Tlb.lookup t.tlb pid vpn) frame
      ((lookup-maps t.tlb pid vpn).0 ∙ h)
