-- ===== src/Sim/Visualizer/Access.antt =====
-- The access of a process to its page, in the visualizer's demo, on each of its paths.
use memory_allocator.Base.{
  ℕ, ◌<◌, ◌≡◌, ◌≢◌, refl, sym, ap, subst, ◌∙◌, true, Bool-cases, inl, inr, Option, none, some, List,
  [], ◌∷◌, All, contains, arith,
}
use memory_allocator.Sim.Visualizer.{
  num_frames, Page, Memory, find_free_frame, evict, replace, frame_or_replace, filled, fault,
  update_tlb, hit_or_walk, walk, lookup_tlb, translate,
}
use memory_allocator.Sim.Visualizer.Coherence.{
  Owns, IsCoherentBut, IsCoherent, lookup_tlb-Owns, update_tlb-IsCoherent,
}
use memory_allocator.Sim.Visualizer.Faults.{
  Only, Found, find_free-Found, hide-free, hide-evict, fill-IsCoherent,
}

module _ (alive : ℕ → Type 0) where
  -- What a page fault needs: a frame that nothing is about.
  abbrev Chosen : Option (ℕ × Memory) → Type 0
  Chosen none = ⊥
  Chosen (some (pfn, vm)) = (pfn < num_frames) × IsCoherentBut alive (Only pfn) vm

  -- The frame is the page's, and all agrees again.
  abbrev pub Gives : ℕ → ℕ → Option (ℕ × Memory) → Type 0
  Gives pid vpn none = ⊥
  Gives pid vpn (some (pfn, vm)) = Owns vm pid vpn pfn × IsCoherent alive vm

  owner_of_first :
      (vm : Memory) (o : Option ℕ)
      → vm.frame_owner 0 ≡ o
      → o ≢ none
      → IsCoherent alive vm
      → contains vm.fifo_frames 0 ≡ true
  owner_of_first vm none e h c = absurd (h refl)
  owner_of_first vm (some pid) e h c = c.queued 0 pid (λ x. x) e

  replace-Chosen :
      (vm : Memory) (q : List ℕ)
      → vm.fifo_frames ≡ q
      → IsCoherent alive vm
      → ((f : ℕ) → f < num_frames → vm.frame_owner f ≢ none)
      → Chosen (replace vm q)
  unfolding replace
  replace-Chosen vm [] e c full =
      let first = owner_of_first vm (vm.frame_owner 0) refl (full 0 (omega arith)) c in
      ground (arith, sym (ap (λ l. contains l 0) e) ∙ first)
  replace-Chosen vm (pfn ∷ rest) e c full =
      let inside = (subst (All (λ f. f < num_frames)) e c.in_range).0 in
      (inside, evicted (vm.frame_owner pfn) refl (full pfn inside))
    where
      evicted :
          (o : Option ℕ)
          → vm.frame_owner pfn ≡ o
          → o ≢ none
          → IsCoherentBut alive (Only pfn) (evict (record vm { fifo_frames = rest }) pfn o)
      evicted none x h = absurd (h refl)
      evicted (some pid) x h = hide-evict alive vm pfn pid rest c e x

  choose-Chosen :
      (vm : Memory) (o : Option ℕ)
      → IsCoherent alive vm
      → Found 0 num_frames vm.frame_owner o
      → Chosen (frame_or_replace vm o)
  choose-Chosen vm none c h = replace-Chosen vm vm.fifo_frames refl c (λ f l. h f (omega arith) l)
  choose-Chosen vm (some pfn) c h = (h.1, hide-free alive vm pfn c h.0)

  filled-Gives :
      (pid vpn : ℕ) (r : Option (ℕ × Memory))
      → alive pid
      → Chosen r
      → Gives pid vpn (filled pid vpn r)
  filled-Gives pid vpn none a h = h
  filled-Gives pid vpn (some (pfn, vm)) a h =
      let law = fill-IsCoherent alive vm pfn pid vpn h.1 h.0 a in (law.1, law.0)

  fault-Gives :
      (vm : Memory) (pid vpn : ℕ)
      → IsCoherent alive vm
      → alive pid
      → Gives pid vpn (fault vm pid vpn)
  unfolding fault find_free_frame
  fault-Gives vm pid vpn c a =
      filled-Gives pid vpn (frame_or_replace vm (find_free_frame vm)) a
        (choose-Chosen vm (find_free_frame vm) c (find_free-Found num_frames 0 vm.frame_owner))

  walk-Gives :
      (vm : Memory) (pid vpn : ℕ) (o : Option Page)
      → vm.page_table pid vpn ≡ o
      → IsCoherent alive vm
      → alive pid
      → Gives pid vpn (walk vm pid vpn o)
  unfolding walk update_tlb
  walk-Gives vm pid vpn none e c a = fault-Gives vm pid vpn c a
  walk-Gives vm pid vpn (some page) e c a = elim (Bool-cases page.valid) [
    | inl valid ↦
        let o = (c.mapped pid vpn page a e valid).0 in
        rw valid (o, update_tlb-IsCoherent alive vm pid vpn page.pfn c o)
    | inr lost ↦ rw lost (fault-Gives vm pid vpn c a)
  ]

  pub translate-Gives :
      (vm : Memory) (pid vpn : ℕ)
      → IsCoherent alive vm
      → alive pid
      → Gives pid vpn (translate vm pid vpn)
  unfolding translate
  translate-Gives vm pid vpn c a = answered (lookup_tlb vm.tlb pid vpn) refl
    where
      answered :
          (o : Option ℕ) → lookup_tlb vm.tlb pid vpn ≡ o → Gives pid vpn (hit_or_walk vm pid vpn o)
      answered none e = walk-Gives vm pid vpn (vm.page_table pid vpn) refl c a
      answered (some pfn) e = (lookup_tlb-Owns vm pid vpn pfn vm.tlb c.cached e, c)

  -- Where the TLB, the page tables of the processes that have not ended and the queue agree with
  -- the frames, an access of such a process to a page is answered, whether the TLB has the page,
  -- the page table has it, a frame is free or a page has to leave: with a frame that is then the
  -- process's and holds that page, and in a memory where all of it agrees again.
  pub translate-Owns :
      (vm : Memory) (pid vpn : ℕ)
      → IsCoherent alive vm
      → alive pid
      → (pfn : ℕ) × (vm' : Memory) × (translate vm pid vpn ≡ some (pfn, vm'))
        × Owns vm' pid vpn pfn
        × IsCoherent alive vm'
  translate-Owns vm pid vpn c a = given (translate vm pid vpn) refl (translate-Gives vm pid vpn c a)
    where
      given :
          (r : Option (ℕ × Memory))
          → translate vm pid vpn ≡ r
          → Gives pid vpn r
          → (pfn : ℕ) × (vm' : Memory) × (translate vm pid vpn ≡ some (pfn, vm'))
            × Owns vm' pid vpn pfn
            × IsCoherent alive vm'
      given none e h = elim h [ ]
      given (some (pfn, vm')) e h = (pfn, vm', e, h.0, h.1)
