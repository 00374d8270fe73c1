-- ===== src/Sim/Visualizer.antt =====
-- memlab/sim/visualizer_demo.cpp: the virtual memory of its processes, and its loop by Sim/Demo. A
-- pid of -1, of a frame that is free or an entry of the TLB that was never filled, is `none`. The
-- frames and the page tables are functions. The random numbers are a parameter, `draw`, of which
-- `drawn` are used up. The names of segments and the trace are left out.
pub mod Coherence
pub mod Faults
pub mod Access
pub mod Processes
mod Tests
use memory_allocator.Base.{
  ℕ, zero, suc, ◌+◌, ◌%◌, ltb, ◌==◌, if◌then◌else◌, ◌&&◌, Bool, true, false, Option, none, some,
  List, [], ◌∷◌, ◌++◌, map, get_elem?, set,
}
use memory_allocator.Sched.Process.{Process, add32}
use memory_allocator.Sim.Demo.{Resource, Demo}
use memory_allocator.Sim.Demo

abbrev pub num_frames : ℕ
num_frames = 32

abbrev pub tlb_size : ℕ
tlb_size = 8

pub record Entry : Type 0 where
  pub pid : Option ℕ
  pub vpn : ℕ
  pub pfn : ℕ
  pub valid : Bool

pub record Page : Type 0 where
  pub pfn : ℕ
  pub valid : Bool

pub record Memory : Type 0 where
  pub frame_owner : ℕ → Option ℕ
  pub frame_vpn : ℕ → ℕ
  pub fifo_frames : List ℕ
  pub page_table : ℕ → ℕ → Option Page
  pub tlb : List Entry
  pub tlb_idx : ℕ

abbrev pub empty_entry : Entry
empty_entry = record { pid = none; vpn = 0; pfn = 0; valid = false }

abbrev pub entries : ℕ → List Entry
entries zero = []
entries (suc n) = empty_entry ∷ entries n

unfoldable pub construct : Memory
construct = record {
  frame_owner = λ f. none;
  frame_vpn = λ f. 0;
  fifo_frames = [];
  page_table = λ pid vpn. none;
  tlb = entries tlb_size;
  tlb_idx = 0;
}

-- A function with one value changed.
abbrev pub assign {ℓ} : {A : Type ℓ} → (ℕ → A) → ℕ → A → ℕ → A
assign f i x j = if j == i then x else f j

abbrev pub is_pid : Option ℕ → ℕ → Bool
is_pid none pid = false
is_pid (some q) pid = q == pid

abbrev pub free_or : Option ℕ → ℕ → Option ℕ → Option ℕ
free_or none pfn later = some pfn
free_or (some p) pfn later = later

-- The loop, for `left` frames from `pfn` on.
unfoldable pub find_free : ℕ → ℕ → (ℕ → Option ℕ) → Option ℕ
find_free zero pfn owner = none
find_free (suc left) pfn owner = free_or (owner pfn) pfn (find_free left (suc pfn) owner)

unfoldable pub find_free_frame : Memory → Option ℕ
unfolding find_free
find_free_frame vm = find_free num_frames 0 vm.frame_owner

abbrev pub hits : ℕ → ℕ → Entry → Bool
hits pid vpn e = e.valid && is_pid e.pid pid && e.vpn == vpn

unfoldable pub lookup_tlb : List Entry → ℕ → ℕ → Option ℕ
lookup_tlb [] pid vpn = none
lookup_tlb (e ∷ rest) pid vpn =
    let later = lookup_tlb rest pid vpn in if hits pid vpn e then some e.pfn else later

unfoldable pub update_tlb : Memory → ℕ → ℕ → ℕ → Memory
update_tlb vm pid vpn pfn = record vm {
  tlb = set vm.tlb vm.tlb_idx (record { pid = some pid; vpn = vpn; pfn = pfn; valid = true });
  tlb_idx = (vm.tlb_idx + 1) % tlb_size;
}

abbrev pub unless : Bool → Entry → Entry
unless b e = if b then record e { valid = false } else e

unfoldable pub invalidate_tlb_for_pid : Memory → ℕ → Memory
invalidate_tlb_for_pid vm pid = record vm { tlb = map (λ e. unless (is_pid e.pid pid) e) vm.tlb }

unfoldable pub invalidate_tlb_for_pfn : Memory → ℕ → Memory
invalidate_tlb_for_pfn vm pfn = record vm { tlb = map (λ e. unless (e.pfn == pfn) e) vm.tlb }

abbrev pub set_page : Memory → ℕ → ℕ → Page → Memory
set_page vm pid vpn page = record vm {
  page_table = λ p v. if p == pid && v == vpn then some page else vm.page_table p v;
}

-- `page_table[{pid, vpn}].valid = false`, where a missing page is made first.
abbrev pub invalid : Option Page → Page
invalid none = record { pfn = 0; valid = false }
invalid (some page) = record page { valid = false }

-- The page of the frame `pfn` is lost; an owner of -1 has no pages here.
unfoldable pub evict : Memory → ℕ → Option ℕ → Memory
unfolding invalidate_tlb_for_pfn
evict vm pfn none = invalidate_tlb_for_pfn vm pfn
evict vm pfn (some pid) =
    let vpn = vm.frame_vpn pfn in
    invalidate_tlb_for_pfn (set_page vm pid vpn (invalid (vm.page_table pid vpn))) pfn

-- The first frame of the queue, evicted; `front` of an empty queue is undefined.
unfoldable pub replace : Memory → List ℕ → Option (ℕ × Memory)
unfolding evict
replace vm [] = none
replace vm (pfn ∷ rest) =
    some (pfn, evict (record vm { fifo_frames = rest }) pfn (vm.frame_owner pfn))

abbrev pub frame_or_replace : Memory → Option ℕ → Option (ℕ × Memory)
frame_or_replace vm (some pfn) = some (pfn, vm)
frame_or_replace vm none = replace vm vm.fifo_frames

-- The frame is the page's.
unfoldable pub fill : ℕ → ℕ → Memory → ℕ → Memory
unfolding update_tlb
fill pid vpn vm pfn =
    let owned = record vm {
      frame_owner = assign vm.frame_owner pfn (some pid);
      frame_vpn = assign vm.frame_vpn pfn vpn;
      fifo_frames = vm.fifo_frames ++ pfn ∷ [];
    } in
    update_tlb (set_page owned pid vpn (record { pfn = pfn; valid = true })) pid vpn pfn

abbrev pub filled : ℕ → ℕ → Option (ℕ × Memory) → Option (ℕ × Memory)
filled pid vpn none = none
filled pid vpn (some (pfn, vm)) = some (pfn, fill pid vpn vm pfn)

-- The page fault.
unfoldable pub fault : Memory → ℕ → ℕ → Option (ℕ × Memory)
unfolding find_free_frame replace fill
fault vm pid vpn = filled pid vpn (frame_or_replace vm (find_free_frame vm))

-- The lookup in the page table, behind a miss of the TLB.
unfoldable pub walk : Memory → ℕ → ℕ → Option Page → Option (ℕ × Memory)
unfolding fault update_tlb
walk vm pid vpn none = fault vm pid vpn
walk vm pid vpn (some page) =
    if page.valid then some (page.pfn, update_tlb vm pid vpn page.pfn) else fault vm pid vpn

abbrev pub hit_or_walk : Memory → ℕ → ℕ → Option ℕ → Option (ℕ × Memory)
hit_or_walk vm pid vpn (some pfn) = some (pfn, vm)
hit_or_walk vm pid vpn none = walk vm pid vpn (vm.page_table pid vpn)

-- An access of a process to its page, with the frame.
unfoldable pub translate : Memory → ℕ → ℕ → Option (ℕ × Memory)
unfolding lookup_tlb walk
translate vm pid vpn = hit_or_walk vm pid vpn (lookup_tlb vm.tlb pid vpn)

-- The frames of a process that ends become free.
unfoldable pub free_frames : ℕ → Memory → Memory
free_frames pid vm = record vm {
  frame_owner =
      λ f. if ltb f num_frames && is_pid (vm.frame_owner f) pid then none else vm.frame_owner f;
}

unfoldable pub exit_process : Memory → ℕ → Memory
unfolding free_frames invalidate_tlb_for_pid
exit_process vm pid = invalidate_tlb_for_pid (free_frames pid vm) pid

-- The first page and the number of pages of a segment.
abbrev pub segments : List (ℕ × ℕ)
segments = (0, 2) ∷ (2, 2) ∷ (4, 4) ∷ (8, 2) ∷ []

pub record Machine : Type 0 where
  pub vm : Memory
  pub drawn : ℕ

module _ (draw : ℕ → ℕ) where
  abbrev pub page_in : Option (ℕ × ℕ) → ℕ → ℕ
  page_in none n = 0
  page_in (some (base_vpn, num_pages)) n = base_vpn + draw n % num_pages

  unfoldable pub target_vpn : ℕ → ℕ → ℕ → ℕ
  target_vpn tick pid n = page_in (get_elem? segments (add32 tick pid % 4)) n

  abbrev pub accessed : Machine → Option (ℕ × Memory) → Machine
  accessed m none = m
  accessed m (some (pfn, vm)) = record { vm = vm; drawn = m.drawn + 2 }

  -- The offset in the page takes a random number too.
  unfoldable pub access : Machine → ℕ → ℕ → Machine
  unfolding translate target_vpn
  access m tick pid = accessed m (translate m.vm pid (target_vpn tick pid m.drawn))

  -- Nothing keeps a process from being admitted, so that none ever waits for memory.
  unfoldable pub resource : Resource Machine
  unfolding access exit_process
  resource = record {
    admit = λ m i. some m;
    access = λ m tick i. access m tick (i + 1);
    release = λ m i. record m { vm = exit_process m.vm (i + 1) };
  }

  -- The program, for processes and the random numbers that their making took.
  unfoldable pub main : ℕ → List Process → Demo Machine
  unfolding construct resource Demo.run
  main drawn procs = Demo.run resource (record { vm = construct; drawn = drawn }) procs
