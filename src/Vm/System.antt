-- ===== src/Vm/System.antt =====
-- memlab/sim/vm_sim_main.cpp, VMSystem. The replacement policy is an interface that the section
-- takes. `access` gives none where the policy has no victim to name, which the source leaves
-- undefined. A page table that a process has not used yet is empty, as is its list of pages.
mod Costs
mod Repeat
mod Tests
use memory_allocator.Base.{
  ℕ, ◌==◌, if◌then◌else◌, ◌&&◌, ◌||◌, Bool, true, false, Option, none, some, List, [], ◌∷◌, ◌++◌,
}
use memory_allocator.Base.Bits.{add64}
use memory_allocator.Vm.PageTable
use memory_allocator.Vm.PageTable.{Pte}
use memory_allocator.Vm.Tlb
use memory_allocator.Vm.Tlb.{Tlb, count_miss}
use memory_allocator.Vm.FrameAllocator
use memory_allocator.Vm.FrameAllocator.{FrameAllocator, has_free, ok, bad_alloc}

-- IReplacement, for a policy of states `S`.
pub record Policy (S : Type 0) : Type 0 where
  pub on_load : S → ℕ → S
  pub on_access : S → ℕ → S
  pub victim : S → Option ℕ × S
  pub on_evict : S → ℕ → S

pub record CostModel : Type 0 where
  pub tlb_ns : ℕ
  pub mem_ns : ℕ
  pub disk_ns : ℕ

abbrev pub default_costs : CostModel
default_costs = record { tlb_ns = 1; mem_ns = 100; disk_ns = 10000000 }

pub record AccessResult : Type 0 where
  pub tlb_hit : Bool
  pub page_fault : Bool
  pub evicted : Bool
  pub dirty_evict : Bool
  pub cost_ns : ℕ

pub record VmSystem (S : Type 0) : Type 0 where
  pub policy : S
  pub costs : CostModel
  pub tlb : Tlb
  pub frame_alloc : FrameAllocator
  pub page_tables : List (ℕ × List (ℕ × Pte))
  pub loaded_vpns : ℕ → List ℕ
  pub faults : ℕ
  pub hits : ℕ

unfoldable pub construct : {S : Type 0} → ℕ → S → CostModel → VmSystem S
construct frames policy costs = record {
  policy = policy;
  costs = costs;
  tlb = Tlb.construct 64;
  frame_alloc = FrameAllocator.construct frames;
  page_tables = [];
  loaded_vpns = λ p. [];
  faults = 0;
  hits = 0;
}

unfoldable pub table_of : ℕ → List (ℕ × List (ℕ × Pte)) → List (ℕ × Pte)
table_of pid [] = []
table_of pid ((p, t) ∷ rest) = if p == pid then t else table_of pid rest

unfoldable pub set_table :
    ℕ → List (ℕ × Pte) → List (ℕ × List (ℕ × Pte)) → List (ℕ × List (ℕ × Pte))
set_table pid t [] = (pid, t) ∷ []
set_table pid t ((p, u) ∷ rest) =
    let later = set_table pid t rest in if p == pid then (p, t) ∷ rest else (p, u) ∷ later

-- Writing an entry of a process's page table.
abbrev pub write_pte : {S : Type 0} → VmSystem S → ℕ → ℕ → Pte → VmSystem S
write_pte s pid vpn v = record s {
  page_tables = set_table pid (PageTable.write vpn v (table_of pid s.page_tables)) s.page_tables;
}

abbrev pub pte_of : {S : Type 0} → VmSystem S → ℕ → ℕ → Option Pte
pte_of s pid vpn = PageTable.lookup vpn (table_of pid s.page_tables)

-- `_page_tables[pid]`, which enters a process that is not there.
abbrev pub touch_table : {S : Type 0} → VmSystem S → ℕ → VmSystem S
touch_table s pid = record s {
  page_tables = set_table pid (table_of pid s.page_tables) s.page_tables;
}

-- The first loaded page of a process that the frame holds.
unfoldable pub holder : ℕ → List (ℕ × Pte) → List ℕ → Option (ℕ × Pte)
holder frame t [] = none
holder frame t (vpn ∷ rest) =
    let later = holder frame t rest in
    elim (PageTable.lookup vpn t) [
      | none ↦ later
      | some e ↦ if e.present && e.frame == frame then some (vpn, e) else later
    ]

-- `erase(find(..))`: the first occurrence.
unfoldable pub erase_first : ℕ → List ℕ → List ℕ
erase_first v [] = []
erase_first v (x ∷ rest) = if x == v then rest else x ∷ erase_first v rest

-- What eviction does to the page of process `p` that the frame held, and to the result.
unfoldable pub unload :
    {S : Type 0} → ℕ → Option (ℕ × Pte) → AccessResult × VmSystem S → AccessResult × VmSystem S
unfolding erase_first set_table table_of
unload p none (r, s) = (r, s)
unload p (some (vpn, e)) (r, s) = (
  (if e.dirty
      then record r { dirty_evict = true; cost_ns = add64 r.cost_ns s.costs.disk_ns }
      else r),
  record (write_pte s p vpn (record e { present = false })) {
    tlb = Tlb.invalidate s.tlb p vpn;
    loaded_vpns = λ q. if p == q then erase_first vpn (s.loaded_vpns p) else s.loaded_vpns q;
  },
)

-- The loop over the processes.
unfoldable pub unload_all :
    {S : Type 0}
    → ℕ
    → List (ℕ × List (ℕ × Pte))
    → AccessResult × VmSystem S
    → AccessResult × VmSystem S
unfolding holder unload
unload_all frame [] rs = rs
unload_all frame ((p, t) ∷ rest) rs =
    unload_all frame rest (unload p (holder frame t (rs.1.loaded_vpns p)) rs)

-- A write through the TLB marks the page's entry, if it has one.
unfoldable pub mark_dirty : {S : Type 0} → ℕ → ℕ → VmSystem S → Option Pte → VmSystem S
unfolding set_table table_of
mark_dirty pid vpn s none = s
mark_dirty pid vpn s (some e) = write_pte s pid vpn (record e { dirty = true })

module _ {S : Type 0} (policy : Policy S) where
  -- Loading the page into the frame, at the end of `access`.
  unfoldable pub load : ℕ → ℕ → Bool → ℕ → AccessResult × VmSystem S → AccessResult × VmSystem S
  unfolding set_table table_of
  load pid vpn is_write frame (r, s) =
      let e : Pte = record { frame = frame; present = true; dirty = is_write; referenced = true } in
      (
        record r { cost_ns = add64 (add64 r.cost_ns s.costs.disk_ns) s.costs.mem_ns },
        record (write_pte s pid vpn e) {
          tlb = Tlb.insert s.tlb pid vpn frame;
          policy = policy.on_load s.policy frame;
          loaded_vpns = λ q. if pid == q then s.loaded_vpns pid ++ vpn ∷ [] else s.loaded_vpns q;
        },
      )

  -- Taking a frame from a process.
  unfoldable pub evict :
      AccessResult → VmSystem S → Option ℕ × S → Option (ℕ × AccessResult × VmSystem S)
  unfolding unload_all
  evict r s (none, p) = none
  evict r s (some frame, p) =
      let out =
        unload_all frame s.page_tables (record r { evicted = true }, record s { policy = p }) in
      some (frame, out.0, record out.1 { policy = policy.on_evict out.1.policy frame })

  unfoldable pub load_evicted :
      ℕ → ℕ → Bool → Option (ℕ × AccessResult × VmSystem S) → Option (AccessResult × VmSystem S)
  unfolding load
  load_evicted pid vpn is_write none = none
  load_evicted pid vpn is_write (some (frame, r, s)) = some (load pid vpn is_write frame (r, s))

  -- `alloc` returns a frame exactly when `has_free` holds.
  unfoldable pub load_allocated :
      ℕ
      → ℕ
      → Bool
      → AccessResult
      → VmSystem S
      → FrameAllocator.Result (ℕ × FrameAllocator)
      → Option (AccessResult × VmSystem S)
  unfolding load load_evicted evict
  load_allocated pid vpn is_write r s (ok (frame, a)) =
      some (load pid vpn is_write frame (r, record s { frame_alloc = a }))
  load_allocated pid vpn is_write r s bad_alloc =
      load_evicted pid vpn is_write (evict r s (policy.victim s.policy))

  unfoldable pub page_fault :
      ℕ → ℕ → Bool → AccessResult → VmSystem S → Option (AccessResult × VmSystem S)
  unfolding load_allocated
  page_fault pid vpn is_write r s =
      load_allocated pid vpn is_write (record r { page_fault = true })
        (record s { faults = add64 s.faults 1 }) (FrameAllocator.alloc s.frame_alloc)

  -- A page that is present, though the TLB missed it.
  unfoldable pub walk_hit :
      ℕ → ℕ → Bool → AccessResult → VmSystem S → Pte → AccessResult × VmSystem S
  unfolding set_table table_of
  walk_hit pid vpn is_write r s e =
      let v = record e { referenced = true; dirty = is_write || e.dirty } in
      (
        record r { cost_ns = add64 r.cost_ns s.costs.mem_ns },
        record (write_pte s pid vpn v) {
          tlb = Tlb.insert s.tlb pid vpn e.frame;
          policy = policy.on_access s.policy e.frame;
          hits = add64 s.hits 1;
        },
      )

  unfoldable pub walk :
      ℕ → ℕ → Bool → AccessResult → VmSystem S → Option Pte → Option (AccessResult × VmSystem S)
  unfolding walk_hit page_fault
  walk pid vpn is_write r s none = page_fault pid vpn is_write r s
  walk pid vpn is_write r s (some e) =
      let fault = page_fault pid vpn is_write r s in
      if e.present then some (walk_hit pid vpn is_write r s e) else fault

  -- The two ways on from the TLB.
  unfoldable pub after_tlb :
      ℕ → ℕ → Bool → VmSystem S → Option ℕ × Tlb → Option (AccessResult × VmSystem S)
  unfolding walk mark_dirty set_table table_of
  after_tlb pid vpn is_write s (some frame, t) =
      let r : AccessResult = record {
        tlb_hit = true;
        page_fault = false;
        evicted = false;
        dirty_evict = false;
        cost_ns = add64 s.costs.tlb_ns s.costs.mem_ns;
      } in
      let touched = touch_table (record s { tlb = t }) pid in
      let s1 =
        if is_write
        then mark_dirty pid vpn touched (pte_of touched pid vpn)
        else record s { tlb = t } in
      some (r, record s1 { policy = policy.on_access s1.policy frame; hits = add64 s1.hits 1 })
  after_tlb pid vpn is_write s (none, t) =
      let r : AccessResult = record {
        tlb_hit = false;
        page_fault = false;
        evicted = false;
        dirty_evict = false;
        cost_ns = s.costs.tlb_ns;
      } in
      let s1 = touch_table (record s { tlb = count_miss t }) pid in
      walk pid vpn is_write r s1 (pte_of s1 pid vpn)

  unfoldable pub access : VmSystem S → ℕ → ℕ → Bool → Option (AccessResult × VmSystem S)
  unfolding after_tlb
  access s pid vpn is_write = after_tlb pid vpn is_write s (Tlb.lookup s.tlb pid vpn)

  -- The loop of `run_sim`: process 1 reads each page of the trace.
  unfoldable pub run_trace : List ℕ → VmSystem S → Option (VmSystem S)
  unfolding access
  run_trace [] s = some s
  run_trace (vpn ∷ rest) s = elim (access s 1 vpn false) [
    | none ↦ none
    | some o ↦ run_trace rest o.1
  ]

unfoldable pub total : {S : Type 0} → VmSystem S → ℕ
total s = add64 s.hits s.faults
