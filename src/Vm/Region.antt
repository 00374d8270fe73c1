-- ===== src/Vm/Region.antt =====
-- memlab/include/memlab/vm/vmem_region.hpp, VmemRegion, as compiled for Linux with
-- MADV_POPULATE_WRITE. The calls of the OS and the writes that touch a page are logged, the latest
-- last. What `mmap` and `mlock` answer and the size of a page are arguments. The background thread
-- is a flag, its offset, and its rounds as steps of their own.
pub mod Worker
pub mod Release
pub mod Touch
mod Tests
use memory_allocator.Base.{
  ℕ, zero, suc, ◌-◌, ◌*◌, ◌/◌, ◌%◌, ◌^◌, ltb, ◌==◌, if◌then◌else◌, not, ◌&&◌, ◌||◌, Bool, true,
  false, List, [], ◌∷◌, ◌++◌,
}
use memory_allocator.Base.Bits.{add64, sub64}
use memory_allocator.Memory.Utils.{align_up}
use memory_allocator.Memory.VirtualMemory.{map_failed}

pub data PrefaultPolicy : Type 0 where
  lazy : PrefaultPolicy
  eager_touch : PrefaultPolicy
  map_populate : PrefaultPolicy
  adaptive : PrefaultPolicy

pub data Call : Type 0 where
  -- The size, and whether `MAP_POPULATE` and `MAP_HUGETLB` are set.
  mmap : ℕ → Bool → Bool → Call
  munmap : ℕ → ℕ → Call
  madvise_hugepage : ℕ → ℕ → Call
  madvise_populate : ℕ → ℕ → Call
  mlock : ℕ → ℕ → Call
  munlock : ℕ → ℕ → Call
  write : ℕ → Call

pub record VmemRegion : Type 0 where
  pub base : ℕ
  pub size : ℕ
  pub policy : PrefaultPolicy
  pub locked : Bool
  pub prefaulted : ℕ
  pub hwm_bytes : ℕ
  pub stop_bg : Bool
  pub bg_joinable : Bool

pub data Mapped (A : Type 0) : Type 0 where
  ok : A → List Call → Mapped A
  runtime_error : List Call → Mapped A

abbrev pub watermark_pages : ℕ
watermark_pages = 64

abbrev pub is_map_populate : PrefaultPolicy → Bool
is_map_populate lazy = false
is_map_populate eager_touch = false
is_map_populate map_populate = true
is_map_populate adaptive = false

unfoldable pub map_region : ℕ → ℕ → PrefaultPolicy → Bool → List Call → Mapped ℕ
map_region answer sz policy huge log =
    let populate = is_map_populate policy in
    let huge_tlb = huge in
    let mapped = log ++ mmap sz populate huge_tlb ∷ [] in
    if answer == map_failed
    then runtime_error mapped
    else if huge && not huge_tlb
    then ok answer (mapped ++ madvise_hugepage answer sz ∷ [])
    else ok answer mapped

unfoldable pub unmap_region : ℕ → ℕ → List Call → List Call
unmap_region p sz log = if p == 0 || sz == 0 then log else log ++ munmap p sz ∷ []

-- The loop of `eager_touch` from `off` on, for `left` rounds at most.
unfoldable pub touch_from : ℕ → ℕ → ℕ → ℕ → ℕ → List Call
touch_from zero page base sz off = []
touch_from (suc left) page base sz off =
    let rest = touch_from left page base sz (add64 off page) in
    if ltb off sz then write (add64 base off) ∷ rest else []

-- A round takes a page, so that the pages of the region and one more are rounds enough.
unfoldable pub touch_pages : ℕ → ℕ → ℕ → List Call
unfolding touch_from
touch_pages page base sz = touch_from (suc (sz / page)) page base sz 0

unfoldable pub do_mlock : Bool → VmemRegion → List Call → VmemRegion × List Call
do_mlock granted r log =
    (if granted then record r { locked = true } else r, log ++ mlock r.base r.size ∷ [])

unfoldable pub do_munlock : VmemRegion → List Call → VmemRegion × List Call
do_munlock r log = (record r { locked = false }, log ++ munlock r.base r.size ∷ [])

unfoldable pub round_up_to_page : ℕ → ℕ → ℕ
round_up_to_page page bytes = align_up bytes page

-- What the policy asks for once the region is mapped.
unfoldable pub prefault : ℕ → VmemRegion → List Call → PrefaultPolicy → VmemRegion × List Call
unfolding touch_pages
prefault page r log lazy = (record r { prefaulted = 0 }, log)
prefault page r log map_populate = (record r { prefaulted = r.size }, log)
prefault page r log eager_touch =
    (record r { prefaulted = r.size }, log ++ touch_pages page r.base r.size)
prefault page r log adaptive = (record r { bg_joinable = true }, log)

unfoldable pub with_lock : Bool → Bool → VmemRegion × List Call → VmemRegion × List Call
unfolding do_mlock
with_lock granted lock (r, log) = if lock then do_mlock granted r log else (r, log)

-- The constructor after the mapping.
unfoldable pub construct_mapped :
    ℕ → Bool → PrefaultPolicy → Bool → ℕ → Mapped ℕ → Mapped VmemRegion
unfolding prefault with_lock
construct_mapped page granted policy lock sz (runtime_error log) = runtime_error log
construct_mapped page granted policy lock sz (ok base log) =
    let r : VmemRegion = record {
      base = base;
      size = sz;
      policy = policy;
      locked = false;
      prefaulted = 0;
      hwm_bytes = 0;
      stop_bg = false;
      bg_joinable = false;
    } in
    let (s, calls) = with_lock granted lock (prefault page r log policy) in ok s calls

unfoldable pub construct :
    ℕ → ℕ → Bool → ℕ → PrefaultPolicy → Bool → Bool → List Call → Mapped VmemRegion
unfolding construct_mapped map_region round_up_to_page
construct page answer granted bytes policy huge lock log =
    let sz = round_up_to_page page bytes in
    construct_mapped page granted policy lock sz (map_region answer sz policy huge log)

-- The background thread is told to stop, and has ended when `join` returns.
abbrev pub stop_worker : VmemRegion → VmemRegion
stop_worker r = if r.bg_joinable then record r { stop_bg = true; bg_joinable = false } else r

-- The destructor once the thread has ended.
unfoldable pub release : VmemRegion → List Call → List Call
unfolding do_munlock unmap_region
release r log =
    let (t, calls) = if r.locked then do_munlock r log else (r, log) in
    unmap_region t.base t.size calls

unfoldable pub destroy : VmemRegion → List Call → List Call
unfolding release
destroy r log = release (stop_worker r) log

-- The new object and what is left of the old one.
unfoldable pub move_construct : VmemRegion → VmemRegion × VmemRegion
move_construct o = (
  record o { stop_bg = false; bg_joinable = false },
  stop_worker (record o { base = 0; size = 0; locked = false }),
)

unfoldable pub advance_hwm : VmemRegion → ℕ → VmemRegion
advance_hwm r consumed_bytes = record r { hwm_bytes = consumed_bytes }

-- How far a round of the worker prefaults.
abbrev pub target_of : ℕ → VmemRegion → ℕ
target_of page r =
    let target = add64 r.hwm_bytes ((watermark_pages * page) % 2 ^ 64) in
    if ltb r.size target then r.size else target

-- A round of the worker's loop, with how far it has touched: the region, that offset and the log.
unfoldable pub worker_round : ℕ → VmemRegion → ℕ → List Call → VmemRegion × ℕ × List Call
worker_round page r prefaulted_off log =
    let target = target_of page r in
    if r.stop_bg
    then (r, prefaulted_off, log)
    else if ltb prefaulted_off target
    then (
      record r { prefaulted = target },
      target,
      log ++ madvise_populate (add64 r.base prefaulted_off) (sub64 target prefaulted_off) ∷ [],
    )
    else (r, prefaulted_off, log)
