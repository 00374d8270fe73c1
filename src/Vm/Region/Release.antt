-- ===== src/Vm/Region/Release.antt =====
-- What a region takes from the OS it gives back once.
use memory_allocator.Base.{
  ℕ, ◌<◌, ◌≡◌, ◌≢◌, refl, sym, ap, ◌∙◌, ◌==◌, ne→==, ◌||◌, ◌&&◌, not, if◌then◌else◌, Bool, true,
  false, List, [], ◌∷◌, ◌++◌, append_assoc, append-nil, arith,
}
use memory_allocator.Memory.VirtualMemory.{map_failed}
use memory_allocator.Vm.Region.{
  PrefaultPolicy, lazy, eager_touch, map_populate, adaptive, Call, mmap, munmap, mlock, munlock,
  is_map_populate, touch_pages, VmemRegion, ok, map_region, unmap_region, do_mlock, do_munlock,
  round_up_to_page, prefault, with_lock, construct_mapped, construct, stop_worker, release, destroy,
  move_construct,
}

-- The calls that give a region back.
abbrev pub releases : Bool → ℕ → ℕ → List Call
releases true base size = munlock base size ∷ munmap base size ∷ []
releases false base size = munmap base size ∷ []

-- The address and the size of a region, and whether it is locked.
abbrev holding : VmemRegion → ℕ × ℕ × Bool
holding r = (r.base, r.size, r.locked)

holding-prefault :
    (page : ℕ) (r : VmemRegion) (log : List Call) (policy : PrefaultPolicy)
    → holding (prefault page r log policy).0 ≡ holding r
unfolding prefault
holding-prefault page r log lazy = refl
holding-prefault page r log eager_touch = refl
holding-prefault page r log map_populate = refl
holding-prefault page r log adaptive = refl

holding-with_lock :
    (granted lock : Bool) (r : VmemRegion) (log : List Call)
    → r.locked ≡ false
    → holding (with_lock granted lock (r, log)).0 ≡ (r.base, r.size, lock && granted)
unfolding with_lock do_mlock
holding-with_lock true true r log e = refl
holding-with_lock false true r log e = ap (λ b. (r.base, r.size, b)) e
holding-with_lock granted false r log e = ap (λ b. (r.base, r.size, b)) e

abbrev give_back : ℕ × ℕ × Bool → List Call → List Call
give_back (base, size, locked) log =
    unmap_region base size (if locked then log ++ munlock base size ∷ [] else log)

release-holding : (r : VmemRegion) (log : List Call) → release r log ≡ give_back (holding r) log
unfolding release do_munlock
release-holding r log = unlocked r.locked
  where
    finish : VmemRegion × List Call → List Call
    finish v = unmap_region v.0.base v.0.size v.1

    unlocked :
        (b : Bool)
        → finish (
            if b
            then (record r { locked = false }, log ++ munlock r.base r.size ∷ [])
            else (r, log))
          ≡ give_back (r.base, r.size, b) log
    unlocked true = refl
    unlocked false = refl

holding-stop :
    (r s : VmemRegion) (b : Bool) → holding s ≡ holding r → holding (if b then s else r) ≡ holding r
holding-stop r s true e = e
holding-stop r s false e = refl

destroy-holding : (r : VmemRegion) (log : List Call) → destroy r log ≡ give_back (holding r) log
unfolding destroy
destroy-holding r log =
    release-holding (stop_worker r) log
    ∙ ap (λ h. give_back h log)
        (holding-stop r (record r { stop_bg = true; bg_joinable = false }) r.bg_joinable refl)

nothing_back : (log : List Call) → give_back (0, 0, false) log ≡ log
unfolding unmap_region
nothing_back log = refl

all_back :
    (base size : ℕ) (locked : Bool) (log : List Call)
    → 0 < base
    → 0 < size
    → give_back (base, size, locked) log ≡ log ++ releases locked base size
unfolding unmap_region
all_back base size locked log b s = mapped locked
  where
    real : (base == 0 || size == 0) ≡ false
    real = ground (arith, b, s)

    mapped : (l : Bool) → give_back (base, size, l) log ≡ log ++ releases l base size
    mapped true = rw real (append_assoc log (munlock base size ∷ []) (munmap base size ∷ []))
    mapped false = rw real refl

-- The moved-from region holds nothing, and the new one what it held.
holding-moved :
    (r : VmemRegion)
    → let (n, o) = move_construct r in (holding n ≡ holding r) × (holding o ≡ (0, 0, false))
unfolding move_construct
holding-moved r =
    let o = record r { base = 0; size = 0; locked = false } in
    (refl, holding-stop o (record o { stop_bg = true; bg_joinable = false }) r.bg_joinable refl)

-- A region that is moved, and both objects destroyed, the moved-from one last or first, makes the
-- calls that it makes when it is destroyed without a move.
pub move-destroy :
    (r : VmemRegion) (log : List Call)
    → let (n, o) = move_construct r in
      (destroy o (destroy n log) ≡ destroy r log) × (destroy n (destroy o log) ≡ destroy r log)
move-destroy r log =
    let (n, o) = move_construct r in
    let (kept, left) = holding-moved r in
    let same_calls : (l : List Call) → destroy n l ≡ destroy r l =
      λ l. destroy-holding n l ∙ ap (λ h. give_back h l) kept ∙ sym (destroy-holding r l) in
    let no_calls : (l : List Call) → destroy o l ≡ l =
      λ l. destroy-holding o l ∙ ap (λ h. give_back h l) left ∙ nothing_back l in
    (no_calls (destroy n log) ∙ same_calls log, ap (destroy n) (no_calls log) ∙ same_calls log)

-- A mapping that succeeds, with huge pages or not.
map_region-ok :
    (answer sz : ℕ) (policy : PrefaultPolicy) (huge : Bool) (log : List Call)
    → answer ≢ map_failed
    → map_region answer sz policy huge log
      ≡ ok answer (log ++ mmap sz (is_map_populate policy) huge ∷ [])
unfolding map_region
map_region-ok answer sz policy huge log ne =
    let mapped : (answer == map_failed) ≡ false = ne→== answer map_failed ne in
    let plain : (huge && not huge) ≡ false = ground arith in rw (mapped, plain) refl

-- What the policy touches of a region.
abbrev pub touches : PrefaultPolicy → ℕ → ℕ → ℕ → List Call
touches eager_touch page base size = touch_pages page base size
touches lazy page base size = []
touches map_populate page base size = []
touches adaptive page base size = []

abbrev pub locks : Bool → ℕ → ℕ → List Call
locks true base size = mlock base size ∷ []
locks false base size = []

prefault-calls :
    (page : ℕ) (r : VmemRegion) (log : List Call) (policy : PrefaultPolicy)
    → (prefault page r log policy).1 ≡ log ++ touches policy page r.base r.size
unfolding prefault
prefault-calls page r log lazy = sym (append-nil log)
prefault-calls page r log eager_touch = refl
prefault-calls page r log map_populate = sym (append-nil log)
prefault-calls page r log adaptive = sym (append-nil log)

with_lock-calls :
    (granted lock : Bool) (r : VmemRegion) (log : List Call)
    → (with_lock granted lock (r, log)).1 ≡ log ++ locks lock r.base r.size
unfolding with_lock do_mlock
with_lock-calls granted true r log = refl
with_lock-calls granted false r log = sym (append-nil log)

-- What the constructor makes of a mapping.
constructed-destroy :
    (page : ℕ) (granted lock : Bool) (policy : PrefaultPolicy) (sz answer : ℕ) (mapped : List Call)
    → 0 < answer
    → 0 < sz
    → (r : VmemRegion) × (calls : List Call) × (construct_mapped page granted policy lock sz
          (ok answer mapped)
        ≡ ok r calls)
      × (calls ≡ (mapped ++ touches policy page answer sz) ++ locks lock answer sz)
      × (destroy r calls ≡ calls ++ releases (lock && granted) answer sz)
unfolding construct_mapped
constructed-destroy page granted lock policy sz answer mapped a s =
    let r : VmemRegion = record {
      base = answer;
      size = sz;
      policy = policy;
      locked = false;
      prefaulted = 0;
      hwm_bytes = 0;
      stop_bg = false;
      bg_joinable = false;
    } in
    let (t, log) = prefault page r mapped policy in
    let (u, calls) = with_lock granted lock (t, log) in
    let kept : holding t ≡ (answer, sz, false) = holding-prefault page r mapped policy in
    let held : holding u ≡ (answer, sz, lock && granted) =
      holding-with_lock granted lock t log (ap (λ h. h.2) kept)
      ∙ ap (λ h. (h.0, h.1, lock && granted)) kept in
    (
      u,
      calls,
      refl,
      with_lock-calls granted lock t log
          ∙ ap (λ h. log ++ locks lock h.0 h.1) kept
          ∙ ap (λ l. l ++ locks lock answer sz) (prefault-calls page r mapped policy),
      destroy-holding u calls
          ∙ ap (λ h. give_back h calls) held
          ∙ all_back answer sz (lock && granted) calls a s,
    )

-- A region of a positive size whose mapping succeeds at an address other than null, whatever the
-- policy and the flags: the constructor returns a region. Its calls are, in this order, one `mmap`
-- of the size rounded up to a page, populated exactly if the policy says so and with huge pages
-- exactly if asked, the writes that touch the mapped range if the policy is to touch it eagerly,
-- and one `mlock` of that range if a lock is asked for. The destruction of the region then makes
-- only these calls: it unlocks that range if a lock was asked for and granted, and unmaps that
-- range, once.
pub lifetime-releases :
    (page answer bytes : ℕ) (granted huge lock : Bool) (policy : PrefaultPolicy) (log : List Call)
    → 0 < answer
    → answer ≢ map_failed
    → 0 < round_up_to_page page bytes
    → let sz = round_up_to_page page bytes in
      let taken = log ++ mmap sz (is_map_populate policy) huge ∷ [] in
      (r : VmemRegion) × (calls : List Call) × (construct page answer granted bytes policy huge lock
          log
        ≡ ok r calls)
      × (calls ≡ (taken ++ touches policy page answer sz) ++ locks lock answer sz)
      × (destroy r calls ≡ calls ++ releases (lock && granted) answer sz)
unfolding construct
lifetime-releases page answer bytes granted huge lock policy log real mapped some_bytes =
    let sz = round_up_to_page page bytes in
    let taken = log ++ mmap sz (is_map_populate policy) huge ∷ [] in
    let e = map_region-ok answer sz policy huge log mapped in
    let (r, final, f, made, g) =
      constructed-destroy page granted lock policy sz answer taken real some_bytes in
    (r, final, ap (construct_mapped page granted policy lock sz) e ∙ f, made, g)
