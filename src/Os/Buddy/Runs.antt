-- ===== src/Os/Buddy/Runs.antt =====
-- The process simulation over the buddy allocator, from the first tick on.
use memory_allocator.Base.{
  ℕ, ◌+◌, ◌^◌, ◌≤◌, ◌≡◌, refl, ap, ◌∙◌, leb, ltb, if◌then◌else◌, ◌&&◌, true, some, List, [], ◌∷◌,
  All, arith,
}
use memory_allocator.Memory.VirtualMemory.{VirtualMemory}
use memory_allocator.Memory.Buddy.{Logs, BuddyAllocator}
use memory_allocator.Memory.Buddy.Weights.{bytes, covers, bytes-Splits, covers-Splits}
use memory_allocator.Memory.Buddy.Allocate.{free_weight}
use memory_allocator.Memory.Buddy.Clients.{LogLaws, IsPlaced, held_weight}
use memory_allocator.Memory.Buddy.Ownership.{start, construct-Conserves}
use memory_allocator.Os.Process.{Process}
use memory_allocator.Os.Scheduler.{Scheduler, construct, add_processes, run, all_terminated}
use memory_allocator.Os.Scheduler.Runs.{IsFresh}
use memory_allocator.Os.Scheduler.Shares.{shares}
use memory_allocator.Os.Scheduler.Holdings.{run-Holds, all_terminated-shares}
use memory_allocator.Os.Buddy.{memory}
use memory_allocator.Os.Buddy.Orders.{sized, Owes, tracked}

-- How many of the blocks, as addresses and sizes, cover an address.
abbrev pub covering : ℕ → List (ℕ × ℕ) → ℕ
covering a [] = 0
covering a ((x, n) ∷ l) = (if leb x a && ltb a (x + n) then 1 else 0) + covering a l

covering-sized : (m a : ℕ) (h : List (ℕ × ℕ)) → held_weight (covers m a) h ≡ covering a (sized m h)
covering-sized m a [] = refl
covering-sized m a ((x, k) ∷ h) = ap (λ n. covers m a k x + n) (covering-sized m a h)

sized-nil : (m : ℕ) (h : List (ℕ × ℕ)) → sized m h ≡ [] → h ≡ []
sized-nil m [] e = refl
sized-nil m (x ∷ h) e = ground (arith, e)

module _ (logs : Logs) (laws : LogLaws logs) (m max : ℕ) (storage : VirtualMemory)
    (placed : IsPlaced m max storage) (small : m + max ≤ 48) where
  -- In storage of at most 2^48 bytes that starts at a multiple of its size, with smallest blocks of
  -- eight bytes or more, and with the laws of the logarithms: a run of the scheduler over fresh processes, whose last burst has no I/O, and a new
  -- buddy allocator returns, whatever the processes ask for and however many ticks are given. At
  -- its end each byte of the storage lies in exactly one block, free or held by a process that was
  -- admitted and has not ended, as the addresses and sizes in the processes tell; and where all
  -- processes have ended, the bytes of the free blocks are all of the storage.
  pub run_returns_memory :
      (quantum max_ticks : ℕ) (ps : List Process)
      → All IsFresh ps
      → (t : Scheduler BuddyAllocator) × (run
            (memory logs)
            max_ticks
            (add_processes (construct (start logs m max storage) quantum) ps)
          ≡ some t)
        × ((a : ℕ)
            → free_weight (covers m a) max t.allocator + covering a (shares t.all_processes)
              ≡ covers m a max storage.ptr)
        × (all_terminated t.all_processes ≡ true
            → free_weight (bytes m) max t.allocator ≡ 2 ^ (m + max))
  unfolding Owes tracked
  run_returns_memory quantum max_ticks ps f =
      let (t, e, (h, c, l)) =
        run-Holds (tracked logs laws m max storage.ptr small) (start logs m max storage) quantum
          max_ticks ps f ([], construct-Conserves logs m max storage laws placed, refl) in
      (
        t,
        e,
        λ a.
            let held : held_weight (covers m a) h ≡ covering a (shares t.all_processes) =
              covering-sized m a h ∙ ap (covering a) l in
            omega (arith, c.weight (covers m a) (covers-Splits m a), held),
        λ d.
            let nothing : h ≡ [] = sized-nil m h (l ∙ all_terminated-shares t.all_processes d) in
            let held : held_weight (bytes m) h ≡ 0 = ap (held_weight (bytes m)) nothing in
            omega (arith, c.weight (bytes m) (bytes-Splits m), held),
      )
