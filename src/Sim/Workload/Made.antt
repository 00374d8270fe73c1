-- ===== src/Sim/Workload/Made.antt =====
-- What the processes of a made workload are like.
use memory_allocator.Base.{
  ℕ, zero, suc, ◌+◌, ◌%◌, ◌≤◌, ◌≡◌, refl, ap, ◌==◌, if◌then◌else◌, Bool, true, false, List, [], ◌∷◌,
  length, arith,
}
use memory_allocator.Base.Random.{Random, RandomLaws}
use memory_allocator.Sched.Process.{new, cpu, io, Burst, Process}
use memory_allocator.Sim.Workload.{
  WorkloadType, cpu_heavy, io_heavy, mixed, num_bursts, ticks_between, first_ticks, make_burst,
  bursts_from, make_process, processes_from, make_workload,
}

-- Bursts for the CPU and for I/O take turns, and the last is for the CPU; none has fewer than 2 or
-- more than 40 ticks.
abbrev pub Alternate : Bool → List Burst → Type 0
Alternate is_cpu [] = is_cpu ≡ false
Alternate is_cpu (b ∷ rest) =
    (b.kind ≡ (if is_cpu then cpu else io))
    × (2 ≤ b.ticks)
    × (b.ticks ≤ 40)
    × Alternate (if is_cpu then false else true) rest

-- A process as it is made, with the pid one more than its index.
abbrev pub IsMade : WorkloadType → ℕ → Process → Type 0
IsMade type i p =
    (p.pid ≡ i + 1)
    × (p.state ≡ new)
    × (p.arrival ≤ 10)
    × (1 ≤ p.priority)
    × (p.priority ≤ 5)
    × (length p.bursts ≡ num_bursts type)
    × Alternate true p.bursts
    × (p.cur_burst ≡ 0)
    × (p.burst_remaining ≡ first_ticks p.bursts)

abbrev pub AllMade : WorkloadType → ℕ → List Process → Type 0
AllMade type i [] = Unit
AllMade type i (p ∷ ps) = IsMade type i p × AllMade type (suc i) ps

module _ {G : Type 0} (random : Random G) (laws : RandomLaws random) where
  ticks_in_range :
      (type : WorkloadType) (is_cpu : Bool) (g : G)
      → let t = (random.uniform (ticks_between type is_cpu).0 (ticks_between type is_cpu).1 g).0 in
        (2 ≤ t) × (t ≤ 40)
  ticks_in_range cpu_heavy true g =
      let r = laws.in_range 10 40 g (omega arith) in (omega (arith, r.0), omega (arith, r.1))
  ticks_in_range cpu_heavy false g =
      let r = laws.in_range 2 8 g (omega arith) in (omega (arith, r.0), omega (arith, r.1))
  ticks_in_range io_heavy true g =
      let r = laws.in_range 2 6 g (omega arith) in (omega (arith, r.0), omega (arith, r.1))
  ticks_in_range io_heavy false g =
      let r = laws.in_range 10 30 g (omega arith) in (omega (arith, r.0), omega (arith, r.1))
  ticks_in_range mixed is_cpu g =
      let r = laws.in_range 5 20 g (omega arith) in (omega (arith, r.0), omega (arith, r.1))

  bursts_from-length :
      (type : WorkloadType) (left b : ℕ) (g : G)
      → length (bursts_from random type left b g).0 ≡ left
  unfolding bursts_from
  bursts_from-length type zero b g = refl
  bursts_from-length type (suc left) b g =
      ap suc (bursts_from-length type left (suc b) (make_burst random type b g).1)

  -- The burst `b` is for the CPU where `b` is even; the number of bursts is odd.
  bursts_from-Alternate :
      (type : WorkloadType) (left b : ℕ) (g : G) (is_cpu : Bool)
      → (b % 2 == 0) ≡ is_cpu
      → (if is_cpu then left % 2 else (suc left) % 2) ≡ 1
      → Alternate is_cpu (bursts_from random type left b g).0
  unfolding bursts_from make_burst
  bursts_from-Alternate type zero b g true e h = ground (arith, h)
  bursts_from-Alternate type zero b g false e h = refl
  bursts_from-Alternate type (suc left) b g true e h =
      let t = ticks_in_range type (b % 2 == 0) g in
      (
        ap (λ c. if c then cpu else io) e,
        t.0,
        t.1,
        bursts_from-Alternate type left (suc b) (make_burst random type b g).1 false
            (ground (arith, e)) (omega (arith, h)),
      )
  bursts_from-Alternate type (suc left) b g false e h =
      let t = ticks_in_range type (b % 2 == 0) g in
      (
        ap (λ c. if c then cpu else io) e,
        t.0,
        t.1,
        bursts_from-Alternate type left (suc b) (make_burst random type b g).1 true
            (ground (arith, e)) (omega (arith, h)),
      )

  odd_bursts : (type : WorkloadType) → num_bursts type % 2 ≡ 1
  odd_bursts cpu_heavy = refl
  odd_bursts io_heavy = refl
  odd_bursts mixed = refl

  make_process-IsMade :
      (type : WorkloadType) (i : ℕ) (g : G) → IsMade type i (make_process random type i g).0
  unfolding make_process
  make_process-IsMade type i g =
      let first = random.uniform 0 10 g in
      let second = random.uniform 1 5 first.1 in
      let a = laws.in_range 0 10 g (omega arith) in
      let p = laws.in_range 1 5 first.1 (omega arith) in
      (
        refl,
        refl,
        a.1,
        p.0,
        p.1,
        bursts_from-length type (num_bursts type) 0 second.1,
        bursts_from-Alternate type (num_bursts type) 0 second.1 true refl (odd_bursts type),
        refl,
        refl,
      )

  processes_from-AllMade :
      (type : WorkloadType) (left i : ℕ) (g : G)
      → (length (processes_from random type left i g) ≡ left)
        × AllMade type i (processes_from random type left i g)
  unfolding processes_from
  processes_from-AllMade type zero i g = (refl, tt)
  processes_from-AllMade type (suc left) i g =
      let rest = processes_from-AllMade type left (suc i) (make_process random type i g).1 in
      (ap suc rest.0, (make_process-IsMade type i g, rest.1))

  -- With distributions that answer between their ends, a workload of any type has as many processes
  -- as it was asked for. Their pids count up from 1, each is new, arrives by tick 10, has a
  -- priority from 1 to 5 and the number of bursts of the type, for the CPU and for I/O by turns and
  -- for the CPU at both ends, each of 2 to 40 ticks, and it is at its first burst with all of its
  -- ticks to go.
  pub make_workload-AllMade :
      (type : WorkloadType) (n seed : ℕ)
      → (length (make_workload random type n seed) ≡ n)
        × AllMade type 0 (make_workload random type n seed)
  unfolding make_workload
  make_workload-AllMade type n seed = processes_from-AllMade type n 0 (random.seeded seed)
